-- ===== src/Coordinator/Stream/Tests.antt =====
-- Two subscribers, one of which is slow.
use proxmox_dns_firewall_loc.Prelude.{ℕ, List, [], ◌∷◌, ◌≡◌, refl, All}
use proxmox_dns_firewall_loc.Coordinator.Stream.{
  Signal, joined, greeted, gone, sent, taken, signals, stream_run,
}
use proxmox_dns_firewall_loc.Coordinator.Stream.Order.{Fine, sent_of, signals-ordered}

abbrev run : List (Signal ℕ)
run =
    joined 1 2
    ∷ sent 7
    ∷ greeted 1 7
    ∷ taken 1
    ∷ joined 2 1
    ∷ greeted 2 7
    ∷ sent 8
    ∷ sent 9
    ∷ taken 2
    ∷ gone 1
    ∷ []

-- the second one has missed the last payload, since it had not taken the one before
slow_one : signals ℕ run [] ≡ (record { id = 2; buf = 1; queue = []; written = 7 ∷ 8 ∷ [] }) ∷ []
unfolding stream_run
slow_one = refl

signals-ordered_example : All (Fine (sent_of run)) (signals ℕ run [])
signals-ordered_example = signals-ordered run
