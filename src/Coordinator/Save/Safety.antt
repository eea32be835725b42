-- ===== src/Coordinator/Save/Safety.antt =====
-- The parts of a save, seen from the rules that they are not about.
use proxmox_dns_firewall_loc.Prelude.{Bool, [], Option, none, some, ◌≡◌, ◌∙◌}
use proxmox_dns_firewall_loc.Text.{Text}
use proxmox_dns_firewall_loc.Proxmox.Api.{Guest, Error, Client, Server}
use proxmox_dns_firewall_loc.Proxmox.Reconcile.Model.{Pve}
use proxmox_dns_firewall_loc.Coordinator.State.{Coordinator, enqueue_fw_activities}
use proxmox_dns_firewall_loc.Coordinator.Firewall.{Logged}
use proxmox_dns_firewall_loc.Coordinator.Firewall.Steps.{
  Ready, Spared, Spared-same, Spared-then, Spared-lists, enqueue-Spared,
}
use proxmox_dns_firewall_loc.Coordinator.Refresh.Spared.{refresh-Spared}
use proxmox_dns_firewall_loc.Coordinator.Refresh.{refresh}
use proxmox_dns_firewall_loc.Proxmox.Rules.{Rule}
use proxmox_dns_firewall_loc.Coordinator.Save.{
  Change, take_jobs, save_removed, save_denied, run_jobs, accept_text, follow_change, finish_save,
  saved,
}
use proxmox_dns_firewall_loc.Coordinator.Save.Loops.{
  Aparts, save_removed-Spared, save_denied-Spared, run_jobs-Spared, take_jobs-ApartJobs,
}

module _ (srv : Server) (px : Client) (g : Guest) (pve : Pve srv px g) (p : Rule → Bool) where
  pub follow_change-Spared :
      (change : Change) (desc text : Text) (c : Coordinator srv)
      → Aparts p change.removed
      → Aparts p change.newly_denied
      → Aparts p change.newly
      → Ready srv px g pve c
      → Spared srv px g pve p c (follow_change srv px change desc text c).1
  unfolding follow_change
  follow_change-Spared change desc text c removed denied newly r =
      let l1 = save_removed srv px change.removed ([], c) in
      let one = save_removed-Spared srv px g pve p change.removed ([], c) removed r in
      let (rows, c2) = save_denied srv px change.new_listed change.newly_denied l1 in
      let two : Spared srv px g pve p l1.1 c2 =
        save_denied-Spared srv px g pve p change.new_listed change.newly_denied l1 denied
          one.ready in
      let (jobs, m) = take_jobs change.newly c2.rejected_resolve_ips in
      let c3 = (accept_text srv px desc text change.newly c2).1 in
      let three : Spared srv px g pve p c2 c3 =
        Spared-lists srv px g pve p c2 c2.seen m desc text two.ready in
      let l4 = run_jobs srv px jobs (rows, c3) in
      let four =
        run_jobs-Spared srv px g pve p jobs (rows, c3)
          (take_jobs-ApartJobs srv px g pve p change.newly c2.rejected_resolve_ips newly)
          three.ready in
      Spared-then srv px g pve p c l1.1 l4.1 one (
        Spared-then srv px g pve p l1.1 c2 l4.1 two
          (Spared-then srv px g pve p c2 c3 l4.1 three four))

  finish_save-Spared :
      (l : Logged srv px)
      → l.1.px ≡ some px
      → Ready srv px g pve l.1
      → Spared srv px g pve p l.1 (finish_save srv px l)
  finish_save-Spared (rows, c) e r =
      let logged = enqueue-Spared srv px g pve p rows c r in
      let c' = enqueue_fw_activities srv rows c in
      Spared-then srv px g pve p c c' (refresh srv c') logged
        (refresh-Spared srv px g pve p c' (logged.client ∙ e) logged.ready)

  pub saved-Spared :
      (change : Change) (desc text : Text) (o : Option Error) (c : Coordinator srv)
      → Aparts p change.removed
      → Aparts p change.newly_denied
      → Aparts p change.newly
      → c.px ≡ some px
      → Ready srv px g pve c
      → Spared srv px g pve p c (saved srv px change desc text o c).1
  saved-Spared change desc text (some x) c removed denied newly e r = Spared-same srv px g pve p c r
  saved-Spared change desc text none c removed denied newly e r =
      let followed = follow_change-Spared change desc text c removed denied newly r in
      let l = follow_change srv px change desc text c in
      Spared-then srv px g pve p c l.1 (finish_save srv px l) followed
        (finish_save-Spared l (followed.client ∙ e) followed.ready)
