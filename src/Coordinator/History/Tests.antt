-- ===== src/Coordinator/History/Tests.antt =====
-- A history of calls on the concrete guest.
use proxmox_dns_firewall_loc.Prelude.{any, List, [], ◌∷◌, some, ◌≡◌, refl, ap, ◌∙◌}
use proxmox_dns_firewall_loc.Text.{codes}
use proxmox_dns_firewall_loc.Proxmox.Rules.{
  bootstrap_stale, allow_rule, bootstrap_rule, ip_family_four,
}
use proxmox_dns_firewall_loc.Proxmox.Sample.{server, client, guest, pve, pve-held}
use proxmox_dns_firewall_loc.Coordinator.Dns.{a}
use proxmox_dns_firewall_loc.Coordinator.Firewall.Steps.{held}
use proxmox_dns_firewall_loc.Coordinator.Sample.{resolver, coordinator, coordinator-Ready, rules}
use proxmox_dns_firewall_loc.Coordinator.History.{
  Call, answered, list_saved, refreshed, bootstrapped, serve_all, history_run,
}
use proxmox_dns_firewall_loc.Coordinator.History.Untagged.{untagged, NoneStale}
use proxmox_dns_firewall_loc.Coordinator.History.Firewall.{Steps, Running, serve_all-Steps}

abbrev calls : List Call
calls =
    bootstrapped
    ∷ refreshed
    ∷ list_saved (codes "# deb.example\nother.example")
    ∷ answered (codes "other.example.") (
        some (record {
          rcode = 0;
          answer = a (some (0 ∷ 0 ∷ 0 ∷ 0 ∷ 0 ∷ 0xffff ∷ 0xc000 ∷ 0x0207 ∷ [])) ∷ [];
        }))
    ∷ []

-- the rule for TCP was missing
history_rules :
    (serve_all server 1 resolver calls coordinator).world.rules
    ≡ (allow_rule (codes "other.example") (codes "192.0.2.7") ip_family_four).rule
      ∷ (bootstrap_rule (codes "tcp") resolver).rule
      ∷ (bootstrap_rule (codes "udp") resolver).rule
      ∷ []
unfolding history_run
history_rules = refl

clean_rules : NoneStale resolver rules
unfolding history_run
clean_rules = refl

pub coordinator-Running : Running server client guest pve resolver resolver coordinator
coordinator-Running = record {
  ready = coordinator-Ready;
  client = refl;
  wanted = unfold history_run in refl;
  clean = ap (any (bootstrap_stale resolver)) (pve-held coordinator.world) ∙ clean_rules;
}

serve_all-Steps_example :
    Steps resolver calls
      (untagged (held server client guest pve coordinator))
      (untagged (held server client guest pve (serve_all server 1 resolver calls coordinator)))
    × Running server client guest pve resolver resolver
        (serve_all server 1 resolver calls coordinator)
serve_all-Steps_example =
    serve_all-Steps server client guest pve resolver 0 resolver calls coordinator
      coordinator-Running
