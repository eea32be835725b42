-- ===== src/Coordinator/Start/Tests.antt =====
-- A start after an update of the concrete settings.
use proxmox_dns_firewall_loc.Prelude.{true, [], some, ◌≡◌, refl, pos}
use proxmox_dns_firewall_loc.Text.{Text, codes, text_eq, trim_space}
use proxmox_dns_firewall_loc.Config.{Settings, cleaned, Outcomes, config_run}
use proxmox_dns_firewall_loc.Proxmox.Sample.{server}
use proxmox_dns_firewall_loc.Coordinator.Sample.{settings, coordinator, host_of, disk, resolver}
use proxmox_dns_firewall_loc.Coordinator.Update.{
  Warning, no_match_detail, is_url, accepted, update_settings, update_run,
}
use proxmox_dns_firewall_loc.Coordinator.Start.{start_path, started, fresh, new_coordinator}
use proxmox_dns_firewall_loc.Coordinator.Start.Restart.{new_coordinator-update_settings}
use proxmox_dns_firewall_loc.Coordinator.History.{history_run}

-- the page sends no path
abbrev patch : Settings
patch = record settings { guest_type = codes "qemu"; config_path = [] }

abbrev done : Outcomes
done = record { written = true; renamed = true; changed_mode = true }

abbrev warning : Warning
warning = record {
  vmid = pos 101;
  detail = no_match_detail;
  node = codes "pve";
  guest_type = codes "qemu";
}

abbrev line : Text
line = codes "API OK — Proxmox unknown · https://10.0.0.1:8006 · node \"pve\""

done_update :
    (update_settings server host_of [] 1 resolver done patch (disk, coordinator)).0
    ≡ accepted (some warning) line
unfolding update_run history_run
done_update = refl

no_path : text_eq (trim_space patch.config_path) [] ≡ true
unfolding config_run
no_path = refl

default_path : coordinator.settings.config_path ≡ start_path [] []
unfolding config_run
default_path = refl

new_coordinator-update_settings_example :
    let (disk', c') =
      (update_settings server host_of [] 1 resolver done patch (disk, coordinator)).1 in
    new_coordinator server (is_url host_of) [] [] disk' coordinator.world
    ≡ started
        (fresh server (is_url host_of) (cleaned (start_path [] []) c'.settings) coordinator.world)
new_coordinator-update_settings_example =
    new_coordinator-update_settings server host_of [] 1 resolver done patch disk coordinator
      (some warning) line coordinator.world no_path default_path done_update
