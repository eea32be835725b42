-- ===== src/Coordinator/Update/Tests.antt =====
-- An update that is accepted and one that is refused, on the concrete guest.
use proxmox_dns_firewall_loc.Prelude.{true, false, [], some, ◌≡◌, refl, pos}
use proxmox_dns_firewall_loc.Text.{Text, codes}
use proxmox_dns_firewall_loc.Config.{write_error}
use proxmox_dns_firewall_loc.Proxmox.Sample.{server}
use proxmox_dns_firewall_loc.Coordinator.Save.Errors.{OnlyWorld}
use proxmox_dns_firewall_loc.Coordinator.Configure.{merge_settings_patch}
use proxmox_dns_firewall_loc.Coordinator.Sample.{
  settings, coordinator, host_of, disk, resolver, patch,
}
use proxmox_dns_firewall_loc.Coordinator.Update.{
  Warning, no_match_detail, cannot_save, refused, accepted, update_settings, update_run,
}
use proxmox_dns_firewall_loc.Coordinator.Update.Adopted.{Adopted, update_settings-Adopted}
use proxmox_dns_firewall_loc.Coordinator.Update.Refused.{FileKept, update_settings-refused}
use proxmox_dns_firewall_loc.Coordinator.History.{history_run}

-- the concrete API names no guest, so that the update warns
abbrev warning : Warning
warning = record {
  vmid = pos 101;
  detail = no_match_detail;
  node = codes "pve";
  guest_type = codes "lxc";
}

abbrev line : Text
line = codes "API OK — Proxmox unknown · https://10.0.0.2:8006 · node \"pve\""

done_update :
    (update_settings server host_of [] 1 resolver
      (record { written = true; renamed = true; changed_mode = true })
      patch
      (disk, coordinator)).0
    ≡ accepted (some warning) line
unfolding update_run history_run
done_update = refl

update_settings-Adopted_example :
    Adopted server host_of
      (merge_settings_patch [] patch settings).config_path
      (some warning)
      (update_settings server host_of [] 1 resolver
        (record { written = true; renamed = true; changed_mode = true })
        patch
        (disk, coordinator)).1.0
      (update_settings server host_of [] 1 resolver
        (record { written = true; renamed = true; changed_mode = true })
        patch
        (disk, coordinator)).1.1
update_settings-Adopted_example =
    update_settings-Adopted server host_of [] 1 resolver
      (record { written = true; renamed = true; changed_mode = true }) patch disk coordinator
      (some warning) line done_update

failed_update :
    (update_settings server host_of [] 1 resolver
      (record { written = false; renamed = true; changed_mode = true })
      patch
      (disk, coordinator)).0
    ≡ refused (cannot_save write_error)
unfolding update_run
failed_update = refl

update_settings-refused_example :
    OnlyWorld server coordinator
      (update_settings server host_of [] 1 resolver
        (record { written = false; renamed = true; changed_mode = true })
        patch
        (disk, coordinator)).1.1
    × FileKept
        (cannot_save write_error)
        (merge_settings_patch [] patch settings).config_path
        disk
        (update_settings server host_of [] 1 resolver
          (record { written = false; renamed = true; changed_mode = true })
          patch
          (disk, coordinator)).1.0
update_settings-refused_example =
    update_settings-refused server host_of [] 1 resolver
      (record { written = false; renamed = true; changed_mode = true }) patch disk coordinator
      (cannot_save write_error) failed_update
