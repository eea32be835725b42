-- ===== src/Coordinator/Save/Tests.antt =====
-- A save that denies one name and allows another, and the refresh before it.
use proxmox_dns_firewall_loc.Prelude.{List, [], ◌∷◌, none, ◌≡◌, refl, All}
use proxmox_dns_firewall_loc.Text.{Text, codes, split_lf, contains}
use proxmox_dns_firewall_loc.Text.Lines.{IsLine}
use proxmox_dns_firewall_loc.Allowlist.{parse_allowed, splice_block}
use proxmox_dns_firewall_loc.Allowlist.Markers.{NotMarker}
use proxmox_dns_firewall_loc.Allowlist.BlockLines.{IsLine-of_any}
use proxmox_dns_firewall_loc.Proxmox.Api.{Row, str, ok}
use proxmox_dns_firewall_loc.Proxmox.Display.{string_field}
use proxmox_dns_firewall_loc.Proxmox.Sample.{server, client}
use proxmox_dns_firewall_loc.Coordinator.Changes.{normalize_allowlist_multiline}
use proxmox_dns_firewall_loc.Coordinator.Dns.{is_allowed}
use proxmox_dns_firewall_loc.Coordinator.Refresh.{inner_of, refresh}
use proxmox_dns_firewall_loc.Coordinator.Refresh.Laws.{config_of}
use proxmox_dns_firewall_loc.Coordinator.Refresh.Allowed.{refresh-is_allowed}
use proxmox_dns_firewall_loc.Coordinator.Save.{save_merged_list, save_run}
use proxmox_dns_firewall_loc.Coordinator.Save.Allowed.{save_merged_list-is_allowed}
use proxmox_dns_firewall_loc.Coordinator.Sample.{coordinator}

abbrev cfg : Row
cfg = (codes "description", str coordinator.world.description) ∷ []

read_config : config_of server client coordinator ≡ ok cfg
unfolding save_run
read_config = refl

seen_before : All IsLine coordinator.seen
seen_before = (IsLine-of_any (codes "seen.example") refl, tt)

refresh-is_allowed_example :
    is_allowed (refresh server coordinator).last_merged_allow_text (codes "deb.example")
    ≡ contains
        (parse_allowed (inner_of (string_field (codes "description") cfg)))
        (codes "deb.example")
refresh-is_allowed_example =
    refresh-is_allowed server client cfg coordinator (codes "deb.example") refl read_config
      seen_before

-- "deb.example" is denied and "other.example" allowed
abbrev edited : Text
edited = codes "# deb.example\r\nother.example"

abbrev lines : List Text
lines = split_lf (normalize_allowlist_multiline edited)

save_accepted : (save_merged_list server edited coordinator).0 ≡ none
unfolding save_run
save_accepted = refl

no_marker : All NotMarker lines
unfolding save_run
no_marker = ((refl, refl), ((refl, refl), tt))

description_kept :
    (save_merged_list server edited coordinator).1.last_desc
    ≡ splice_block coordinator.last_desc lines
unfolding save_run
description_kept = refl

seen_then :
    (save_merged_list server edited coordinator).1.seen
    ≡ codes "seen.example" ∷ codes "deb.example" ∷ []
unfolding save_run
seen_then = refl

seen_lines : All IsLine (save_merged_list server edited coordinator).1.seen
seen_lines =
    rw seen_then
      (IsLine-of_any (codes "seen.example") refl, (IsLine-of_any (codes "deb.example") refl, tt))

save_merged_list-is_allowed_example :
    is_allowed
      (save_merged_list server edited coordinator).1.last_merged_allow_text
      (codes "other.example")
    ≡ contains (parse_allowed lines) (codes "other.example")
save_merged_list-is_allowed_example =
    save_merged_list-is_allowed server edited coordinator (codes "other.example") save_accepted
      no_marker description_kept seen_lines
