-- ===== src/Coordinator/Save/Compared.antt =====
-- What a save finds changed between the list that it replaces and the lines of the editor.
use proxmox_dns_firewall_loc.Prelude.{List}
use proxmox_dns_firewall_loc.Text.{Text}
use proxmox_dns_firewall_loc.Allowlist.{parse_allowed, parse_listed}
use proxmox_dns_firewall_loc.Coordinator.Changes.{
  split_allow_lines, newly_allowed_fqdns, newly_removed_fqdns, newly_denied_fqdns,
}
use proxmox_dns_firewall_loc.Coordinator.Changes.Differences.{IsDifference, sort_texts-IsDifference}
use proxmox_dns_firewall_loc.Coordinator.Save.{change_of}

-- What a save finds when it compares its lines with the list that it replaces. The names that are
-- newly allowed are those that its lines allow and the old list does not; the names that are newly
-- denied are those that the old list allows and its lines do not; the names that are removed are
-- those that the old list has, allowed or not, and its lines do not have. Each of the three comes
-- in the order of the texts.
pub change_of-differences :
    (old_merged : Text) (lines : List Text)
    → let old_lines = split_allow_lines old_merged in
      let change = change_of old_merged lines in
      IsDifference change.newly (parse_allowed lines) (parse_allowed old_lines)
      × IsDifference change.newly_denied (parse_allowed old_lines) (parse_allowed lines)
      × IsDifference change.removed (parse_listed old_lines) (parse_listed lines)
unfolding change_of newly_allowed_fqdns newly_removed_fqdns newly_denied_fqdns
change_of-differences old_merged lines =
    let old_lines = split_allow_lines old_merged in
    (
      sort_texts-IsDifference (parse_allowed lines) (parse_allowed old_lines),
      sort_texts-IsDifference (parse_allowed old_lines) (parse_allowed lines),
      sort_texts-IsDifference (parse_listed old_lines) (parse_listed lines),
    )
