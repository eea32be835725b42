-- ===== src/Coordinator/Changes.antt =====
-- The text of the editor as lines, and what a save changes in the list of names.
pub mod Differences
use proxmox_dns_firewall_loc.Prelude.{
  ℕ, Bool, true, false, not, ◌||◌, List, [], ◌∷◌, ◌++◌, Option, none, some, if◌then◌else◌,
}
use proxmox_dns_firewall_loc.Text.{
  Text, text_eq, trim_space, replace_crlf, replace_cr, split_lf, sort_texts, contains, text_run,
}
use proxmox_dns_firewall_loc.Ip.{Ip, parse_ip, ip_string, ip_run}

unfoldable pub normalize_allowlist_multiline : Text → Text
normalize_allowlist_multiline s = trim_space (replace_cr (trim_space (replace_crlf s)))

unfoldable pub split_allow_lines : Text → List Text
split_allow_lines merged_allow =
    let text = normalize_allowlist_multiline merged_allow in
    if text_eq text [] then [] else split_lf text

-- the loop `for fqdn := range keys` that skips what `known` holds
unfoldable pub absent_names : List Text → List Text → List Text
absent_names known [] = []
absent_names known (n ∷ names) =
    let rest = absent_names known names in if contains known n then rest else n ∷ rest

unfoldable pub newly_allowed_fqdns : List Text → List Text → List Text
newly_allowed_fqdns old_allowed new_allowed = sort_texts (absent_names old_allowed new_allowed)

unfoldable pub newly_removed_fqdns : List Text → List Text → List Text
newly_removed_fqdns old_listed new_listed = sort_texts (absent_names new_listed old_listed)

unfoldable pub newly_denied_fqdns : List Text → List Text → List Text
newly_denied_fqdns old_allowed new_allowed = sort_texts (absent_names new_allowed old_allowed)

-- one round of the loop of canonIPsUniqueStable
abbrev pub add_canonical : List Text → Option Ip → List Text
add_canonical out none = out
add_canonical out (some p) = if contains out (ip_string p) then out else out ++ ip_string p ∷ []

unfoldable pub canon_ips_from : List Text → List Text → List Text
canon_ips_from out [] = out
canon_ips_from out (raw ∷ ips) = canon_ips_from (add_canonical out (parse_ip (trim_space raw))) ips

-- canonIPsUniqueStable; `seen` holds what `out` holds
unfoldable pub canon_ips_unique_stable : List Text → List Text
canon_ips_unique_stable ips = canon_ips_from [] ips

-- Opens every operation of this file, for evaluation.
unfoldable pub changes_run : Unit {0}
unfolding text_run ip_run normalize_allowlist_multiline split_allow_lines absent_names
    newly_allowed_fqdns newly_removed_fqdns newly_denied_fqdns canon_ips_from
    canon_ips_unique_stable
changes_run = tt
