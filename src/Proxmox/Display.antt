-- ===== src/Proxmox/Display.antt =====
-- VMNameLabel and GuestTargetDisplay: what the page shows for the guest.
use proxmox_dns_firewall_loc.Prelude.{not, ◌&&◌, [], ◌++◌, Option, some, if◌then◌else◌, ℤ}
use proxmox_dns_firewall_loc.Text.{Text, codes, text_eq, trim_space}
use proxmox_dns_firewall_loc.Proxmox.Api.{Value, str, Row}
use proxmox_dns_firewall_loc.Proxmox.Row.{field?, text_field, int_text, row_run}

-- m[key].(string), or the empty string
abbrev as_text : Option Value → Text
as_text (some (str t)) = t
as_text _ = []

unfoldable pub string_field : Text → Row → Text
string_field key row = as_text (field? key row)

abbrev in_brackets : Text → Text → Text
in_brackets a b = a ++ (codes " (" ++ (b ++ codes ")"))

unfoldable pub vm_name_label : Row → Text
vm_name_label cfg =
    let name = string_field (codes "name") cfg in
    let host = string_field (codes "hostname") cfg in
    if not (text_eq name []) && (not (text_eq host []) && not (text_eq name host))
    then in_brackets name host
    else if not (text_eq name [])
    then name
    else host

unfoldable pub guest_target_display : ℤ → Row → Text
guest_target_display vmid cfg =
    let host = trim_space (text_field (codes "hostname") cfg) in
    let name = trim_space (text_field (codes "name") cfg) in
    let label = if text_eq host [] then name else host in
    in_brackets (int_text vmid) (if text_eq label [] then codes "-" else label)

-- Opens every operation of this file, for evaluation.
unfoldable pub display_run : Unit {0}
unfolding row_run string_field vm_name_label guest_target_display
display_run = tt
