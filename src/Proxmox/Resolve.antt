-- ===== src/Proxmox/Resolve.antt =====
-- ResolveGuestByVMID, from the rows of /cluster/resources on.
pub mod Sound
use proxmox_dns_firewall_loc.Prelude.{
  ℕ, Bool, true, false, not, ◌&&◌, ◌||◌, List, [], ◌∷◌, ◌++◌, Option, none, some, ◌==◌,
  if◌then◌else◌, length, ℤ, positive, int_eq,
}
use proxmox_dns_firewall_loc.Text.{
  Text, codes, text_eq, trim_space, to_lower, has_prefix, contains, add_name, text_run,
}
use proxmox_dns_firewall_loc.Proxmox.Api.{
  Row, Result, ok, err, guest_vmid_not_found, guest_vmid_ambiguous, str,
}
use proxmox_dns_firewall_loc.Proxmox.Row.{
  text_field, int_from_any, field?, or_null, as_string, int_text, scan_digits, scan_int,
}
use proxmox_dns_firewall_loc.Ip.{ip_run}

abbrev pub lxc_text : Text
lxc_text = codes "lxc"

abbrev pub qemu_text : Text
qemu_text = codes "qemu"

abbrev pub is_guest_kind : Text → Bool
is_guest_kind t = text_eq t lxc_text || text_eq t qemu_text

unfoldable pub guest_kind_from_cluster_row : Row → Text
guest_kind_from_cluster_row m =
    let t = to_lower (trim_space (text_field (codes "type") m)) in
    let p = to_lower (trim_space (text_field (codes "id") m)) in
    if is_guest_kind t
    then t
    else if has_prefix p (codes "lxc/")
    then lxc_text
    else if has_prefix p (codes "qemu/")
    then qemu_text
    else t

-- what follows the last "/", if there is one
unfoldable pub after_last_slash : Text → Option Text
after_last_slash [] = none
after_last_slash (c ∷ s) = elim (after_last_slash s) [
  | some r ↦ some r
  | none ↦ if c == b'/' then some s else none
]

unfoldable pub vmid_from_composite_resource_id : Text → ℤ
vmid_from_composite_resource_id id =
    let t = trim_space id in
    if text_eq t []
    then ℤ.pos 0
    else elim (after_last_slash t) [ some r ↦ int_from_any (str r) | none ↦ int_from_any (str t) ]

unfoldable pub vmid_from_cluster_row : Row → ℤ
vmid_from_cluster_row m =
    let v = int_from_any (or_null (field? (codes "vmid") m)) in
    if positive v then v else vmid_from_composite_resource_id (text_field (codes "id") m)

pub record Hit : Type 0 where
  pub node : Text
  pub typ : Text

-- the guest that a row names, if the row is one of this VMID
unfoldable pub row_hit : ℤ → Row → Option Hit
row_hit vmid row =
    let kind = guest_kind_from_cluster_row row in
    let node = trim_space (text_field (codes "node") row) in
    if not (is_guest_kind kind)
    then none
    else if not (int_eq (vmid_from_cluster_row row) vmid)
    then none
    else if text_eq node []
    then none
    else some (record { node = node; typ = kind })

abbrev pub hit_key : Hit → Text
hit_key h = h.typ ++ 0 ∷ h.node

pub record Hits : Type 0 where
  pub seen : List Text
  pub hits : List Hit

unfoldable pub add_hit : Hits → Option Hit → Hits
add_hit s none = s
add_hit s (some h) =
    if contains s.seen (hit_key h)
    then s
    else record s { seen = add_name s.seen (hit_key h); hits = s.hits ++ h ∷ [] }

unfoldable pub add_rows : ℤ → Hits → List Row → Hits
add_rows vmid s [] = s
add_rows vmid s (row ∷ rows) = add_rows vmid (add_hit s (row_hit vmid row)) rows

abbrev pub no_hits : Hits
no_hits = record { seen = []; hits = [] }

unfoldable pub choose : ℤ → List Hit → Result Hit
choose vmid [] = err guest_vmid_not_found
choose vmid (h ∷ []) = ok h
choose vmid (h ∷ k ∷ hits) = err (guest_vmid_ambiguous vmid (length (h ∷ k ∷ hits)))

unfoldable pub resolve_rows : ℤ → List Row → Result Hit
resolve_rows vmid rows = choose vmid (add_rows vmid no_hits rows).hits

-- Opens every operation of this file, for evaluation.
unfoldable pub resolve_run : Unit {0}
unfolding ip_run int_text field? as_string text_field scan_digits scan_int int_from_any
    guest_kind_from_cluster_row after_last_slash vmid_from_composite_resource_id
    vmid_from_cluster_row row_hit add_hit add_rows choose resolve_rows
resolve_run = tt
