-- ===== src/Coordinator/Configure/Patch.antt =====
-- The merge of a patch into the settings.
use proxmox_dns_firewall_loc.Prelude.{
  Bool, true, false, ◌||◌, [], if◌then◌else◌, Bool-cases, inl, inr, ◌≡◌, refl, arith, ℤ, positive,
}
use proxmox_dns_firewall_loc.Text.{Text, text_eq, trim_space}
use proxmox_dns_firewall_loc.Config.{Settings}
use proxmox_dns_firewall_loc.Proxmox.Resolve.{is_guest_kind, lxc_text}
use proxmox_dns_firewall_loc.Coordinator.Configure.{
  patched, patched_guest_type, merge_settings_patch,
}

abbrev pub is_blank : Text → Bool
is_blank t = text_eq (trim_space t) []

patched-kept : (new old : Text) → is_blank old ≡ false → is_blank (patched new old) ≡ false
patched-kept new old e = elim (Bool-cases (is_blank new)) [
  | inl blank ↦ rw blank e
  | inr given ↦ rw given given
]

lxc-known : is_guest_kind lxc_text ≡ true
unfolding text_eq
lxc-known = refl

kind_or_lxc :
    (t : Text)
    → is_guest_kind t || text_eq t [] ≡ true
    → is_guest_kind (if text_eq t [] then lxc_text else t) ≡ true
kind_or_lxc t e = elim (Bool-cases (text_eq t [])) [
  | inl empty ↦ rw empty lxc-known
  | inr given ↦ rw given (or_true (is_guest_kind t) (text_eq t []) e given)
]
  where
    or_true : (a b : Bool) → (a || b) ≡ true → b ≡ false → a ≡ true
    or_true a b e f = ground arith

kind_kept :
    (new old : Text)
    → is_guest_kind old || text_eq old [] ≡ true
    → is_guest_kind (patched_guest_type new old) ≡ true
kind_kept new old e = elim (Bool-cases (is_guest_kind new)) [
  | inl known ↦ rw known (kind_or_lxc new (left_true (is_guest_kind new) (text_eq new []) known))
  | inr other ↦ rw other (kind_or_lxc old e)
]
  where
    left_true : (a b : Bool) → a ≡ true → (a || b) ≡ true
    left_true a b e = ground arith

-- No patch empties the token's secret or unsets the VMID, and the guest type that comes of a
-- patch is one of the two kinds if the guest type of the settings is one or is empty.
pub merge_settings_patch-kept :
    (env : Text) (patch s : Settings)
    → is_blank s.token_secret ≡ false
    → positive s.pve_vmid ≡ true
    → is_guest_kind s.guest_type || text_eq s.guest_type [] ≡ true
    → (is_blank (merge_settings_patch env patch s).token_secret ≡ false)
      × (positive (merge_settings_patch env patch s).pve_vmid ≡ true)
      × (is_guest_kind (merge_settings_patch env patch s).guest_type ≡ true)
unfolding merge_settings_patch
merge_settings_patch-kept env patch s secret vmid kind = (
  patched-kept patch.token_secret s.token_secret secret,
  vmid_kept patch.pve_vmid s.pve_vmid vmid,
  kind_kept patch.guest_type s.guest_type kind,
)
  where
    vmid_kept :
        (new old : ℤ) → positive old ≡ true → positive (if positive new then new else old) ≡ true
    vmid_kept new old e = elim (Bool-cases (positive new)) [
      | inl given ↦ rw given given
      | inr blank ↦ rw blank e
    ]
