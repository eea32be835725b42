-- ===== src/Coordinator/Save/Names.antt =====
-- The rules of none of some names.
use proxmox_dns_firewall_loc.Prelude.{
  Bool, true, false, not, List, [], ◌∷◌, Bool-cases, inl, inr, ◌≡◌, ap, ◌∙◌, arith, any, keep,
}
use proxmox_dns_firewall_loc.Text.{Text, text_eq, text_eq_iff, contains}
use proxmox_dns_firewall_loc.Proxmox.Rules.{Rule}
use proxmox_dns_firewall_loc.Coordinator.Firewall.Foreign.{is_own, Apart, own-Apart}

-- the rules that are of none of the names
abbrev pub is_unnamed : List Text → Rule → Bool
is_unnamed names r = not (any (λ n. is_own n r) names)

abbrev pub unnamed : List Text → List Rule → List Rule
unnamed names rs = keep (is_unnamed names) rs

any-contains :
    (p : Text → Bool) (names : List Text) (n : Text)
    → contains names n ≡ true
    → p n ≡ true
    → any p names ≡ true
unfolding contains
any-contains p [] n e k = ground arith
any-contains p (m ∷ names) n e k = elim (Bool-cases (text_eq m n)) [
  | inl same ↦ let own : p m ≡ true = ap p ((text_eq_iff m n).0 same) ∙ k in ground arith
  | inr other ↦
      let rest : any p names ≡ true = any-contains p names n (ground arith) k in ground arith
]

not-true : (b : Bool) → b ≡ true → not b ≡ false
not-true b e = ground arith

pub unnamed-Apart :
    (names : List Text) (fqdn : Text) → contains names fqdn ≡ true → Apart (is_unnamed names) fqdn
unnamed-Apart names fqdn e =
    own-Apart (is_unnamed names) fqdn (λ r k.
      not-true (any (λ n. is_own n r) names) (any-contains (λ n. is_own n r) names fqdn e k))
