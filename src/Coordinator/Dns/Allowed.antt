-- ===== src/Coordinator/Dns/Allowed.antt =====
-- Rules for a wanted destination, and the prune of the stale ones.
use proxmox_dns_firewall_loc.Prelude.{
  Bool, true, false, ◌||◌, List, [], ◌∷◌, Option, none, some, Bool-cases, Option-cases, inl, inr,
  ◌≡◌, refl, sym, ap, subst, ◌∙◌, arith, any,
}
use proxmox_dns_firewall_loc.Text.{Text, text_eq, text_eq_iff, contains, strip_prefix}
use proxmox_dns_firewall_loc.Ip.{parse_ip, ip_string}
use proxmox_dns_firewall_loc.Proxmox.Rules.{
  Rule, ip_family_from_ip, canonical_ip_string, dynamic_rule_matches_dest, stale_dest,
  rule_managed_for_fqdn_family, managed_rest, matching_rest, is_family, tag_of,
}
use proxmox_dns_firewall_loc.Proxmox.Reconcile.Collect.{others, others-none, others-some}

-- A comment that marks one destination of a family is managed for that family only.
matching_rest-managed :
    (rest canon family family' : Text)
    → matching_rest rest canon family ≡ true
    → managed_rest rest family' ≡ true
    → family ≡ family'
unfolding matching_rest managed_rest
matching_rest-managed rest canon family family' e k = elim (Bool-cases (is_family rest)) [
  | inl tag ↦
      let one : text_eq rest family ≡ true = ground (arith, e, tag) in
      let two : text_eq rest family' ≡ true = ground (arith, k, tag) in
      sym ((text_eq_iff rest family).0 one) ∙ (text_eq_iff rest family').0 two
  | inr legacy ↦ elim (Option-cases (parse_ip rest)) [
    | inl n ↦ ground (arith, e, legacy, n)
    | inr (lip, n) ↦
        let one : text_eq (ip_family_from_ip lip) family ≡ true = ground (arith, e, legacy, n) in
        let two : text_eq (ip_family_from_ip lip) family' ≡ true = ground (arith, k, legacy, n) in
        sym ((text_eq_iff (ip_family_from_ip lip) family).0 one)
        ∙ (text_eq_iff (ip_family_from_ip lip) family').0 two
  ]
]

stale_dest-parts :
    (fqdn family : Text) (desired : List Text) (r : Rule) (t : Text)
    → stale_dest fqdn family desired r ≡ some t
    → (managed_rest (strip_prefix r.comment (tag_of fqdn)) family ≡ true)
      × (canonical_ip_string r.dest ≡ t)
      × (contains desired t ≡ false)
unfolding stale_dest rule_managed_for_fqdn_family canonical_ip_string
stale_dest-parts fqdn family desired r t e = elim (Option-cases (parse_ip r.dest)) [
  | inl n ↦ ground (arith, e, n)
  | inr (ip, n) ↦
      let same : ip_string ip ≡ t = ground (arith, e, n) in
      let old : contains desired (ip_string ip) ≡ false = ground (arith, e, n) in
      (ground (arith, e), ground (arith, n, same), subst (λ u. contains desired u ≡ false) same old)
]

matches-parts :
    (fqdn canon family : Text) (r : Rule)
    → dynamic_rule_matches_dest fqdn canon family r ≡ true
    → (matching_rest (strip_prefix r.comment (tag_of fqdn)) canon family ≡ true)
      × (canonical_ip_string r.dest ≡ canon)
unfolding dynamic_rule_matches_dest
matches-parts fqdn canon family r e =
    let same : text_eq (canonical_ip_string r.dest) canon ≡ true = ground (arith, e) in
    (ground (arith, e), (text_eq_iff (canonical_ip_string r.dest) canon).0 same)

-- A rule for a destination that is wanted is not stale.
pub wanted-fresh :
    (fqdn canon family family' : Text) (desired : List Text) (r : Rule)
    → (family ≡ family' → contains desired canon ≡ true)
    → dynamic_rule_matches_dest fqdn canon family r ≡ true
    → stale_dest fqdn family' desired r ≡ none
wanted-fresh fqdn canon family family' desired r wanted e =
    elim (Option-cases (stale_dest fqdn family' desired r)) [
      | inl fresh ↦ fresh
      | inr (t, k) ↦
          let (rest', dest', old) = stale_dest-parts fqdn family' desired r t k in
          let (rest, dest) = matches-parts fqdn canon family r e in
          let tag = strip_prefix r.comment (tag_of fqdn) in
          let there = wanted (matching_rest-managed tag canon family family' rest rest') in
          let gone : contains desired canon ≡ false =
            subst (λ u. contains desired u ≡ false) (sym dest' ∙ dest) old in
          cc
    ]

module _ {V : Type 0} (choose : Rule → Option V) (p : Rule → Bool)
    (fresh : (r : Rule) → p r ≡ true → choose r ≡ none) where
  any-others : (rs : List Rule) → any p (others choose rs) ≡ any p rs
  any-others [] = unfold others in refl
  any-others (r ∷ rs) = elim (Option-cases (choose r)) [
    | inl e ↦ ap (any p) (others-none choose r rs e) ∙ ap (λ b. p r || b) (any-others rs)
    | inr (v, e) ↦
        ap (any p) (others-some choose r rs e)
        ∙ any-others rs
        ∙ sym (drop_false (p r) (any p rs) (unchosen r v e))
  ]
    where
      drop_false : (a b : Bool) → a ≡ false → (a || b) ≡ b
      drop_false a b e = ground arith

      unchosen : (r : Rule) (v : V) → choose r ≡ some v → p r ≡ false
      unchosen r v e = elim (Bool-cases (p r)) [ inl k ↦ cc (fresh r k) | inr k ↦ k ]

  pub any-kept : (xs ys : List Rule) → others choose xs ≡ others choose ys → any p xs ≡ any p ys
  any-kept xs ys e = sym (any-others xs) ∙ ap (any p) e ∙ any-others ys
