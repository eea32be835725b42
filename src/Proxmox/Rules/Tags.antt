-- ===== src/Proxmox/Rules/Tags.antt =====
-- The comments that mark the program's own rules: which names and families they stand for.
use proxmox_dns_firewall_loc.Prelude.{
  ℕ, append_assoc, true, false, List, [], ◌∷◌, ◌++◌, none, ◌==◌, Bool-cases, inl, inr, ◌≡◌, ◌≢◌,
  ◌⊎◌, refl, sym, ap, subst, ◌∙◌, arith, All,
}
use proxmox_dns_firewall_loc.Text.{
  Text, codes, text_eq, text_eq_iff, text_eq_refl, has_prefix, strip_prefix, equal_fold, to_lower,
}
use proxmox_dns_firewall_loc.Ip.{Ip, is_four}
use proxmox_dns_firewall_loc.Proxmox.Rules.{
  is_tagged, ip_family_from_ip, Rule, accept, out, rule_tag_prefix, bootstrap_comment, tag_of,
  fqdn_outbound_tag, is_family, matching_rest, rule_managed_for_fqdn_family,
  dynamic_rule_matches_dest, stale_dest, canonical_ip_string, allow_rule, ip_family_four,
  ip_family_six,
}

-- DNS names and addresses of the form 1.2.3.4 have no colon.
abbrev pub ColonFree : Text → Type 0
ColonFree s = All (λ c. (c == b':') ≡ false) s

pub has_prefix-append : (p s t : Text) → has_prefix (p ++ s) (p ++ t) ≡ has_prefix s t
unfolding has_prefix
has_prefix-append [] s t = refl
has_prefix-append (c ∷ p) s t = ground (arith, has_prefix-append p s t)

strip_prefix-append : (p s t : Text) → strip_prefix (p ++ s) (p ++ t) ≡ strip_prefix s t
unfolding strip_prefix
strip_prefix-append [] s t = refl
strip_prefix-append (c ∷ p) s t = strip_prefix-append p s t

has_prefix_self : (p s : Text) → has_prefix (p ++ s) p ≡ true
unfolding has_prefix
has_prefix_self [] s = refl
has_prefix_self (c ∷ p) s = ground (arith, has_prefix_self p s)

-- Up to the first colon a text without colons is determined.
has_prefix-colon :
    (s t rest : Text)
    → ColonFree s
    → ColonFree t
    → has_prefix (s ++ b':' ∷ rest) (t ++ b':' ∷ []) ≡ true
    → s ≡ t
unfolding has_prefix
has_prefix-colon [] [] rest a b e = refl
has_prefix-colon [] (d ∷ t) rest a b e = ground (arith, a, b, e)
has_prefix-colon (c ∷ s) [] rest a b e = ground (arith, a, b, e)
has_prefix-colon (c ∷ s) (d ∷ t) rest a b e = ground (arith, has_prefix-colon s t rest a.1 b.1, e)

other_tag :
    (fqdn other rest : Text)
    → ColonFree fqdn
    → ColonFree other
    → fqdn ≢ other
    → has_prefix (rule_tag_prefix ++ (other ++ b':' ∷ rest)) (tag_of fqdn) ≡ false
other_tag fqdn other rest a b differ =
    elim (Bool-cases (has_prefix (rule_tag_prefix ++ (other ++ b':' ∷ rest)) (tag_of fqdn))) [
      | inl e ↦ absurd (
          differ (
            sym (
              has_prefix-colon other fqdn rest b a (
                sym (has_prefix-append rule_tag_prefix (other ++ b':' ∷ rest) (fqdn ++ b':' ∷ []))
                ∙ e))))
      | inr e ↦ e
    ]

-- A rule that is tagged for one name is neither stale nor a match for another name, whatever its
-- destination, the families and the wanted addresses are. The names have no colon.
pub other_name_untouched :
    (fqdn other family rest canon : Text) (desired : List Text) (r : Rule)
    → ColonFree fqdn
    → ColonFree other
    → fqdn ≢ other
    → r.comment ≡ fqdn_outbound_tag other rest
    → (stale_dest fqdn family desired r ≡ none)
      × (dynamic_rule_matches_dest fqdn canon family r ≡ false)
unfolding stale_dest dynamic_rule_matches_dest rule_managed_for_fqdn_family fqdn_outbound_tag
other_name_untouched fqdn other family rest canon desired r a b differ e =
    let no : has_prefix r.comment (tag_of fqdn) ≡ false =
      ap (λ t. has_prefix t (tag_of fqdn)) e ∙ other_tag fqdn other rest a b differ in
    (ground (arith, no), ground (arith, no))

family_cases : (t : Text) → is_family t ≡ true → (t ≡ ip_family_four) ⊎ (t ≡ ip_family_six)
family_cases t e = ground (arith, text_eq_iff t ip_family_four, text_eq_iff t ip_family_six)

bootstrap-ColonFree : ColonFree (codes "bootstrap")
bootstrap-ColonFree = (refl, (refl, (refl, (refl, (refl, (refl, (refl, (refl, (refl, tt)))))))))

pub has_prefix-tag : (s rest : Text) → has_prefix (s ++ b':' ∷ rest) (s ++ b':' ∷ []) ≡ true
has_prefix-tag s rest = has_prefix-append s (b':' ∷ rest) (b':' ∷ []) ∙ (unfold has_prefix in refl)

strip_prefix-tag : (s rest : Text) → strip_prefix (s ++ b':' ∷ rest) (s ++ b':' ∷ []) ≡ rest
strip_prefix-tag s rest =
    strip_prefix-append s (b':' ∷ rest) (b':' ∷ []) ∙ (unfold strip_prefix in refl)

-- A tag for a family is not the comment of the bootstrap rules.
tag-bootstrap :
    (fqdn family : Text)
    → ColonFree fqdn
    → is_family family ≡ true
    → text_eq (fqdn_outbound_tag fqdn family) bootstrap_comment ≡ false
unfolding fqdn_outbound_tag
tag-bootstrap fqdn family a k =
    elim (Bool-cases (text_eq (rule_tag_prefix ++ (fqdn ++ b':' ∷ family)) bootstrap_comment)) [
      | inr e ↦ e
      | inl e ↦
          let same =
            (text_eq_iff (rule_tag_prefix ++ (fqdn ++ b':' ∷ family)) bootstrap_comment).0 e in
          let short : fqdn ++ b':' ∷ family ≡ codes "bootstrap:dns-server" = cc in
          let named : codes "bootstrap" ≡ fqdn =
            has_prefix-colon (codes "bootstrap") fqdn (codes "dns-server") bootstrap-ColonFree a (
              subst (λ t. has_prefix t (fqdn ++ b':' ∷ []) ≡ true) short
                (has_prefix-tag fqdn family)) in
          let rest : family ≡ codes "dns-server" = cc (rw (sym named) at short) in
          elim (family_cases family k) [
            | inl four ↦ cc (rw four at rest)
            | inr six ↦ cc (rw six at rest)
          ]
    ]

-- The rule that is made for a name and an address is one that the next call finds.
pub allow_rule-matches :
    (fqdn canon family : Text)
    → ColonFree fqdn
    → is_family family ≡ true
    → canonical_ip_string canon ≡ canon
    → dynamic_rule_matches_dest fqdn canon family (allow_rule fqdn canon family).rule ≡ true
unfolding dynamic_rule_matches_dest matching_rest equal_fold
allow_rule-matches fqdn canon family a k e =
    let comment = fqdn_outbound_tag fqdn family in
    let tagged : has_prefix comment rule_tag_prefix ≡ true =
      unfold fqdn_outbound_tag in has_prefix_self rule_tag_prefix (fqdn ++ b':' ∷ family) in
    let named : has_prefix comment (tag_of fqdn) ≡ true =
      unfold fqdn_outbound_tag in
      has_prefix-append rule_tag_prefix (fqdn ++ b':' ∷ family) (fqdn ++ b':' ∷ [])
      ∙ has_prefix-tag fqdn family in
    let rest : strip_prefix comment (tag_of fqdn) ≡ family =
      unfold fqdn_outbound_tag in
      strip_prefix-append rule_tag_prefix (fqdn ++ b':' ∷ family) (fqdn ++ b':' ∷ [])
      ∙ strip_prefix-tag fqdn family in
    let own = tag-bootstrap fqdn family a k in
    let dest : text_eq (canonical_ip_string canon) canon ≡ true =
      (text_eq_iff (canonical_ip_string canon) canon).1 e in
    let is_accept = text_eq_refl (to_lower accept) in
    let is_out = text_eq_refl (to_lower out) in
    ground (arith, tagged, named, rest, own, dest, is_accept, is_out, k, text_eq_refl family)

abbrev last : Text → ℕ
last [] = 0
last (c ∷ []) = c
last (c ∷ d ∷ s) = last (d ∷ s)

last-append : (s : Text) (d : ℕ) (t : Text) → last (s ++ d ∷ t) ≡ last (d ∷ t)
last-append [] d t = refl
last-append (c ∷ []) d t = refl
last-append (c ∷ e ∷ s) d t = last-append (e ∷ s) d t

-- The comment of the bootstrap rules ends in another letter than a tag does.
tag-last :
    (fqdn family : Text)
    → (last (b':' ∷ family) ≡ last bootstrap_comment → ⊥)
    → text_eq (fqdn_outbound_tag fqdn family) bootstrap_comment ≡ false
unfolding fqdn_outbound_tag
tag-last fqdn family differ =
    elim (Bool-cases (text_eq (rule_tag_prefix ++ (fqdn ++ b':' ∷ family)) bootstrap_comment)) [
      | inr e ↦ e
      | inl e ↦
          let same =
            (text_eq_iff (rule_tag_prefix ++ (fqdn ++ b':' ∷ family)) bootstrap_comment).0 e in
          absurd (
            differ (
              sym (last-append (rule_tag_prefix ++ fqdn) b':' family)
              ∙ ap last (append_assoc rule_tag_prefix fqdn (b':' ∷ family))
              ∙ ap last same))
    ]

-- The rule that is made for a name and an address is one of the program's, whatever the name is.
pub is_tagged-allow_rule :
    (fqdn canon : Text) (ip : Ip)
    → is_tagged (allow_rule fqdn canon (ip_family_from_ip ip)).rule ≡ true
is_tagged-allow_rule fqdn canon ip =
    let family = ip_family_from_ip ip in
    let prefix : has_prefix (fqdn_outbound_tag fqdn family) rule_tag_prefix ≡ true =
      unfold fqdn_outbound_tag in has_prefix_self rule_tag_prefix (fqdn ++ b':' ∷ family) in
    let own : text_eq (fqdn_outbound_tag fqdn family) bootstrap_comment ≡ false = other ip in
    ground (arith, prefix, own)
  where
    other :
        (ip : Ip)
        → text_eq (fqdn_outbound_tag fqdn (ip_family_from_ip ip)) bootstrap_comment ≡ false
    other ip = elim (Bool-cases (is_four ip)) [
      | inl four ↦
          unfold ip_family_from_ip in rw four (tag-last fqdn ip_family_four (λ e. omega (arith, e)))
      | inr six ↦
          unfold ip_family_from_ip in rw six (tag-last fqdn ip_family_six (λ e. omega (arith, e)))
    ]
