-- ===== src/Coordinator/History/Untagged.antt =====
-- The rules that are not tagged for a name, and what does and does not change them.
use proxmox_dns_firewall_loc.Prelude.{
  Bool, true, false, not, ◌&&◌, ◌||◌, List, [], ◌∷◌, some, Bool-cases, inl, inr, ◌≡◌, refl, ap, ◌∙◌,
  arith, any, keep,
}
use proxmox_dns_firewall_loc.Text.{Text, codes, equal_fold, text_eq, text_eq_refl}
use proxmox_dns_firewall_loc.Proxmox.Rules.{
  Rule, is_tagged, bootstrap_comment, dynamic_rule_matches_dest, stale_dest, bootstrap_rule,
  bootstrap_matches, bootstrap_stale,
}
use proxmox_dns_firewall_loc.Proxmox.Rules.Tags.{is_tagged-allow_rule}
use proxmox_dns_firewall_loc.Proxmox.Reconcile.Bootstrap.{with_proto, with_udp, with_both}
use proxmox_dns_firewall_loc.Coordinator.Firewall.Foreign.{Apart}

-- a rule of the operator, or one of the bootstrap rules
abbrev pub is_untagged : Rule → Bool
is_untagged r = not (is_tagged r)

abbrev pub untagged : List Rule → List Rule
untagged rs = keep is_untagged rs

any-keep :
    (p q : Rule → Bool) (rs : List Rule)
    → ((r : Rule) → q r ≡ true → p r ≡ true)
    → any q (keep p rs) ≡ any q rs
any-keep p q [] h = refl
any-keep p q (r ∷ rs) h = ground (arith, any-keep p q rs h, h r)

pub untagged-Apart : (fqdn : Text) → Apart is_untagged fqdn
untagged-Apart fqdn = record {
  matched = λ canon family r e. untagged_matched canon family r e;
  stale = λ family desired r t e. untagged_stale family desired r t e;
  made = λ canon ip. ap not (is_tagged-allow_rule fqdn canon ip);
}
  where
    untagged_matched :
        (canon family : Text) (r : Rule)
        → dynamic_rule_matches_dest fqdn canon family r ≡ true
        → is_untagged r ≡ false
    untagged_matched canon family r e = unfold dynamic_rule_matches_dest in ground (arith, e)

    untagged_stale :
        (family : Text) (desired : List Text) (r : Rule) (t : Text)
        → stale_dest fqdn family desired r ≡ some t
        → is_untagged r ≡ false
    untagged_stale family desired r t e = unfold stale_dest in ground (arith, e)

untagged_bootstrap : (r : Rule) → text_eq r.comment bootstrap_comment ≡ true → is_untagged r ≡ true
untagged_bootstrap r e = ground (arith, e)

pub any_stale-untagged :
    (want : Text) (rs : List Rule)
    → any (bootstrap_stale want) (untagged rs) ≡ any (bootstrap_stale want) rs
unfolding bootstrap_stale
any_stale-untagged want rs = any-keep is_untagged (bootstrap_stale want) rs (λ r e.
    untagged_bootstrap r (
      left_true (text_eq r.comment bootstrap_comment) (not (text_eq r.dest []))
        (not (text_eq r.dest want)) e))
  where
    left_true : (a b c : Bool) → (a && b && c) ≡ true → a ≡ true
    left_true a b c e = ground arith

any_matches-untagged :
    (proto want : Text) (rs : List Rule)
    → any (bootstrap_matches proto want) (untagged rs) ≡ any (bootstrap_matches proto want) rs
unfolding bootstrap_matches
any_matches-untagged proto want rs = any-keep is_untagged (bootstrap_matches proto want) rs (λ r e.
    untagged_bootstrap r (
      left_true (text_eq r.comment bootstrap_comment) (equal_fold r.proto proto)
        (text_eq r.dport (codes "53")) (text_eq r.dest want) e))
  where
    left_true : (a b c d : Bool) → (a && b && c && d) ≡ true → a ≡ true
    left_true a b c d e = ground arith

untagged_made : (proto want : Text) → is_untagged (bootstrap_rule proto want).rule ≡ true
untagged_made proto want =
    untagged_bootstrap (bootstrap_rule proto want).rule (text_eq_refl bootstrap_comment)

pub untagged-with_proto :
    (want proto : Text) (before rs : List Rule)
    → untagged (with_proto want proto before rs)
      ≡ with_proto want proto (untagged before) (untagged rs)
untagged-with_proto want proto before rs =
    let seen = any_matches-untagged proto want before in
    elim (Bool-cases (any (bootstrap_matches proto want) before)) [
      | inl there ↦ rw (seen, there) refl
      | inr missing ↦
          rw (seen, missing) (kept_head (bootstrap_rule proto want).rule (untagged_made proto want))
    ]
  where
    kept_head : (r : Rule) → is_untagged r ≡ true → untagged (r ∷ rs) ≡ r ∷ untagged rs
    kept_head r e = ground arith

pub untagged-with_udp :
    (want : Text) (rs : List Rule) → untagged (with_udp want rs) ≡ with_udp want (untagged rs)
untagged-with_udp want rs = untagged-with_proto want (codes "udp") rs rs

pub untagged-with_both :
    (want : Text) (rs : List Rule) → untagged (with_both want rs) ≡ with_both want (untagged rs)
untagged-with_both want rs =
    untagged-with_proto want (codes "tcp") rs (with_udp want rs)
    ∙ ap (with_proto want (codes "tcp") (untagged rs)) (untagged-with_udp want rs)

-- no bootstrap rule points elsewhere
abbrev pub NoneStale : Text → List Rule → Type 0
NoneStale want rs = any (bootstrap_stale want) rs ≡ false

pub with_proto-NoneStale :
    (want proto : Text) (before rs : List Rule)
    → NoneStale want rs
    → NoneStale want (with_proto want proto before rs)
unfolding bootstrap_stale
with_proto-NoneStale want proto before rs e =
    elim (Bool-cases (any (bootstrap_matches proto want) before)) [
      | inl there ↦ rw there e
      | inr missing ↦ rw missing (
          fresh (text_eq bootstrap_comment bootstrap_comment && not (text_eq want []))
            (text_eq_refl want))
    ]
  where
    fresh :
        (a : Bool)
        → text_eq want want ≡ true
        → ((a && not (text_eq want want)) || any (bootstrap_stale want) rs) ≡ false
    fresh a k = ground (arith, e)
