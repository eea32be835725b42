-- ===== src/Coordinator/Firewall/Foreign.antt =====
-- The rules that the operations on one name are not about.
use proxmox_dns_firewall_loc.Prelude.{
  Bool, true, false, not, List, [], ◌∷◌, ◌++◌, Option, none, some, Option-cases, inl, inr, ◌≡◌,
  refl, sym, ap, ◌∙◌, arith, keep, keep_dropped,
}
use proxmox_dns_firewall_loc.Text.{Text, has_prefix}
use proxmox_dns_firewall_loc.Ip.{Ip, parse_ip, ip_string}
use proxmox_dns_firewall_loc.Proxmox.Api.{Guest, Result, ok, err, Client, Server}
use proxmox_dns_firewall_loc.Proxmox.Rules.{
  Rule, tag_of, rule_tag_prefix, fqdn_outbound_tag, dynamic_rule_matches_dest, stale_dest,
  rule_managed_for_fqdn_family, allow_rule, ip_family_from_ip, ip_family_four, ip_family_six,
}
use proxmox_dns_firewall_loc.Proxmox.Rules.Tags.{has_prefix-append, has_prefix-tag}
use proxmox_dns_firewall_loc.Proxmox.Client.{State}
use proxmox_dns_firewall_loc.Proxmox.Reconcile.{
  when, Deleted, sync_outbound_allow, remove_dynamic_rules, prune_stale_outbound_allows_for_fqdn,
  remove_six, remove_all_managed_egress_for_fqdn,
}
use proxmox_dns_firewall_loc.Proxmox.Reconcile.Collect.{others, others-none, others-some}
use proxmox_dns_firewall_loc.Proxmox.Reconcile.Model.{Pve, rules_of, Coherent}
use proxmox_dns_firewall_loc.Proxmox.Reconcile.Prune.{Left, prune-Left}
use proxmox_dns_firewall_loc.Proxmox.Reconcile.Remove.{dest_choice, remove_dynamic_rules-Left}
use proxmox_dns_firewall_loc.Proxmox.Reconcile.Sync.{synced, sync_outbound_allow-synced}

-- the comment is one of this name's
abbrev pub is_own : Text → Rule → Bool
is_own fqdn r = has_prefix r.comment (tag_of fqdn)

abbrev pub is_foreign : Text → Rule → Bool
is_foreign fqdn r = not (is_own fqdn r)

abbrev pub foreign : Text → List Rule → List Rule
foreign fqdn rs = keep (is_foreign fqdn) rs

module _ (p : Rule → Bool) where
  keep_cons :
      (r : Rule) (xs ys : List Rule) → keep p xs ≡ keep p ys → keep p (r ∷ xs) ≡ keep p (r ∷ ys)
  keep_cons r xs ys e = ground arith

when-true : (b : Bool) {u : Unit {0}} → when b ≡ some u → b ≡ true
when-true true e = refl
when-true false e = cc

-- The rules that pass the test are none that the program takes away or makes for the name.
pub record Apart (p : Rule → Bool) (fqdn : Text) : Type 0 where
  pub matched :
      (canon family : Text) (r : Rule)
      → dynamic_rule_matches_dest fqdn canon family r ≡ true
      → p r ≡ false
  pub stale :
      (family : Text) (desired : List Text) (r : Rule) (t : Text)
      → stale_dest fqdn family desired r ≡ some t
      → p r ≡ false
  pub made :
      (canon : Text) (ip : Ip) → p (allow_rule fqdn canon (ip_family_from_ip ip)).rule ≡ false

own_matched :
    (fqdn canon family : Text) (r : Rule)
    → dynamic_rule_matches_dest fqdn canon family r ≡ true
    → is_own fqdn r ≡ true
unfolding dynamic_rule_matches_dest
own_matched fqdn canon family r e = ground (arith, e)

own_stale :
    (fqdn family : Text) (desired : List Text) (r : Rule) (t : Text)
    → stale_dest fqdn family desired r ≡ some t
    → is_own fqdn r ≡ true
unfolding stale_dest rule_managed_for_fqdn_family
own_stale fqdn family desired r t e = ground (arith, e)

own_made : (fqdn canon family : Text) → is_own fqdn (allow_rule fqdn canon family).rule ≡ true
unfolding fqdn_outbound_tag
own_made fqdn canon family =
    has_prefix-append rule_tag_prefix (fqdn ++ b':' ∷ family) (fqdn ++ b':' ∷ [])
    ∙ has_prefix-tag fqdn family

-- what is of none of the name's own rules
pub own-Apart :
    (p : Rule → Bool) (fqdn : Text)
    → ((r : Rule) → is_own fqdn r ≡ true → p r ≡ false)
    → Apart p fqdn
own-Apart p fqdn h = record {
  matched = λ canon family r e. h r (own_matched fqdn canon family r e);
  stale = λ family desired r t e. h r (own_stale fqdn family desired r t e);
  made = λ canon ip.
      h (allow_rule fqdn canon (ip_family_from_ip ip)).rule
        (own_made fqdn canon (ip_family_from_ip ip));
}

pub foreign-Apart : (fqdn : Text) → Apart (is_foreign fqdn) fqdn
foreign-Apart fqdn = own-Apart (is_foreign fqdn) fqdn (λ r e. not-true (is_own fqdn r) e)
  where
    not-true : (b : Bool) → b ≡ true → not b ≡ false
    not-true b e = ground arith

module _ {V : Type 0} (p : Rule → Bool) (choose : Rule → Option V)
    (apart : (r : Rule) (v : V) → choose r ≡ some v → p r ≡ false) where
  keep-others : (rs : List Rule) → keep p (others choose rs) ≡ keep p rs
  keep-others [] = unfold others in refl
  keep-others (r ∷ rs) = elim (Option-cases (choose r)) [
    | inl e ↦
        ap (keep p) (others-none choose r rs e)
        ∙ keep_cons p r (others choose rs) rs (keep-others rs)
    | inr (v, e) ↦
        ap (keep p) (others-some choose r rs e)
        ∙ keep-others rs
        ∙ sym (keep_dropped p r rs (apart r v e))
  ]

  same_kept : (xs ys : List Rule) → others choose xs ≡ others choose ys → keep p xs ≡ keep p ys
  same_kept xs ys e = sym (keep-others xs) ∙ ap (keep p) e ∙ keep-others ys

keep-synced :
    (p : Rule → Bool) (fqdn canon : Text) (ip : Ip) (r : Result Bool) (rs : List Rule)
    → Apart p fqdn
    → keep p (synced r (allow_rule fqdn canon (ip_family_from_ip ip)) rs) ≡ keep p rs
keep-synced p fqdn canon ip (err e) rs a = refl
keep-synced p fqdn canon ip (ok false) rs a = refl
keep-synced p fqdn canon ip (ok true) rs a =
    keep_dropped p (allow_rule fqdn canon (ip_family_from_ip ip)).rule rs (a.made canon ip)

module _ (srv : Server) (px : Client) (g : Guest) (pve : Pve srv px g) (p : Rule → Bool) where
  -- From `s` to `s'` the rules that pass the test stay as they are, and the cache stays right.
  pub record Foreign (s s' : State srv px) : Type 0 where
    pub kept : keep p (rules_of srv px g pve s') ≡ keep p (rules_of srv px g pve s)
    pub coherent : Coherent srv px g pve s'

  Left-Foreign :
      {V : Type 0} (choose : Rule → Option V) (s s' : State srv px)
      → ((r : Rule) (v : V) → choose r ≡ some v → p r ≡ false)
      → Left srv px g pve choose s s'
      → Foreign s s'
  Left-Foreign choose s s' apart l = record {
    kept = same_kept p choose apart (rules_of srv px g pve s') (rules_of srv px g pve s) l.kept;
    coherent = l.coherent;
  }

  sync-Foreign :
      (fqdn ip : Text) (parsed : Ip) (s : State srv px)
      → Apart p fqdn
      → parse_ip ip ≡ some parsed
      → Coherent srv px g pve s
      → Foreign s (sync_outbound_allow srv px g fqdn ip s).1
  sync-Foreign fqdn ip parsed s a e h =
      let (held, _, coherent) = sync_outbound_allow-synced srv px g pve fqdn ip parsed s e h in
      record {
        kept =
            ap (keep p) held
            ∙ keep-synced p fqdn (ip_string parsed) parsed
                (sync_outbound_allow srv px g fqdn ip s).0 (rules_of srv px g pve s) a;
        coherent = coherent;
      }

  invalid-Foreign :
      (fqdn ip : Text) (s : State srv px)
      → parse_ip ip ≡ none
      → Coherent srv px g pve s
      → Foreign s (sync_outbound_allow srv px g fqdn ip s).1
  unfolding sync_outbound_allow
  invalid-Foreign fqdn ip s e h = rw e (record { kept = refl; coherent = h })

  pub sync_any-Foreign :
      (fqdn ip : Text) (s : State srv px)
      → Apart p fqdn
      → Coherent srv px g pve s
      → Foreign s (sync_outbound_allow srv px g fqdn ip s).1
  sync_any-Foreign fqdn ip s a h = elim (Option-cases (parse_ip ip)) [
    | inl e ↦ invalid-Foreign fqdn ip s e h
    | inr (parsed, e) ↦ sync-Foreign fqdn ip parsed s a e h
  ]

  pub remove-Foreign :
      (fqdn ip : Text) (parsed : Ip) (s : State srv px)
      → Apart p fqdn
      → parse_ip ip ≡ some parsed
      → Coherent srv px g pve s
      → Foreign s (remove_dynamic_rules srv px g fqdn ip s).1
  remove-Foreign fqdn ip parsed s a e h =
      let canon = ip_string parsed in
      let family = ip_family_from_ip parsed in
      Left-Foreign (dest_choice fqdn canon family) s (remove_dynamic_rules srv px g fqdn ip s).1
        (λ r v k.
          a.matched canon family r (when-true (dynamic_rule_matches_dest fqdn canon family r) k))
        (remove_dynamic_rules-Left srv px g pve fqdn ip parsed s e h)

  pub prune-Foreign :
      (fqdn family : Text) (desired : List Text) (s : State srv px)
      → Apart p fqdn
      → Coherent srv px g pve s
      → Foreign s (prune_stale_outbound_allows_for_fqdn srv px g fqdn family desired s).1
  prune-Foreign fqdn family desired s a h =
      Left-Foreign (stale_dest fqdn family desired) s
        (prune_stale_outbound_allows_for_fqdn srv px g fqdn family desired s).1
        (λ r v k. a.stale family desired r v k) (prune-Left srv px g pve fqdn family desired s h)

  remove_six-Foreign :
      (fqdn : Text) (s s1 : State srv px) (r4 : Deleted Text)
      → Apart p fqdn
      → Foreign s s1
      → Foreign s (remove_six srv px g fqdn r4 s1).1
  remove_six-Foreign fqdn s s1 (vs, some e) a f = f
  remove_six-Foreign fqdn s s1 (vs, none) a f =
      let six = prune-Foreign fqdn ip_family_six [] s1 a f.coherent in
      record { kept = six.kept ∙ f.kept; coherent = six.coherent }

  -- RemoveAllManagedEgressForFQDN is a prune of each family.
  pub remove_all-Foreign :
      (fqdn : Text) (s : State srv px)
      → Apart p fqdn
      → Coherent srv px g pve s
      → Foreign s (remove_all_managed_egress_for_fqdn srv px g fqdn s).1
  unfolding remove_all_managed_egress_for_fqdn
  remove_all-Foreign fqdn s a h =
      let (r4, s1) = prune_stale_outbound_allows_for_fqdn srv px g fqdn ip_family_four [] s in
      remove_six-Foreign fqdn s s1 r4 a (prune-Foreign fqdn ip_family_four [] s a h)
