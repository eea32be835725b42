-- ===== src/Proxmox/Reconcile/Sync.antt =====
-- What SyncOutboundAllow leaves of a guest's rules.
use proxmox_dns_firewall_loc.Prelude.{
  ℕ, ◌+◌, Bool, true, false, ◌||◌, List, [], ◌∷◌, Option, none, some, if◌then◌else◌, Bool-cases,
  inl, inr, ◌≡◌, refl, sym, ap, subst, ◌∙◌, arith, any,
}
use proxmox_dns_firewall_loc.Text.{Text, text_run}
use proxmox_dns_firewall_loc.Ip.{Ip, parse_ip, ip_string, is_four}
use proxmox_dns_firewall_loc.Proxmox.Api.{Guest, Error, Result, ok, err, Client, Server}
use proxmox_dns_firewall_loc.Proxmox.Rules.{
  Rule, RulePos, FirewallRule, ip_family_from_ip, dynamic_rule_matches_dest, allow_rule,
  canonical_ip_string, is_family, rules_run,
}
use proxmox_dns_firewall_loc.Proxmox.Rules.Tags.{ColonFree, allow_rule-matches}
use proxmox_dns_firewall_loc.Proxmox.Client.{State, cached_list, create_firewall_rule}
use proxmox_dns_firewall_loc.Proxmox.Reconcile.{
  has_rule, sync_created, sync_listed, sync_outbound_allow,
}
use proxmox_dns_firewall_loc.Proxmox.Reconcile.Collect.{numbered}
use proxmox_dns_firewall_loc.Proxmox.Reconcile.Model.{
  Pve, rules_of, Coherent, Coherent-invalidate, Listed, cached_list-Listed,
  create_firewall_rule-none, create_firewall_rule-some, create_firewall_rule-Coherent,
}

pub has_rule-numbered :
    (p : Rule → Bool) (i : ℕ) (rs : List Rule) → has_rule p (numbered i rs) ≡ any p rs
has_rule-numbered p i [] = refl
has_rule-numbered p i (r ∷ rs) = ap (λ b. p r || b) (has_rule-numbered p (i + 1) rs)

-- the rules that a synchronisation leaves, by its result
abbrev pub synced : Result Bool → FirewallRule → List Rule → List Rule
synced (err e) made rs = rs
synced (ok false) made rs = rs
synced (ok true) made rs = made.rule ∷ rs

-- the result of a synchronisation that reads the rules
abbrev pub Answers : Result Bool → Bool → Type 0
Answers (err e) present = Unit {0}
Answers (ok made) present = made ≡ (if present then false else true)

module _ (srv : Server) (c : Client) (g : Guest) (pve : Pve srv c g) where
  -- what a synchronisation comes to for the rule `made`
  abbrev Synced : (Rule → Bool) → FirewallRule → List Rule → Result Bool × State srv c → Type 0
  Synced p made rs (r, s') =
      (rules_of srv c g pve s' ≡ synced r made rs) × Answers r (any p rs) × Coherent srv c g pve s'

  sync_created-Synced :
      (p : Rule → Bool) (made : FirewallRule) (s : State srv c) (o : Option Error)
      → (create_firewall_rule srv c g made s).0 ≡ o
      → any p (rules_of srv c g pve s) ≡ false
      → Coherent srv c g pve s
      → Synced p made
          (rules_of srv c g pve s)
          (sync_created srv c g o (create_firewall_rule srv c g made s).1)
  sync_created-Synced p made s (some e) k absent h = (
    create_firewall_rule-some srv c g pve made s e k,
    tt,
    create_firewall_rule-Coherent srv c g pve made s e k h,
  )
  sync_created-Synced p made s none k absent h = (
    create_firewall_rule-none srv c g pve made s k,
    rw absent refl,
    Coherent-invalidate srv c g pve (create_firewall_rule srv c g made s).1,
  )

  sync_listed-Synced :
      (fqdn canon family : Text) (s s1 : State srv c) (r : Result (List RulePos))
      → Listed srv c g pve s r s1
      → Synced
          (dynamic_rule_matches_dest fqdn canon family)
          (allow_rule fqdn canon family)
          (rules_of srv c g pve s)
          (sync_listed srv c g fqdn canon family r s1)
  sync_listed-Synced fqdn canon family s s1 (err e) l = (l.same, tt, l.coherent)
  sync_listed-Synced fqdn canon family s s1 (ok rules) l =
      let p = dynamic_rule_matches_dest fqdn canon family in
      let made = allow_rule fqdn canon family in
      let seen : has_rule p rules ≡ any p (rules_of srv c g pve s) =
        ap (has_rule p) (l.listed rules refl) ∙ has_rule-numbered p 0 (rules_of srv c g pve s) in
      elim (Bool-cases (has_rule p rules)) [
        | inl present ↦ rw present (l.same, rw (sym seen, present) refl, l.coherent)
        | inr absent ↦ rw absent (
            subst
              (λ rs. Synced p made rs (
                sync_created srv c g (create_firewall_rule srv c g made s1).0
                  (create_firewall_rule srv c g made s1).1))
              l.same
              (sync_created-Synced p made s1 (create_firewall_rule srv c g made s1).0 refl
                (ap (any p) l.same ∙ sym seen ∙ absent) l.coherent))
      ]

  -- A synchronisation of an address: on success it says whether no rule matched before, and
  -- exactly then the rule for the name and the address is a new one in front of the others;
  -- without success, and where a rule matched, the guest keeps its rules as they are. The cache
  -- holds no list that differs from the guest's. The text reads as an address. The API behaves as
  -- Pve says, and the cache agrees with the guest beforehand.
  pub sync_outbound_allow-synced :
      (fqdn ip : Text) (parsed : Ip) (s : State srv c)
      → parse_ip ip ≡ some parsed
      → Coherent srv c g pve s
      → (rules_of srv c g pve (sync_outbound_allow srv c g fqdn ip s).1
          ≡ synced
              (sync_outbound_allow srv c g fqdn ip s).0
              (allow_rule fqdn (ip_string parsed) (ip_family_from_ip parsed))
              (rules_of srv c g pve s))
        × Answers (sync_outbound_allow srv c g fqdn ip s).0 (
            any
              (dynamic_rule_matches_dest fqdn (ip_string parsed) (ip_family_from_ip parsed))
              (rules_of srv c g pve s))
        × Coherent srv c g pve (sync_outbound_allow srv c g fqdn ip s).1
  unfolding sync_outbound_allow
  sync_outbound_allow-synced fqdn ip parsed s e h =
      let (r, s1) = cached_list srv c g s in
      rw e (
        sync_listed-Synced fqdn (ip_string parsed) (ip_family_from_ip parsed) s s1 r
          (cached_list-Listed srv c g pve s h))

  pub ip_family-is_family : (parsed : Ip) → is_family (ip_family_from_ip parsed) ≡ true
  unfolding ip_family_from_ip
  ip_family-is_family parsed = elim (Bool-cases (is_four parsed)) [
    | inl four ↦ rw four (unfold rules_run text_run in refl)
    | inr six ↦ rw six (unfold rules_run text_run in refl)
  ]

  pub synced-present :
      (p : Rule → Bool) (made : FirewallRule) (rs : List Rule) (b : Bool)
      → p made.rule ≡ true
      → b ≡ (if any p rs then false else true)
      → any p (synced (ok b) made rs) ≡ true
  synced-present p made rs true own e = ground arith
  synced-present p made rs false own e = ground arith

  stays :
      (r : Result Bool) (made : FirewallRule) (rs : List Rule)
      → Answers r true
      → synced r made rs ≡ rs
  stays (err e) made rs a = refl
  stays (ok false) made rs a = refl
  stays (ok true) made rs a = cc

  -- After a synchronisation that succeeds, a second one for the same name and address changes no
  -- rule. The name has no colon, and the address as it is printed is read and printed as itself.
  -- The API behaves as Pve says, and the cache agrees with the guest beforehand.
  pub sync_outbound_allow_again :
      (fqdn ip : Text) (parsed : Ip) (s s' : State srv c) (made : Bool)
      → parse_ip ip ≡ some parsed
      → ColonFree fqdn
      → canonical_ip_string (ip_string parsed) ≡ ip_string parsed
      → Coherent srv c g pve s
      → sync_outbound_allow srv c g fqdn ip s ≡ (ok made, s')
      → rules_of srv c g pve (sync_outbound_allow srv c g fqdn ip s').1 ≡ rules_of srv c g pve s'
  sync_outbound_allow_again fqdn ip parsed s s' made e colon printed h k =
      let canon = ip_string parsed in
      let family = ip_family_from_ip parsed in
      let p = dynamic_rule_matches_dest fqdn canon family in
      let rule = allow_rule fqdn canon family in
      let rs = rules_of srv c g pve s in
      let (held, said, coherent) =
        subst (Synced p rule rs) k (sync_outbound_allow-synced fqdn ip parsed s e h) in
      let own = allow_rule-matches fqdn canon family colon (ip_family-is_family parsed) printed in
      let there : any p (rules_of srv c g pve s') ≡ true =
        ap (any p) held ∙ synced-present p rule rs made own said in
      let (held', said', _) = sync_outbound_allow-synced fqdn ip parsed s' e coherent in
      let second = (sync_outbound_allow srv c g fqdn ip s').0 in
      held' ∙ stays second rule (rules_of srv c g pve s') (subst (Answers second) there said')
