-- ===== src/Proxmox/Reconcile/Bootstrap.antt =====
-- EnsureBootstrapDNS where no bootstrap rule is stale.
use proxmox_dns_firewall_loc.Prelude.{
  ℕ, suc, ◌+◌, Bool, false, List, [], ◌∷◌, Option, none, some, if◌then◌else◌, Bool-cases, inl, inr,
  ◌≡◌, ◌⊎◌, refl, sym, subst, arith, any,
}
use proxmox_dns_firewall_loc.Text.{Text, codes}
use proxmox_dns_firewall_loc.Proxmox.Api.{Guest, Error, Result, ok, err, Client, Server}
use proxmox_dns_firewall_loc.Proxmox.Rules.{
  Rule, RulePos, bootstrap_rule, bootstrap_matches, bootstrap_stale,
}
use proxmox_dns_firewall_loc.Proxmox.Client.{State, cached_list, create_firewall_rule}
use proxmox_dns_firewall_loc.Proxmox.Reconcile.{
  first_rule, Bounded, out_of_fuel, finished, ensure_made, ensure_proto, bootstrap_tcp,
  bootstrap_udp, bootstrap_listed, ensure_bootstrap_dns,
}
use proxmox_dns_firewall_loc.Proxmox.Reconcile.Collect.{numbered}
use proxmox_dns_firewall_loc.Proxmox.Reconcile.Sync.{has_rule-numbered}
use proxmox_dns_firewall_loc.Proxmox.Reconcile.Model.{
  Pve, rules_of, Coherent, Coherent-invalidate, Listed, cached_list-Listed,
  create_firewall_rule-none, create_firewall_rule-some, create_firewall_rule-Coherent,
}

first_rule-none :
    (p : Rule → Bool) (i : ℕ) (rs : List Rule)
    → any p rs ≡ false
    → first_rule p (numbered i rs) ≡ none
first_rule-none p i [] e = refl
first_rule-none p i (r ∷ rs) e =
    let rest : any p rs ≡ false = ground arith in
    ground (arith, e, first_rule-none p (i + 1) rs rest)

-- the rules with the bootstrap rule for a protocol in front, if `before` has none
abbrev pub with_proto : Text → Text → List Rule → List Rule → List Rule
with_proto want proto before rs =
    if any (bootstrap_matches proto want) before then rs else (bootstrap_rule proto want).rule ∷ rs

abbrev pub with_udp : Text → List Rule → List Rule
with_udp want rs = with_proto want (codes "udp") rs rs

abbrev pub with_both : Text → List Rule → List Rule
with_both want rs = with_proto want (codes "tcp") rs (with_udp want rs)

-- the rules that one round leaves, by its result
abbrev pub Settled : Bounded → Text → List Rule → List Rule → Type 0
Settled out_of_fuel want rs after = ⊥
Settled (finished none) want rs after = after ≡ with_both want rs
Settled (finished (some e)) want rs after = (after ≡ rs) ⊎ (after ≡ with_udp want rs)

module _ (srv : Server) (c : Client) (g : Guest) (pve : Pve srv c g) where
  -- what the body of the loop comes to
  abbrev Ensured : List Rule → List Rule → Option Error × State srv c → Type 0
  Ensured rs made (none, s') = (rules_of srv c g pve s' ≡ made) × Coherent srv c g pve s'
  Ensured rs made (some e, s') = (rules_of srv c g pve s' ≡ rs) × Coherent srv c g pve s'

  ensure_made-Ensured :
      (want proto : Text) (s : State srv c) (o : Option Error)
      → (create_firewall_rule srv c g (bootstrap_rule proto want) s).0 ≡ o
      → Coherent srv c g pve s
      → Ensured
          (rules_of srv c g pve s)
          ((bootstrap_rule proto want).rule ∷ rules_of srv c g pve s)
          (ensure_made srv c g o (create_firewall_rule srv c g (bootstrap_rule proto want) s).1)
  ensure_made-Ensured want proto s (some e) k h = (
    create_firewall_rule-some srv c g pve (bootstrap_rule proto want) s e k,
    create_firewall_rule-Coherent srv c g pve (bootstrap_rule proto want) s e k h,
  )
  ensure_made-Ensured want proto s none k h = (
    create_firewall_rule-none srv c g pve (bootstrap_rule proto want) s k,
    Coherent-invalidate srv c g pve (create_firewall_rule srv c g (bootstrap_rule proto want) s).1,
  )

  ensure_proto-Ensured :
      (want proto : Text) (before : List Rule) (s : State srv c)
      → Coherent srv c g pve s
      → Ensured
          (rules_of srv c g pve s)
          (with_proto want proto before (rules_of srv c g pve s))
          (ensure_proto srv c g want (numbered 0 before) proto s)
  unfolding ensure_proto
  ensure_proto-Ensured want proto before s h =
      let p = bootstrap_matches proto want in
      let seen = has_rule-numbered p 0 before in
      elim (Bool-cases (any p before)) [
        | inl there ↦ rw (seen, there) (refl, h)
        | inr missing ↦
            rw (seen, missing)
              (ensure_made-Ensured want proto s
                (create_firewall_rule srv c g (bootstrap_rule proto want) s).0 refl h)
      ]

  abbrev Rounded : Text → List Rule → Bounded × State srv c → Type 0
  Rounded want rs (r, s') = Settled r want rs (rules_of srv c g pve s') × Coherent srv c g pve s'

  bootstrap_tcp-Rounded :
      (again : State srv c → Bounded × State srv c) (want : Text) (rs : List Rule)
      (x : Option Error × State srv c)
      → any (bootstrap_stale want) rs ≡ false
      → Ensured (with_udp want rs) (with_both want rs) x
      → Rounded want rs (bootstrap_tcp srv c g again want (numbered 0 rs) x.0 x.1)
  bootstrap_tcp-Rounded again want rs (some e, s) clean (same, h) = (inr same, h)
  bootstrap_tcp-Rounded again want rs (none, s) clean (same, h) =
      rw (first_rule-none (bootstrap_stale want) 0 rs clean) (same, h)

  bootstrap_udp-Rounded :
      (again : State srv c → Bounded × State srv c) (want : Text) (rs : List Rule)
      (x : Option Error × State srv c)
      → any (bootstrap_stale want) rs ≡ false
      → Ensured rs (with_udp want rs) x
      → Rounded want rs (bootstrap_udp srv c g again want (numbered 0 rs) x.0 x.1)
  bootstrap_udp-Rounded again want rs (some e, s) clean (same, h) = (inl same, h)
  bootstrap_udp-Rounded again want rs (none, s) clean (same, h) =
      bootstrap_tcp-Rounded again want rs
        (ensure_proto srv c g want (numbered 0 rs) (codes "tcp") s) clean
        (subst
          (λ now.
            Ensured now (with_proto want (codes "tcp") rs now)
              (ensure_proto srv c g want (numbered 0 rs) (codes "tcp") s))
          same (ensure_proto-Ensured want (codes "tcp") rs s h))

  bootstrap_listed-Rounded :
      (again : State srv c → Bounded × State srv c) (want : Text) (s s1 : State srv c)
      (r : Result (List RulePos))
      → any (bootstrap_stale want) (rules_of srv c g pve s) ≡ false
      → Listed srv c g pve s r s1
      → Rounded want (rules_of srv c g pve s) (bootstrap_listed srv c g again want r s1)
  bootstrap_listed-Rounded again want s s1 (err e) clean l = (inl l.same, l.coherent)
  bootstrap_listed-Rounded again want s s1 (ok rules) clean l =
      let rs = rules_of srv c g pve s in
      let udp =
        subst
          (λ now.
            Ensured now (with_proto want (codes "udp") rs now)
              (ensure_proto srv c g want (numbered 0 rs) (codes "udp") s1))
          l.same (ensure_proto-Ensured want (codes "udp") rs s1 l.coherent) in
      subst (λ rules. Rounded want rs (bootstrap_listed srv c g again want (ok rules) s1))
        (sym (l.listed rules refl))
        (bootstrap_udp-Rounded again want rs
          (ensure_proto srv c g want (numbered 0 rs) (codes "udp") s1) clean udp)

  -- Where no bootstrap rule points to another address, one round is enough: EnsureBootstrapDNS
  -- ends, and without an error the rules that were missing for UDP and TCP stand in front of the
  -- others, which stay as they are; with an error no rule or the one for UDP has been added. The
  -- API behaves as Pve says, and the cache agrees with the guest beforehand.
  pub ensure_bootstrap_dns-Settled :
      (fuel : ℕ) (want : Text) (s : State srv c)
      → any (bootstrap_stale want) (rules_of srv c g pve s) ≡ false
      → Coherent srv c g pve s
      → Settled
          (ensure_bootstrap_dns srv c g (suc fuel) want s).0
          want
          (rules_of srv c g pve s)
          (rules_of srv c g pve (ensure_bootstrap_dns srv c g (suc fuel) want s).1)
        × Coherent srv c g pve (ensure_bootstrap_dns srv c g (suc fuel) want s).1
  unfolding ensure_bootstrap_dns
  ensure_bootstrap_dns-Settled fuel want s clean h =
      let (r, s1) = cached_list srv c g s in
      bootstrap_listed-Rounded (ensure_bootstrap_dns srv c g fuel want) want s s1 r clean
        (cached_list-Listed srv c g pve s h)
