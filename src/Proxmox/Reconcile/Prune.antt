-- ===== src/Proxmox/Reconcile/Prune.antt =====
-- What PruneStaleOutboundAllowsForFQDN leaves of a guest's rules.
use proxmox_dns_firewall_loc.Prelude.{
  Bool, List, [], Option, none, some, Bool-cases, inl, inr, ◌≡◌, refl, ap, subst, ◌∙◌, any, false,
}
use proxmox_dns_firewall_loc.Text.{Text}
use proxmox_dns_firewall_loc.Proxmox.Api.{Guest, Error, Result, ok, err, Client, Server}
use proxmox_dns_firewall_loc.Proxmox.Rules.{Rule, RulePos, is_family, stale_dest}
use proxmox_dns_firewall_loc.Proxmox.Client.{State, cached_list}
use proxmox_dns_firewall_loc.Proxmox.Reconcile.{
  collect, Deleted, delete_each, prune_listed, prune_stale_outbound_allows_for_fqdn,
}
use proxmox_dns_firewall_loc.Proxmox.Reconcile.Collect.{
  numbered, others, reported, collect-numbered,
}
use proxmox_dns_firewall_loc.Proxmox.Reconcile.Model.{
  Pve, rules_of, Coherent, Listed, cached_list-Listed,
}
use proxmox_dns_firewall_loc.Proxmox.Reconcile.Delete.{Outcome, delete_each-Outcome}

module _ (srv : Server) (c : Client) (g : Guest) (pve : Pve srv c g) where
  module _ {V : Type 0} (choose : Rule → Option V) where
    -- an outcome for all the rules
    abbrev pub Whole : List Rule → Deleted V × State srv c → Type 0
    Whole rs x = Outcome srv c g pve choose [] rs x.0 x.1

    pub Outcome_failed :
        (rs : List Rule) (vs : List V) (e : Error) (s : State srv c)
        → rules_of srv c g pve s ≡ rs
        → Coherent srv c g pve s
        → Whole rs ((vs, some e), s)
    Outcome_failed rs vs e s same h = record {
      left = rs;
      held_is = same;
      kept = refl;
      complete = λ k. cc;
      within = λ p k. k;
      coherent = h;
    }

    pub delete_each-collect :
        (s : State srv c) (rs : List Rule) (rules : List RulePos)
        → rules_of srv c g pve s ≡ rs
        → rules ≡ numbered 0 rs
        → Coherent srv c g pve s
        → Whole rs (delete_each srv c g (collect choose [] rules) s)
    delete_each-collect s rs rules same e h =
        rw (e, collect-numbered choose rs) (delete_each-Outcome srv c g pve choose rs [] s same h)

  prune_listed-Whole :
      (fqdn family : Text) (desired : List Text) (s s1 : State srv c) (r : Result (List RulePos))
      → Listed srv c g pve s r s1
      → Whole
          (stale_dest fqdn family desired)
          (rules_of srv c g pve s)
          (prune_listed srv c g fqdn family desired r s1)
  prune_listed-Whole fqdn family desired s s1 (err e) l =
      Outcome_failed (stale_dest fqdn family desired) (rules_of srv c g pve s) [] e s1 l.same
        l.coherent
  prune_listed-Whole fqdn family desired s s1 (ok rules) l =
      delete_each-collect (stale_dest fqdn family desired) s1 (rules_of srv c g pve s) rules l.same
        (l.listed rules refl) l.coherent

  pub prune-Whole :
      (fqdn family : Text) (desired : List Text) (s : State srv c)
      → Coherent srv c g pve s
      → Whole
          (stale_dest fqdn family desired)
          (rules_of srv c g pve s)
          (prune_stale_outbound_allows_for_fqdn srv c g fqdn family desired s)
  unfolding prune_stale_outbound_allows_for_fqdn
  prune-Whole fqdn family desired s h = elim (Bool-cases (is_family family)) [
    | inl known ↦
        let (r, s1) = cached_list srv c g s in
        rw known
          (prune_listed-Whole fqdn family desired s s1 r (cached_list-Listed srv c g pve s h))
    | inr unknown ↦
        rw unknown
          (Outcome_failed (stale_dest fqdn family desired) (rules_of srv c g pve s) [] _ s refl h)
  ]

  -- what an outcome for all the rules says of each end
  pub record Left {V : Type 0} (choose : Rule → Option V) (s s' : State srv c) : Type 0 where
    pub kept : others choose (rules_of srv c g pve s') ≡ others choose (rules_of srv c g pve s)
    pub within :
        (p : Rule → Bool)
        → any p (rules_of srv c g pve s) ≡ false
        → any p (rules_of srv c g pve s') ≡ false
    pub coherent : Coherent srv c g pve s'

  pub Whole-Left :
      {V : Type 0} (choose : Rule → Option V) (s : State srv c) (x : Deleted V × State srv c)
      → Whole choose (rules_of srv c g pve s) x
      → Left choose s x.1
  Whole-Left choose s x o = record {
    kept = ap (others choose) o.held_is ∙ o.kept;
    within = λ p k. ap (any p) o.held_is ∙ o.within p k;
    coherent = o.coherent;
  }

  pub prune-Left :
      (fqdn family : Text) (desired : List Text) (s : State srv c)
      → Coherent srv c g pve s
      → Left
          (stale_dest fqdn family desired)
          s
          (prune_stale_outbound_allows_for_fqdn srv c g fqdn family desired s).1
  prune-Left fqdn family desired s h =
      Whole-Left (stale_dest fqdn family desired) s
        (prune_stale_outbound_allows_for_fqdn srv c g fqdn family desired s)
        (prune-Whole fqdn family desired s h)

  -- A prune that ends without an error has removed the rules with a stale destination and no
  -- others, and reports their destinations, from the last rule to the first. The API behaves as
  -- Pve says, and the cache agrees with the guest beforehand.
  pub prune-others :
      (fqdn family : Text) (desired : List Text) (s s' : State srv c) (removed : List Text)
      → Coherent srv c g pve s
      → prune_stale_outbound_allows_for_fqdn srv c g fqdn family desired s ≡ ((removed, none), s')
      → (rules_of srv c g pve s' ≡ others (stale_dest fqdn family desired) (rules_of srv c g pve s))
        × (removed ≡ reported (stale_dest fqdn family desired) (rules_of srv c g pve s))
        × Coherent srv c g pve s'
  prune-others fqdn family desired s s' removed h e =
      let outcome = prune-Whole fqdn family desired s h in
      let done =
        subst (Whole (stale_dest fqdn family desired) (rules_of srv c g pve s)) e outcome in
      let (whole, values) = done.complete refl in (done.held_is ∙ whole, values, done.coherent)

  -- However a prune ends, the rules that are not stale are the ones they were, in their order, and
  -- the cache holds no list that differs from the guest's. The API behaves as Pve says, and the
  -- cache agrees with the guest beforehand.
  pub prune-kept :
      (fqdn family : Text) (desired : List Text) (s : State srv c)
      → Coherent srv c g pve s
      → (others (stale_dest fqdn family desired) (
            rules_of srv c g pve
              (prune_stale_outbound_allows_for_fqdn srv c g fqdn family desired s).1)
          ≡ others (stale_dest fqdn family desired) (rules_of srv c g pve s))
        × Coherent srv c g pve
            (prune_stale_outbound_allows_for_fqdn srv c g fqdn family desired s).1
  prune-kept fqdn family desired s h =
      let outcome = prune-Whole fqdn family desired s h in
      (
        ap (others (stale_dest fqdn family desired)) outcome.held_is ∙ outcome.kept,
        outcome.coherent,
      )
