-- ===== src/Coordinator/History/Firewall.antt =====
-- What any history of calls leaves of the rules that are not tagged for a name.
use proxmox_dns_firewall_loc.Prelude.{
  ℕ, suc, not, ◌||◌, List, [], ◌∷◌, Option, none, some, Bool-cases, inl, inr, ◌≡◌, sym, ap, subst,
  ◌∙◌, any,
}
use proxmox_dns_firewall_loc.Text.{Text, codes, text_eq}
use proxmox_dns_firewall_loc.Config.{is_loaded}
use proxmox_dns_firewall_loc.Proxmox.Api.{Guest, Client, Server}
use proxmox_dns_firewall_loc.Proxmox.Rules.{Rule, bootstrap_stale}
use proxmox_dns_firewall_loc.Proxmox.Reconcile.{
  Bounded, out_of_fuel, finished, ensure_bootstrap_dns,
}
use proxmox_dns_firewall_loc.Proxmox.Reconcile.Model.{Pve, rules_of}
use proxmox_dns_firewall_loc.Proxmox.Reconcile.Bootstrap.{
  with_udp, with_both, Settled, ensure_bootstrap_dns-Settled,
}
use proxmox_dns_firewall_loc.Coordinator.State.{Coordinator, guest_of, enter, leave}
use proxmox_dns_firewall_loc.Coordinator.Dns.{apply_dns}
use proxmox_dns_firewall_loc.Coordinator.Save.{save_merged_list}
use proxmox_dns_firewall_loc.Coordinator.Refresh.{refresh}
use proxmox_dns_firewall_loc.Allowlist.{normalize}
use proxmox_dns_firewall_loc.Coordinator.Firewall.Steps.{held, Ready, Spared}
use proxmox_dns_firewall_loc.Coordinator.Refresh.Spared.{refresh-Spared}
use proxmox_dns_firewall_loc.Coordinator.Dns.Safety.{apply_dns-Spared_part}
use proxmox_dns_firewall_loc.Coordinator.Save.Untouched.{save_merged_list-Spared}
use proxmox_dns_firewall_loc.Coordinator.Configure.{
  service_address, bootstrap_client, run_bootstrap,
}
use proxmox_dns_firewall_loc.Coordinator.History.Untagged.{
  is_untagged, untagged, untagged-Apart, any_stale-untagged, untagged-with_udp, untagged-with_both,
  NoneStale, with_proto-NoneStale,
}
use proxmox_dns_firewall_loc.Coordinator.History.{
  Call, answered, list_saved, refreshed, bootstrapped, serve, serve_all,
}

-- The firewall as the operator sees it: a call leaves the rules that are not tagged for a name as
-- they are, but a bootstrap may put in front what it misses.
pub data Step (want : Text) : Call → List Rule → List Rule → Type 0 where
  same_rules : (k : Call) (rs : List Rule) → Step want k rs rs
  made_udp : (rs : List Rule) → Step want bootstrapped rs (with_udp want rs)
  made_both : (rs : List Rule) → Step want bootstrapped rs (with_both want rs)

pub data Steps (want : Text) : List Call → List Rule → List Rule → Type 0 where
  no_step : (rs : List Rule) → Steps want [] rs rs
  then_step :
      (k : Call) (ks : List Call) (rs rs' rs'' : List Rule)
      → Step want k rs rs'
      → Steps want ks rs' rs''
      → Steps want (k ∷ ks) rs rs''

module _ (srv : Server) (px : Client) (g : Guest) (pve : Pve srv px g) (want : Text) where
  -- what holds before each call of a history
  pub record Running (preferred : Text) (c : Coordinator srv) : Type 0 where
    pub ready : Ready srv px g pve c
    pub client : c.px ≡ some px
    pub wanted : service_address preferred c.settings ≡ want
    pub clean : NoneStale want (held srv px g pve c)

  -- a call that is not about the untagged rules
  pub Spared-Running :
      (preferred : Text) (k : Call) (c c' : Coordinator srv)
      → Running preferred c
      → Spared srv px g pve is_untagged c c'
      → Step want k (untagged (held srv px g pve c)) (untagged (held srv px g pve c'))
        × Running preferred c'
  Spared-Running preferred k c c' h s = (
    subst (Step want k (untagged (held srv px g pve c))) (sym s.kept)
        (same_rules k (untagged (held srv px g pve c))),
    record {
      ready = s.ready;
      client = s.client ∙ h.client;
      wanted = ap (service_address preferred) s.configured ∙ h.wanted;
      clean =
          sym (any_stale-untagged want (held srv px g pve c'))
          ∙ ap (any (bootstrap_stale want)) s.kept
          ∙ any_stale-untagged want (held srv px g pve c)
          ∙ h.clean;
    },
  )

  Settled-Step :
      (r : Bounded) (rs after : List Rule)
      → Settled r want rs after
      → NoneStale want rs
      → Step want bootstrapped (untagged rs) (untagged after) × NoneStale want after
  Settled-Step out_of_fuel rs after s h = absurd s
  Settled-Step (finished none) rs after s h =
      subst (λ x. Step want bootstrapped (untagged rs) (untagged x) × NoneStale want x) (sym s)
        (
          subst (Step want bootstrapped (untagged rs)) (sym (untagged-with_both want rs))
              (made_both (untagged rs)),
          with_proto-NoneStale want (codes "tcp") rs (with_udp want rs)
              (with_proto-NoneStale want (codes "udp") rs rs h),
        )
  Settled-Step (finished (some e)) rs after (inl s) h =
      subst (λ x. Step want bootstrapped (untagged rs) (untagged x) × NoneStale want x) (sym s)
        (same_rules bootstrapped (untagged rs), h)
  Settled-Step (finished (some e)) rs after (inr s) h =
      subst (λ x. Step want bootstrapped (untagged rs) (untagged x) × NoneStale want x) (sym s)
        (
          subst (Step want bootstrapped (untagged rs)) (sym (untagged-with_udp want rs))
              (made_udp (untagged rs)),
          with_proto-NoneStale want (codes "udp") rs rs h,
        )

  module _ (fuel : ℕ) (preferred : Text) where
    -- the outcome of one call
    abbrev Served : Call → Coordinator srv → Coordinator srv → Type 0
    Served k c c' =
        Step want k (untagged (held srv px g pve c)) (untagged (held srv px g pve c'))
        × Running preferred c'

    ensured-Served :
        (c : Coordinator srv)
        → Running preferred c
        → Served bootstrapped c
            (leave srv px (ensure_bootstrap_dns srv px g (suc fuel) want (enter srv px c)).1 c)
    ensured-Served c h =
        let (settled, coherent) =
          ensure_bootstrap_dns-Settled srv px g pve fuel want (enter srv px c) h.clean
            h.ready.coherent in
        let (r, s) = ensure_bootstrap_dns srv px g (suc fuel) want (enter srv px c) in
        let (step, clean) =
          Settled-Step r (held srv px g pve c) (rules_of srv px g pve s) settled h.clean in
        (
          step,
          record {
            ready = record { on = h.ready.on; coherent = coherent };
            client = h.client;
            wanted = h.wanted;
            clean = clean;
          },
        )

    bootstrap_client-Served :
        (o : Option Client) (c : Coordinator srv)
        → o ≡ some px
        → Running preferred c
        → Served bootstrapped c (bootstrap_client srv (suc fuel) preferred o c).1
    bootstrap_client-Served o c e h =
        let for_guest =
          subst
            (λ g'.
              Served bootstrapped c (
                leave srv px (ensure_bootstrap_dns srv px g' (suc fuel) want (enter srv px c)).1 c))
            (sym h.ready.on) (ensured-Served c h) in
        let ensured =
          subst
            (λ ip. Served bootstrapped c (
              leave srv px
                (ensure_bootstrap_dns srv px (guest_of srv c) (suc fuel) ip (enter srv px c)).1 c))
            (sym h.wanted) for_guest in
        elim (Bool-cases (not (is_loaded c.settings) || text_eq preferred [])) [
          | inl skipped ↦
              rw (e, skipped) (same_rules bootstrapped (untagged (held srv px g pve c)), h)
          | inr at_work ↦ rw (e, at_work) ensured
        ]

    pub serve-Served :
        (k : Call) (c : Coordinator srv)
        → Running preferred c
        → Served k c (serve srv (suc fuel) preferred k c)
    serve-Served (answered qname msg) c h =
        Spared-Running preferred (answered qname msg) c (apply_dns srv qname msg c) h (
          apply_dns-Spared_part srv px g pve is_untagged qname msg c
            (untagged-Apart (normalize qname)) h.client h.ready)
    serve-Served (list_saved text) c h =
        Spared-Running preferred (list_saved text) c (save_merged_list srv text c).1 h (
          save_merged_list-Spared srv px g pve is_untagged text c (λ n k. untagged-Apart n) h.client
            h.ready)
    serve-Served refreshed c h =
        Spared-Running preferred refreshed c (refresh srv c) h
          (refresh-Spared srv px g pve is_untagged c h.client h.ready)
    serve-Served bootstrapped c h =
        unfold run_bootstrap in bootstrap_client-Served c.px c h.client h

    -- From a state in which the coordinator has this client, works on this guest, whose API behaves
    -- as Pve says, and has a cache that agrees with the guest, and in which no bootstrap rule of the
    -- guest points elsewhere: any sequence of answers, saves, refreshes and bootstraps, each of
    -- which ends before the next one begins, is a run of the abstract firewall on the rules that
    -- are not tagged for a name, in which only bootstraps add rules, and it ends in such a state
    -- again.
    pub serve_all-Steps :
        (ks : List Call) (c : Coordinator srv)
        → Running preferred c
        → Steps want ks
            (untagged (held srv px g pve c))
            (untagged (held srv px g pve (serve_all srv (suc fuel) preferred ks c)))
          × Running preferred (serve_all srv (suc fuel) preferred ks c)
    unfolding serve_all
    serve_all-Steps [] c h = (no_step (untagged (held srv px g pve c)), h)
    serve_all-Steps (k ∷ ks) c h =
        let c' = serve srv (suc fuel) preferred k c in
        let c'' = serve_all srv (suc fuel) preferred ks c' in
        let (step, h') = serve-Served k c h in
        let (steps, h'') = serve_all-Steps ks c' h' in
        (
          then_step k ks (untagged (held srv px g pve c)) (untagged (held srv px g pve c'))
              (untagged (held srv px g pve c'')) step steps,
          h'',
        )
