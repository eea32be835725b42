-- ===== src/Coordinator/Refresh/Spared.antt =====
-- A refresh, seen from the rules of the guest.
use proxmox_dns_firewall_loc.Prelude.{Bool, keep, Option, some, ◌≡◌, refl, sym, ap, subst, ◌∙◌}
use proxmox_dns_firewall_loc.Proxmox.Api.{Guest, Row, Result, ok, err, Client, Server}
use proxmox_dns_firewall_loc.Proxmox.Rules.{Rule}
use proxmox_dns_firewall_loc.Proxmox.Client.{State, get_guest_config, get_firewall_options, send}
use proxmox_dns_firewall_loc.Proxmox.Reconcile.Collect.{numbered}
use proxmox_dns_firewall_loc.Proxmox.Reconcile.Model.{Pve, rules_of, Coherent}
use proxmox_dns_firewall_loc.Coordinator.State.{Coordinator, guest_of, enter, finalize_view}
use proxmox_dns_firewall_loc.Coordinator.Firewall.Steps.{held, Ready, Spared}
use proxmox_dns_firewall_loc.Coordinator.Refresh.{
  refresh, refresh_client, refresh_reply, refresh_config,
}

module _ (srv : Server) (px : Client) (g : Guest) (pve : Pve srv px g) where
  -- a request that changes no rule
  pub record Reads (s s' : State srv px) : Type 0 where
    pub same : rules_of srv px g pve s' ≡ rules_of srv px g pve s
    pub coherent : Coherent srv px g pve s'

  Reads-world :
      (s : State srv px) (w : srv.World)
      → pve.held w ≡ pve.held s.world
      → Coherent srv px g pve s
      → Reads s (record s { world = w })
  Reads-world s w e h = record {
    same = e;
    coherent = λ rules k. h rules k ∙ ap (numbered 0) (sym e);
  }

  get_guest_config-Reads :
      (s : State srv px) → Coherent srv px g pve s → Reads s (get_guest_config srv px g s).1
  unfolding get_guest_config send
  get_guest_config-Reads s h = Reads-world s _ (pve.config_held s.world) h

  get_firewall_options-Reads :
      (s : State srv px) → Coherent srv px g pve s → Reads s (get_firewall_options srv px g s).1
  unfolding get_firewall_options send
  get_firewall_options-Reads s h = Reads-world s _ (pve.options_held s.world) h

  -- the coordinator afterwards has the rules of `s`
  record Holds (s : State srv px) (c c' : Coordinator srv) : Type 0 where
    ready : Ready srv px g pve c'
    same : held srv px g pve c' ≡ rules_of srv px g pve s
    client : c'.px ≡ c.px
    configured : c'.settings ≡ c.settings

  refresh_config-Holds :
      (cfg : Row) (s : State srv px) (c : Coordinator srv)
      → guest_of srv c ≡ g
      → Coherent srv px g pve s
      → Holds s c (refresh_config srv px cfg s c)
  unfolding finalize_view
  refresh_config-Holds cfg s c on h =
      let read : Reads s (get_firewall_options srv px (guest_of srv c) s).1 =
        subst (λ g'. Reads s (get_firewall_options srv px g' s).1) (sym on)
          (get_firewall_options-Reads s h) in
      record {
        ready = record { on = on; coherent = read.coherent };
        same = read.same;
        client = refl;
        configured = refl;
      }

  refresh_reply-Holds :
      (cfg : Result Row) (s : State srv px) (c : Coordinator srv)
      → guest_of srv c ≡ g
      → Coherent srv px g pve s
      → Holds s c (refresh_reply srv px cfg s c)
  unfolding finalize_view
  refresh_reply-Holds (err e) s c on h = record {
    ready = record { on = on; coherent = h };
    same = refl;
    client = refl;
    configured = refl;
  }
  refresh_reply-Holds (ok cfg) s c on h = refresh_config-Holds cfg s c on h

  refresh_client-Holds :
      (o : Option Client) (c : Coordinator srv)
      → o ≡ some px
      → Ready srv px g pve c
      → Holds (enter srv px c) c (refresh_client srv o c)
  refresh_client-Holds o c e r =
      let s : State srv px = (get_guest_config srv px (guest_of srv c) (enter srv px c)).1 in
      let read : Reads (enter srv px c) s =
        subst (λ g'. Reads (enter srv px c) (get_guest_config srv px g' (enter srv px c)).1)
          (sym r.on) (get_guest_config-Reads (enter srv px c) r.coherent) in
      let cfg = (get_guest_config srv px (guest_of srv c) (enter srv px c)).0 in
      let after = refresh_reply-Holds cfg s c r.on read.coherent in
      rw e (record {
        ready = after.ready;
        same = after.same ∙ read.same;
        client = after.client;
        configured = after.configured;
      })

  -- A refresh changes no rule, and keeps the client and the settings.
  pub refresh-Spared :
      (p : Rule → Bool) (c : Coordinator srv)
      → c.px ≡ some px
      → Ready srv px g pve c
      → Spared srv px g pve p c (refresh srv c)
  unfolding refresh
  refresh-Spared p c e r =
      let h = refresh_client-Holds c.px c e r in
      record {
        ready = h.ready;
        client = h.client;
        configured = h.configured;
        kept = ap (keep p) h.same;
      }
