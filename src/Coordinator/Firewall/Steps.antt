-- ===== src/Coordinator/Firewall/Steps.antt =====
-- The steps of the coordinator on one name's rules, seen from the rules that they are not about.
use proxmox_dns_firewall_loc.Prelude.{
  Bool, List, [], ◌∷◌, some, ◌≡◌, refl, sym, ap, subst, ◌∙◌, keep,
}
use proxmox_dns_firewall_loc.Text.{Text}
use proxmox_dns_firewall_loc.Ip.{Ip, parse_ip}
use proxmox_dns_firewall_loc.Proxmox.Api.{Guest, Client, Server}
use proxmox_dns_firewall_loc.Proxmox.Rules.{Rule}
use proxmox_dns_firewall_loc.Proxmox.Client.{State}
use proxmox_dns_firewall_loc.Proxmox.Reconcile.{
  sync_outbound_allow, remove_dynamic_rules, prune_stale_outbound_allows_for_fqdn,
  remove_all_managed_egress_for_fqdn,
}
use proxmox_dns_firewall_loc.Proxmox.Reconcile.Collect.{numbered}
use proxmox_dns_firewall_loc.Proxmox.Reconcile.Model.{Pve, rules_of, Coherent}
use proxmox_dns_firewall_loc.Coordinator.State.{
  ActivityRow, Addresses, Coordinator, guest_of, enter, leave, enqueue_fw_activities, finalize_view,
}
use proxmox_dns_firewall_loc.Coordinator.Firewall.{
  sync_address, remove_address, prune_family, remove_name,
}
use proxmox_dns_firewall_loc.Coordinator.Firewall.Foreign.{
  Apart, Foreign, sync_any-Foreign, remove-Foreign, prune-Foreign, remove_all-Foreign,
}

module _ (srv : Server) (px : Client) (g : Guest) (pve : Pve srv px g) where
  -- the rules that the guest has
  abbrev pub held : Coordinator srv → List Rule
  held c = rules_of srv px g pve (enter srv px c)

  -- the coordinator works on the guest `g`, and its cache is right
  pub record Ready (c : Coordinator srv) : Type 0 where
    pub on : guest_of srv c ≡ g
    pub coherent : Coherent srv px g pve (enter srv px c)

  module _ (p : Rule → Bool) where
    -- From `c` to `c'` the rules that pass the test stay as they are.
    pub record Spared (c c' : Coordinator srv) : Type 0 where
      pub ready : Ready c'
      pub client : c'.px ≡ c.px
      pub configured : c'.settings ≡ c.settings
      pub kept : keep p (held c') ≡ keep p (held c)

    pub Spared-same : (c : Coordinator srv) → Ready c → Spared c c
    Spared-same c r = record { ready = r; client = refl; configured = refl; kept = refl }

    pub Spared-then : (c c' c'' : Coordinator srv) → Spared c c' → Spared c' c'' → Spared c c''
    Spared-then c c' c'' a b = record {
      ready = b.ready;
      client = b.client ∙ a.client;
      configured = b.configured ∙ a.configured;
      kept = b.kept ∙ a.kept;
    }

    -- a change of the lists alone
    pub Spared-lists :
        (c : Coordinator srv) (seen : List Text) (m : Addresses) (desc text : Text)
        → Ready c
        → Spared c (record c {
          seen = seen;
          rejected_resolve_ips = m;
          last_desc = desc;
          last_merged_allow_text = text;
        })
    Spared-lists c seen m desc text r = record {
      ready = record { on = r.on; coherent = r.coherent };
      client = refl;
      configured = refl;
      kept = refl;
    }

    -- the client's work on the guest
    pub leave-Spared :
        (c : Coordinator srv) (op : Guest → State srv px → State srv px)
        → Ready c
        → Foreign srv px g pve p (enter srv px c) (op g (enter srv px c))
        → Spared c (leave srv px (op (guest_of srv c) (enter srv px c)) c)
    leave-Spared c op r f =
        subst (λ g'. Spared c (leave srv px (op g' (enter srv px c)) c)) (sym r.on)
          (record {
            ready = record { on = r.on; coherent = f.coherent };
            client = refl;
            configured = refl;
            kept = f.kept;
          })

    pub sync_address-Spared :
        (fqdn ip : Text) (rows : List ActivityRow) (c : Coordinator srv)
        → Apart p fqdn
        → Ready c
        → Spared c (sync_address srv px fqdn ip (rows, c)).1
    sync_address-Spared fqdn ip rows c a r =
        leave-Spared c (λ g' s. (sync_outbound_allow srv px g' fqdn ip s).1) r
          (sync_any-Foreign srv px g pve p fqdn ip (enter srv px c) a r.coherent)

    pub remove_address-Spared :
        (fqdn ip : Text) (parsed : Ip) (rows : List ActivityRow) (c : Coordinator srv)
        → Apart p fqdn
        → parse_ip ip ≡ some parsed
        → Ready c
        → Spared c (remove_address srv px fqdn ip (rows, c)).1
    remove_address-Spared fqdn ip parsed rows c a e r =
        leave-Spared c (λ g' s. (remove_dynamic_rules srv px g' fqdn ip s).1) r
          (remove-Foreign srv px g pve p fqdn ip parsed (enter srv px c) a e r.coherent)

    pub prune_family-Spared :
        (fqdn family before : Text) (desired : List Text) (rows : List ActivityRow)
        (c : Coordinator srv)
        → Apart p fqdn
        → Ready c
        → Spared c (prune_family srv px fqdn family desired before (rows, c)).1
    prune_family-Spared fqdn family before desired rows c a r =
        leave-Spared c
          (λ g' s. (prune_stale_outbound_allows_for_fqdn srv px g' fqdn family desired s).1) r
          (prune-Foreign srv px g pve p fqdn family desired (enter srv px c) a r.coherent)

    pub remove_name-Spared :
        (fqdn before : Text) (rows : List ActivityRow) (c : Coordinator srv)
        → Apart p fqdn
        → Ready c
        → Spared c (remove_name srv px fqdn before (rows, c)).1.1
    remove_name-Spared fqdn before rows c a r =
        leave-Spared c (λ g' s. (remove_all_managed_egress_for_fqdn srv px g' fqdn s).1) r
          (remove_all-Foreign srv px g pve p fqdn (enter srv px c) a r.coherent)

    -- the logging moves nothing but the clock
    pub enqueue-Spared :
        (rows : List ActivityRow) (c : Coordinator srv)
        → Ready c
        → Spared c (enqueue_fw_activities srv rows c)
    unfolding enqueue_fw_activities finalize_view
    enqueue-Spared [] c r = Spared-same c r
    enqueue-Spared (row ∷ rows) c r =
        let moved = pve.now_held c.world in
        record {
          ready = record {
            on = r.on;
            coherent = λ rules e. r.coherent rules e ∙ ap (numbered 0) (sym moved);
          };
          client = refl;
          configured = refl;
          kept = ap (keep p) moved;
        }
