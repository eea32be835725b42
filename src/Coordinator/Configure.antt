-- ===== src/Coordinator/Configure.antt =====
-- UpdateSettings up to the saving of the file, the client that the settings stand for, and
-- runBootstrap.
pub mod Patch
use proxmox_dns_firewall_loc.Prelude.{
  ℕ, Bool, true, false, not, ◌&&◌, ◌||◌, List, [], ◌∷◌, ◌++◌, Option, none, some, if◌then◌else◌, ℤ,
  positive,
}
use proxmox_dns_firewall_loc.Text.{
  Text, codes, text_eq, has_prefix, to_lower, trim_space, trim_right, text_run,
}
use proxmox_dns_firewall_loc.Config.{
  Settings, default_config_path, trim_host, is_loaded, config_run,
}
use proxmox_dns_firewall_loc.Proxmox.Api.{
  Error, client_setup, unresolved_guest, Result, ok, err, Client, Server,
}
use proxmox_dns_firewall_loc.Proxmox.Resolve.{Hit, lxc_text, is_guest_kind}
use proxmox_dns_firewall_loc.Proxmox.Client.{State, no_cache, resolve_guest_by_vmid}
use proxmox_dns_firewall_loc.Proxmox.Reconcile.{
  Bounded, finished, ensure_bootstrap_dns, reconcile_run,
}
use proxmox_dns_firewall_loc.Coordinator.State.{Coordinator, guest_of, enter, leave, state_run}

-- a field of the patch, or of the settings where the patch has only spaces
abbrev pub patched : Text → Text → Text
patched new old = if text_eq (trim_space new) [] then old else new

-- the first text that is not empty
abbrev pub first_text : List Text → Text
first_text [] = []
first_text (t ∷ ts) = if text_eq t [] then first_text ts else t

abbrev pub patched_guest_type : Text → Text → Text
patched_guest_type new old =
    let t = if is_guest_kind new then new else old in if text_eq t [] then lxc_text else t

-- mergeSettingsPatchLocked; `env` is the variable PVE_DNS_LOCKDOWN_CONFIG
unfoldable pub merge_settings_patch : Text → Settings → Settings → Settings
merge_settings_patch env patch s = record {
  pve_host = trim_host (patched patch.pve_host s.pve_host);
  pve_node = trim_space (patched patch.pve_node s.pve_node);
  pve_vmid = if positive patch.pve_vmid then patch.pve_vmid else s.pve_vmid;
  guest_type = patched_guest_type patch.guest_type s.guest_type;
  token_id = trim_space (patched patch.token_id s.token_id);
  token_secret = patched patch.token_secret s.token_secret;
  insecure_tls = patch.insecure_tls;
  config_path =
      first_text (trim_space patch.config_path ∷ env ∷ s.config_path ∷ default_config_path ∷ []);
  service_ipv4 = patch.service_ipv4;
}

abbrev pub with_scheme : Text → Text
with_scheme base =
    if has_prefix base (codes "http://") || has_prefix base (codes "https://")
    then base
    else codes "https://" ++ base

-- proxmox.New; `is_url` says which texts url.Parse takes
unfoldable pub new_client : (Text → Bool) → Text → Text → Text → Bool → Option Client
new_client is_url base token_id token_secret insecure_tls =
    if is_url (with_scheme base)
    then some (record {
      base = with_scheme base;
      token_id = trim_space token_id;
      token_secret = trim_space token_secret;
      insecure_tls = insecure_tls;
    })
    else none

abbrev pub client_of : (Text → Bool) → Settings → Option Client
client_of is_url s = new_client is_url s.pve_host s.token_id s.token_secret s.insecure_tls

abbrev pub can_resolve : Settings → Bool
can_resolve s =
    not (text_eq s.pve_host [])
    && not (text_eq s.token_id [])
    && not (text_eq s.token_secret [])
    && positive s.pve_vmid

-- the settings with the node and the guest type that the cluster names
abbrev pub with_hit : Settings → Hit → Settings
with_hit s h =
    let lg = to_lower (trim_space h.typ) in
    record s { pve_node = h.node; guest_type = if is_guest_kind lg then lg else s.guest_type }

-- the settings and the error that is only warned of
abbrev pub resolved : Settings → Result Hit → Result (Option Error × Settings)
resolved s (ok h) = ok (none, with_hit s h)
resolved s (err e) =
    if text_eq s.pve_node [] then err (unresolved_guest s.pve_vmid e) else ok (some e, s)

module _ (srv : Server) (is_url : Text → Bool) where
  abbrev pub resolve_with :
      Settings → Option Client → srv.World → Result (Option Error × Settings) × srv.World
  resolve_with s none w = (err client_setup, w)
  resolve_with s (some px) w =
      let (hit, s') =
        resolve_guest_by_vmid srv px s.pve_vmid (record { world = w; cache = no_cache }) in
      (resolved s hit, s'.world)

  unfoldable pub resolve_node_guest_if_possible :
      Settings → srv.World → Result (Option Error × Settings) × srv.World
  resolve_node_guest_if_possible s w =
      if not (can_resolve s) then (ok (none, s), w) else resolve_with s (client_of is_url s) w

  unfoldable pub reload_client : Coordinator srv → Coordinator srv
  reload_client c = record c {
    px = if is_loaded c.settings then client_of is_url c.settings else none;
  }

-- the address that the guest's resolver has: the one of the settings, or else of the network card
abbrev pub service_address : Text → Settings → Text
service_address preferred s =
    if text_eq s.service_ipv4 [] then preferred else trim_space s.service_ipv4

module _ (srv : Server) where
  -- runBootstrap; `preferred` is the address of the host's network card. Its error is dropped.
  abbrev pub bootstrap_client :
      ℕ → Text → Option Client → Coordinator srv → Bounded × Coordinator srv
  bootstrap_client fuel preferred none c = (finished none, c)
  bootstrap_client fuel preferred (some px) c =
      let (r, s) =
        ensure_bootstrap_dns srv px (guest_of srv c) fuel (service_address preferred c.settings)
          (enter srv px c) in
      if not (is_loaded c.settings) || text_eq preferred []
      then (finished none, c)
      else (r, leave srv px s c)

  unfoldable pub run_bootstrap : ℕ → Text → Coordinator srv → Bounded × Coordinator srv
  run_bootstrap fuel preferred c = bootstrap_client fuel preferred c.px c

-- Opens every operation of this file, for evaluation.
unfoldable pub configure_run : Unit {0}
unfolding config_run state_run reconcile_run merge_settings_patch new_client
    resolve_node_guest_if_possible reload_client run_bootstrap
configure_run = tt
