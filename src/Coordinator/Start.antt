-- ===== src/Coordinator/Start.antt =====
-- New, and the part of cmd/pve-dns-lockdown/main.go that calls it.
pub mod Restart
mod Tests
use proxmox_dns_firewall_loc.Prelude.{
  Bool, false, List, [], ◌∷◌, Option, none, some, if◌then◌else◌, pos,
}
use proxmox_dns_firewall_loc.Text.{Text, codes, text_eq}
use proxmox_dns_firewall_loc.Config.{
  Settings, default_config_path, File, LoadError, Loaded, loaded_settings, load_failed, load,
}
use proxmox_dns_firewall_loc.Proxmox.Api.{Server}
use proxmox_dns_firewall_loc.Proxmox.Client.{no_cache}
use proxmox_dns_firewall_loc.Coordinator.State.{ViewState, Coordinator}
use proxmox_dns_firewall_loc.Coordinator.Configure.{first_text, reload_client, configure_run}

-- the view before the first refresh
abbrev pub zero_view : ViewState
zero_view = record {
  revision = 0;
  merged_list_text = [];
  vm_display = [];
  policy_out = [];
  policy_unknown = false;
  last_refresh_err = none;
  firewall_activity = [];
  form = record {
    pve_host = [];
    pve_node = [];
    pve_vmid = pos 0;
    guest_type = [];
    token_id = [];
    insecure_tls = false;
    secret_present = false;
  };
}

-- `env` is the variable PVE_DNS_LOCKDOWN_CONFIG
abbrev pub start_path : Text → Text → Text
start_path cfg_path env = first_text (cfg_path ∷ env ∷ default_config_path ∷ [])

-- `env` is the variable PVE_DNS_LOCKDOWN_HTTP_ADDR
unfoldable pub http_address : Text → Text
http_address env = if text_eq env [] then codes ":80" else env

module _ (srv : Server) (is_url : Text → Bool) where
  pub data Started : Type 0 where
    started : Coordinator srv → Started
    not_started : LoadError → Started

  abbrev pub fresh : Settings → srv.World → Coordinator srv
  fresh s w = reload_client srv is_url (record {
    settings = s;
    px = none;
    world = w;
    rule_sync = no_cache;
    seen = [];
    rejected_resolve_ips = [];
    revision = 0;
    last_desc = [];
    last_config_digest = [];
    last_merged_allow_text = [];
    snap = zero_view;
    fw_activity = [];
  })

  abbrev start_loaded : Loaded → srv.World → Started
  start_loaded (loaded_settings s) w = started (fresh s w)
  start_loaded (load_failed e) w = not_started e

  -- New; what it starts in the background are calls of their own
  unfoldable pub new_coordinator : Text → Text → (Text → File) → srv.World → Started
  new_coordinator cfg_path env disk w = start_loaded (load (start_path cfg_path env) disk) w

-- Opens every operation of this file, for evaluation.
unfoldable pub start_run : Unit {0}
unfolding configure_run http_address new_coordinator
start_run = tt
