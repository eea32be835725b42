-- ===== src/Coordinator/Refresh.antt =====
-- Refresh: the guest's configuration and its outbound policy become the view.
pub mod Laws
pub mod Spared
pub mod Allowed
use proxmox_dns_firewall_loc.Prelude.{
  Bool, true, false, not, List, [], ◌∷◌, Option, none, some, if◌then◌else◌,
}
use proxmox_dns_firewall_loc.Text.{Text, codes, text_eq, trim_space, to_upper, join_lf}
use proxmox_dns_firewall_loc.Allowlist.{extract_block, merge_suggested_lines, allowlist_run}
use proxmox_dns_firewall_loc.Config.{Settings}
use proxmox_dns_firewall_loc.Proxmox.Api.{
  Row, Error, not_configured, Result, ok, err, Client, Server,
}
use proxmox_dns_firewall_loc.Proxmox.Client.{
  State, FirewallOptions, get_guest_config, get_firewall_options,
}
use proxmox_dns_firewall_loc.Proxmox.Display.{string_field, guest_target_display, display_run}
use proxmox_dns_firewall_loc.Coordinator.State.{
  ViewState, Coordinator, guest_of, enter, leave, finalize_view, state_run,
}

-- the view with which Refresh starts
abbrev pub blank_view : Settings → ViewState
blank_view s = record {
  revision = 0;
  merged_list_text = [];
  vm_display = [];
  policy_out = [];
  policy_unknown = true;
  last_refresh_err = none;
  firewall_activity = [];
  form = record {
    pve_host = s.pve_host;
    pve_node = s.pve_node;
    pve_vmid = s.pve_vmid;
    guest_type = s.guest_type;
    token_id = s.token_id;
    insecure_tls = s.insecure_tls;
    secret_present = not (text_eq s.token_secret []);
  };
}

-- the lines of a description's block
abbrev pub inner_of : Text → List Text
inner_of desc = elim (extract_block desc) [ none ↦ [] | some inner ↦ inner ]

unfoldable pub merged_text : Text → List Text → Text
merged_text desc seen = join_lf (merge_suggested_lines (inner_of desc) seen)

abbrev pub show_policy : Result FirewallOptions → ViewState → ViewState
show_policy (err e) vs = record vs { policy_unknown = true; last_refresh_err = some e }
show_policy (ok fw) vs = record vs {
  policy_unknown = false;
  policy_out = to_upper (trim_space fw.policy_out);
  last_refresh_err = none;
}

module _ (srv : Server) where
  -- with the configuration that the guest has
  abbrev pub refresh_config : (px : Client) → Row → State srv px → Coordinator srv → Coordinator srv
  refresh_config px cfg s c =
      let desc = string_field (codes "description") cfg in
      let merged = merged_text desc c.seen in
      let (fw, s') = get_firewall_options srv px (guest_of srv c) s in
      finalize_view srv
        (show_policy fw (record (blank_view c.settings) {
          vm_display = guest_target_display c.settings.pve_vmid cfg;
          merged_list_text = merged;
        }))
        (record (leave srv px s' c) {
          last_desc = desc;
          last_config_digest = string_field (codes "digest") cfg;
          last_merged_allow_text = merged;
        })

  abbrev pub refresh_reply :
      (px : Client) → Result Row → State srv px → Coordinator srv → Coordinator srv
  refresh_reply px (err e) s c =
      finalize_view srv (record (blank_view c.settings) { last_refresh_err = some e })
        (leave srv px s c)
  refresh_reply px (ok cfg) s c = refresh_config px cfg s c

  abbrev pub refresh_client : Option Client → Coordinator srv → Coordinator srv
  refresh_client none c =
      finalize_view srv (record (blank_view c.settings) { last_refresh_err = some not_configured })
        c
  refresh_client (some px) c =
      let (cfg, s) = get_guest_config srv px (guest_of srv c) (enter srv px c) in
      refresh_reply px cfg s c

  unfoldable pub refresh : Coordinator srv → Coordinator srv
  refresh c = refresh_client c.px c

-- Opens every operation of this file, for evaluation.
unfoldable pub refresh_run : Unit {0}
unfolding state_run display_run allowlist_run merged_text refresh
refresh_run = tt
