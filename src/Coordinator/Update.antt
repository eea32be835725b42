-- ===== src/Coordinator/Update.antt =====
-- UpdateSettings: a patch is merged, completed by the cluster, saved, and put to work.
pub mod Adopted
pub mod Refused
mod Tests
use proxmox_dns_firewall_loc.Prelude.{
  ℕ, Bool, true, false, not, ◌&&◌, ◌||◌, List, [], ◌∷◌, ◌++◌, Option, none, some, if◌then◌else◌, ℤ,
  ◌==◌,
}
use proxmox_dns_firewall_loc.Text.{Text, codes, text_eq, trim_space}
use proxmox_dns_firewall_loc.Text.Quote.{has_substring, quote, quote_run}
use proxmox_dns_firewall_loc.Config.{Settings, trim_host, File, SaveError, Outcomes, save}
use proxmox_dns_firewall_loc.Proxmox.Api.{
  Error, cluster_resources_forbidden, guest_vmid_not_found, guest_vmid_ambiguous, Result, ok, err,
  Client, Server,
}
use proxmox_dns_firewall_loc.Proxmox.Client.{VersionInfo, get_version}
use proxmox_dns_firewall_loc.Proxmox.Reconcile.{Bounded, out_of_fuel, finished}
use proxmox_dns_firewall_loc.Coordinator.State.{Coordinator, enter, leave}
use proxmox_dns_firewall_loc.Coordinator.Refresh.{refresh, refresh_run}
use proxmox_dns_firewall_loc.Coordinator.Configure.{
  merge_settings_patch, resolve_node_guest_if_possible, reload_client, run_bootstrap, configure_run,
}

-- the host of a URL, where url.Parse takes the text
abbrev pub is_url : (Text → Option Text) → Text → Bool
is_url url_host t = elim (url_host t) [ none ↦ false | some host ↦ true ]

abbrev with_https : Text → Text
with_https raw = if has_substring raw (codes "://") then raw else codes "https://" ++ raw

abbrev host_or : Text → Option Text → Text
host_or raw none = raw
host_or raw (some host) = if text_eq host [] then raw else host

unfoldable pub api_url_host : (Text → Option Text) → Text → Text
api_url_host url_host raw =
    let raw = trim_host raw in
    if text_eq raw []
    then codes "(no host)"
    else host_or (with_https raw) (url_host (with_https raw))

-- the version with the release behind it, unless it is part of the version
abbrev with_release : Text → Text → Text
with_release ver release =
    if not (text_eq (trim_space release) []) && not (has_substring ver release)
    then (if not (text_eq ver [])
        then ver ++ (codes " (" ++ (trim_space release ++ codes ")"))
        else trim_space release)
    else ver

abbrev or_repository : Text → Text → Text
or_repository ver rep_id =
    if text_eq ver []
    then if text_eq (trim_space rep_id) [] then codes "unknown" else trim_space rep_id
    else ver

abbrev pub version_text : VersionInfo → Text
version_text v = or_repository (with_release (trim_space v.version) v.release) v.rep_id

unfoldable pub format_api_connection_ok : (Text → Option Text) → Text → Text → VersionInfo → Text
format_api_connection_ok url_host pve_host pve_node v =
    codes "API OK — Proxmox "
    ++ (version_text v
        ++ (codes " · "
            ++ (api_url_host url_host pve_host
                ++ (codes " · node " ++ quote (trim_space pve_node)))))

-- resolveErrDetail: one of its three texts, or the error's own
pub data Detail : Type 0 where
  forbidden_detail : Detail
  no_match_detail : Detail
  ambiguous_detail : Detail
  own_text : Error → Detail

unfoldable pub resolve_err_detail : Error → Detail
resolve_err_detail cluster_resources_forbidden = forbidden_detail
resolve_err_detail guest_vmid_not_found = no_match_detail
resolve_err_detail (guest_vmid_ambiguous vmid n) = ambiguous_detail
resolve_err_detail e = own_text e

-- what the warning's text is made of
pub record Warning : Type 0 where
  pub vmid : ℤ
  pub detail : Detail
  pub node : Text
  pub guest_type : Text

abbrev pub warning_of : Settings → Option Error → Option Warning
warning_of s none = none
warning_of s (some e) = some (record {
  vmid = s.pve_vmid;
  detail = resolve_err_detail e;
  node = s.pve_node;
  guest_type = s.guest_type;
})

pub data UpdateError : Type 0 where
  cannot_resolve : Error → UpdateError
  cannot_save : SaveError → UpdateError

-- `unfinished` is an EnsureBootstrapDNS that has not ended within the fuel
pub data Updated : Type 0 where
  refused : UpdateError → Updated
  accepted : Option Warning → Text → Updated
  unfinished : Updated

abbrev Disk : Type 0
Disk = Text → File

module _ (srv : Server) (url_host : Text → Option Text) where
  abbrev connection_line : Settings → Result VersionInfo → Text
  connection_line s (err e) = []
  connection_line s (ok v) = format_api_connection_ok url_host s.pve_host s.pve_node v

  -- the request that shows that the API answers
  abbrev pub probe_version : Option Client → Coordinator srv → Text × Coordinator srv
  probe_version none c = ([], c)
  probe_version (some px) c =
      let (v, s) = get_version srv px (enter srv px c) in
      (connection_line c.settings v, leave srv px s c)

  abbrev pub bootstrapped_reply :
      Option Warning → Bounded × Coordinator srv → Updated × Coordinator srv
  bootstrapped_reply warn (out_of_fuel, c) = (unfinished, c)
  bootstrapped_reply warn (finished e, c) =
      let c' = refresh srv c in
      let (line, c'') = probe_version c'.px c' in (accepted warn line, c'')

  -- the saved settings at work
  abbrev pub adopt : Settings → Coordinator srv → Coordinator srv
  adopt merged c = reload_client srv (is_url url_host) (record c { settings = merged })

  abbrev pub after_save :
      ℕ
      → Text
      → Option Warning
      → Settings
      → Option SaveError
      → Coordinator srv
      → Updated × Coordinator srv
  after_save fuel preferred warn merged (some e) c = (refused (cannot_save e), c)
  after_save fuel preferred warn merged none c =
      bootstrapped_reply warn (run_bootstrap srv fuel preferred (adopt merged c))

  abbrev pub after_resolve :
      ℕ
      → Text
      → Text
      → Outcomes
      → Result (Option Error × Settings)
      → Disk × Coordinator srv
      → Updated × (Disk × Coordinator srv)
  after_resolve fuel preferred wpath done (err e) (disk, c) =
      (refused (cannot_resolve e), (disk, c))
  after_resolve fuel preferred wpath done (ok (failed, merged)) (disk, c) =
      let (e, disk') = save wpath merged done disk in
      let (r, c') = after_save fuel preferred (warning_of merged failed) merged e c in
      (r, (disk', c'))

  -- `env` is the variable PVE_DNS_LOCKDOWN_CONFIG, `done` what the file system comes to
  unfoldable pub update_settings :
      Text
      → ℕ
      → Text
      → Outcomes
      → Settings
      → Disk × Coordinator srv
      → Updated × (Disk × Coordinator srv)
  update_settings env fuel preferred done patch (disk, c) =
      let merged = merge_settings_patch env patch c.settings in
      let (r, w) = resolve_node_guest_if_possible srv (is_url url_host) merged c.world in
      after_resolve fuel preferred merged.config_path done r (disk, record c { world = w })

-- Opens every operation of this file, for evaluation.
unfoldable pub update_run : Unit {0}
unfolding quote_run refresh_run configure_run api_url_host format_api_connection_ok
    resolve_err_detail update_settings
update_run = tt
