-- ===== src/Coordinator/State.antt =====
-- The state that the coordinator keeps, the view that it shows, and the log of firewall activity.
-- A call runs as a whole: what the locks of the source keep apart is one step here.
pub mod Activity
use proxmox_dns_firewall_loc.Prelude.{
  ℕ, ◌+◌, ◌-◌, ◌%◌, Bool, true, false, List, [], ◌∷◌, ◌++◌, Option, none, some, ltb, if◌then◌else◌,
  ℤ, length, drop,
}
use proxmox_dns_firewall_loc.Text.{Text, codes, text_eq}
use proxmox_dns_firewall_loc.Proxmox.Api.{Guest, Error, Client, Server}
use proxmox_dns_firewall_loc.Proxmox.Client.{Cache, State, guest_path, client_run}
use proxmox_dns_firewall_loc.Config.{Settings, config_run}

pub data RowResult : Type 0 where
  allow_added : RowResult
  allow_failed : RowResult
  allow_pruned : RowResult
  dynamic_removed : RowResult
  remove_failed : RowResult

-- the text of an error, with what the coordinator writes in front of it
abbrev pub Failure : Type 0
Failure = Text × Error

-- FirewallActivityRow; the time is in nanoseconds, and `none` for the empty string
pub record ActivityRow : Type 0 where
  pub time : Option ℕ
  pub fqdn : Text
  pub ip : Text
  pub result : RowResult
  pub err : Option Failure

pub record Form : Type 0 where
  pub pve_host : Text
  pub pve_node : Text
  pub pve_vmid : ℤ
  pub guest_type : Text
  pub token_id : Text
  pub insecure_tls : Bool
  pub secret_present : Bool

pub record ViewState : Type 0 where
  pub revision : ℕ
  pub merged_list_text : Text
  pub vm_display : Text
  pub policy_out : Text
  pub policy_unknown : Bool
  pub last_refresh_err : Option Error
  pub firewall_activity : List ActivityRow
  pub form : Form

abbrev pub max_fw_activity_lines : ℕ
max_fw_activity_lines = 20

-- the counter of revisions is an atomic.Uint64
abbrev pub revision_limit : ℕ
revision_limit = 0x1_0000_0000_0000_0000

-- a map[string][]string
abbrev pub Addresses : Type 0
Addresses = List (Text × List Text)

-- m[key], where a key that is not there gives the empty slice
unfoldable pub addresses_of : Addresses → Text → List Text
addresses_of [] key = []
addresses_of ((k, ips) ∷ m) key = if text_eq k key then ips else addresses_of m key

unfoldable pub delete_addresses : Addresses → Text → Addresses
delete_addresses [] key = []
delete_addresses ((k, ips) ∷ m) key =
    let rest = delete_addresses m key in if text_eq k key then rest else (k, ips) ∷ rest

unfoldable pub put_addresses : Addresses → Text → List Text → Addresses
put_addresses m key ips = (key, ips) ∷ delete_addresses m key

-- the rows that are kept: the last twenty
unfoldable pub last_rows : List ActivityRow → List ActivityRow
last_rows rows =
    if ltb max_fw_activity_lines (length rows)
    then drop (length rows - max_fw_activity_lines) rows
    else rows

abbrev pub stamp : ℕ → ActivityRow → ActivityRow
stamp now row = elim row.time [ none ↦ record row { time = some now } | some t ↦ row ]

unfoldable pub add_rows : ℕ → List ActivityRow → List ActivityRow → List ActivityRow
add_rows now log [] = log
add_rows now log (row ∷ rows) = add_rows now (log ++ stamp now row ∷ []) rows

module _ (srv : Server) where
  -- Coordinator. `world` is what is outside; subscribers and locks are not part of it.
  pub record Coordinator : Type 0 where
    pub settings : Settings
    pub px : Option Client
    pub world : srv.World
    pub rule_sync : Cache
    pub seen : List Text
    pub rejected_resolve_ips : Addresses
    pub revision : ℕ
    pub last_desc : Text
    pub last_config_digest : Text
    pub last_merged_allow_text : Text
    pub snap : ViewState
    pub fw_activity : List ActivityRow

  abbrev pub guest_of : Coordinator → Guest
  guest_of c = guest_path c.settings.guest_type c.settings.pve_node c.settings.pve_vmid

  -- the part of the state that the client works on, and its return
  abbrev pub enter : (px : Client) → Coordinator → State srv px
  enter px c = record { world = c.world; cache = c.rule_sync }

  abbrev pub leave : (px : Client) → State srv px → Coordinator → Coordinator
  leave px s c = record c { world = s.world; rule_sync = s.cache }

  unfoldable pub finalize_view : ViewState → Coordinator → Coordinator
  finalize_view vs c =
      let revision = (c.revision + 1) % revision_limit in
      record c {
        revision = revision;
        snap = record vs { firewall_activity = c.fw_activity; revision = revision };
      }

  unfoldable pub enqueue_fw_activities : List ActivityRow → Coordinator → Coordinator
  enqueue_fw_activities [] c = c
  enqueue_fw_activities (row ∷ rows) c =
      let (t, w) = srv.now c.world in
      finalize_view c.snap
        (record c { world = w; fw_activity = last_rows (add_rows t c.fw_activity (row ∷ rows)) })

-- Opens every operation of this file, for evaluation.
unfoldable pub state_run : Unit {0}
unfolding client_run config_run addresses_of delete_addresses put_addresses last_rows add_rows
    finalize_view enqueue_fw_activities
state_run = tt
