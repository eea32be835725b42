-- ===== src/Config.antt =====
-- internal/config/config.go: the settings, how they are read and written.
pub mod Laws
use proxmox_dns_firewall_loc.Prelude.{
  ℕ, Bool, true, false, not, ◌&&◌, ◌||◌, List, [], ◌∷◌, ◌++◌, Option, none, some, ◌==◌,
  if◌then◌else◌, ℤ, pos, positive,
}
use proxmox_dns_firewall_loc.Text.{Text, codes, text_eq, to_lower, trim_right, trim_space, text_run}
use proxmox_dns_firewall_loc.Proxmox.Resolve.{lxc_text, qemu_text, is_guest_kind}

pub record Settings : Type 0 where
  pub pve_host : Text
  pub pve_node : Text
  pub pve_vmid : ℤ
  pub guest_type : Text
  pub token_id : Text
  pub token_secret : Text
  pub insecure_tls : Bool
  pub config_path : Text
  pub service_ipv4 : Text

abbrev pub default_config_path : Text
default_config_path = codes "/etc/pve-dns-lockdown/config.json"

abbrev pub no_settings : Settings
no_settings = record {
  pve_host = [];
  pve_node = [];
  pve_vmid = pos 0;
  guest_type = [];
  token_id = [];
  token_secret = [];
  insecure_tls = false;
  config_path = [];
  service_ipv4 = [];
}

-- strings.TrimSpace(strings.TrimRight(host, "/"))
unfoldable pub trim_host : Text → Text
trim_host host = trim_space (trim_right (λ c. c == b'/') host)

abbrev pub known_guest_type : Text → Text
known_guest_type t = if is_guest_kind t then t else lxc_text

-- what Load does to the settings that it has decoded
unfoldable pub cleaned : Text → Settings → Settings
cleaned path s = record s {
  token_id = trim_space s.token_id;
  token_secret = trim_space s.token_secret;
  pve_node = trim_space s.pve_node;
  pve_host = trim_host s.pve_host;
  guest_type = known_guest_type (to_lower s.guest_type);
  config_path = path;
}

-- What stands at a path: nothing, something that cannot be read, bytes that are no settings, or
-- settings as JSON.
pub data File : Type 0 where
  missing : File
  unreadable : File
  garbage : File
  json : Settings → File

pub data LoadError : Type 0 where
  read_error : LoadError
  decode_error : LoadError

pub data Loaded : Type 0 where
  loaded_settings : Settings → Loaded
  load_failed : LoadError → Loaded

abbrev pub path_or_default : Text → Text
path_or_default path = if text_eq path [] then default_config_path else path

-- the fields that JSON carries: `config_path` has the tag "-"
abbrev pub decoded : Settings → Settings
decoded s = record s { config_path = [] }

abbrev load_file : Text → File → Loaded
load_file path missing = loaded_settings (record no_settings { config_path = path })
load_file path unreadable = load_failed read_error
load_file path garbage = load_failed decode_error
load_file path (json s) = loaded_settings (cleaned path (decoded s))

unfoldable pub load : Text → (Text → File) → Loaded
load path disk = let path = path_or_default path in load_file path (disk path)

-- what the three calls of Save on the file system come to; `true` is success
pub record Outcomes : Type 0 where
  pub written : Bool
  pub renamed : Bool
  pub changed_mode : Bool

pub data SaveError : Type 0 where
  write_error : SaveError
  rename_error : SaveError
  chmod_error : SaveError

abbrev pub store : Text → File → (Text → File) → (Text → File)
store path file disk = λ p. if text_eq p path then file else disk p

abbrev pub tmp_of : Text → Text
tmp_of path = path ++ codes ".tmp"

-- A write that fails leaves something unreadable at worst; what it leaves there is not read.
abbrev save_at : Text → Settings → Outcomes → (Text → File) → Option SaveError × (Text → File)
save_at path s done disk =
    if not done.written
    then (some write_error, store (tmp_of path) garbage disk)
    else if not done.renamed
    then (some rename_error, store (tmp_of path) missing disk)
    else (
      if done.changed_mode then none else some chmod_error,
      store (tmp_of path) missing (store path (json (decoded s)) disk),
    )

unfoldable pub save : Text → Settings → Outcomes → (Text → File) → Option SaveError × (Text → File)
save path s done disk = save_at (path_or_default path) s done disk

-- Settings.Loaded
unfoldable pub is_loaded : Settings → Bool
is_loaded s =
    not (text_eq s.pve_host [])
    && not (text_eq s.pve_node [])
    && not (text_eq s.token_id [])
    && not (text_eq s.token_secret [])
    && positive s.pve_vmid

-- Opens every operation of this file, for evaluation.
unfoldable pub config_run : Unit {0}
unfolding text_run trim_host cleaned load save is_loaded
config_run = tt
