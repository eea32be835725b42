-- ===== src/Proxmox/Api.antt =====
-- What passes between the client and the Proxmox API. The API itself is no part of the
-- repository: `Server` is a parameter, one exchange at a time, over a state of its own.
use proxmox_dns_firewall_loc.Prelude.{ℕ, Bool, List, Option, ℤ}
use proxmox_dns_firewall_loc.Text.{Text}

-- a JSON value as `any` holds it after decoding; numbers are integers (float64 or json.Number)
pub data Value : Type 0 where
  null : Value
  bool : Bool → Value
  num : ℤ → Value
  str : Text → Value

-- a JSON object, map[string]any
abbrev pub Row : Type 0
Row = List (Text × Value)

-- the field "data" of a reply, as apiEnvelope keeps it
pub data Payload : Type 0 where
  absent : Payload
  null_data : Payload
  object : Row → Payload
  array : List Row → Payload

-- the text of a response and what json.Unmarshal makes of it; `none` is a decoding error
pub record Body : Type 0 where
  pub text : Text
  pub envelope : Option Payload

pub data Reply : Type 0 where
  failed : Text → Reply
  answer : ℕ → Body → Reply

-- guestPath: the segment is "lxc" or "qemu"
pub record Guest : Type 0 where
  pub lxc : Bool
  pub node : Text
  pub vmid : ℤ

-- the paths under /api2/json
pub data Endpoint : Type 0 where
  version : Endpoint
  cluster_resources : Endpoint
  config : Guest → Endpoint
  firewall_options : Guest → Endpoint
  firewall_rules : Guest → Endpoint
  firewall_rule : Guest → ℕ → Endpoint

-- url.Values; the program sets each key once
abbrev pub Form : Type 0
Form = List (Text × Text)

pub data Request : Type 0 where
  get : Endpoint → Request
  delete : Endpoint → Request
  put : Endpoint → Form → Request
  post : Endpoint → Form → Request

pub data Error : Type 0 where
  transport : Text → Error
  http_status : ℕ → Text → Error
  decode : Error
  invalid_vmid : ℤ → Error
  cluster_resources_forbidden : Error
  guest_vmid_not_found : Error
  guest_vmid_ambiguous : ℤ → ℕ → Error
  invalid_ip : Text → Error
  invalid_family : Text → Error
  not_configured : Error
  client_setup : Error
  unresolved_guest : ℤ → Error → Error

-- a value, or the error that was returned beside a zero value
pub data Result {ℓ} (A : Type ℓ) : Type ℓ where
  ok : A → Result A
  err : Error → Result A

-- proxmox.Client
pub record Client : Type 0 where
  pub base : Text
  pub token_id : Text
  pub token_secret : Text
  pub insecure_tls : Bool

-- The world outside: the API behind `hc.Do`, and `time.Now` in nanoseconds.
pub record Server : Type 1 where
  pub World : Type 0
  pub exchange : Client → Request → World → Reply × World
  pub now : World → ℕ × World
