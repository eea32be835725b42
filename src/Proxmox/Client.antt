-- ===== src/Proxmox/Client.antt =====
-- The calls of the API that the client makes, and the cache of the rule list.
use proxmox_dns_firewall_loc.Prelude.{
  ℕ, ◌+◌, not, List, [], ◌∷◌, ◌++◌, Option, none, some, ltb, leb, ◌==◌, positive, if◌then◌else◌,
  map, ℤ, pos, negsuc,
}
use proxmox_dns_firewall_loc.Text.{Text, codes, text_eq, trim_space, to_lower}
use proxmox_dns_firewall_loc.Proxmox.Api.{
  Value, null, num, str, Row, Payload, null_data, object, array, Body, Reply, failed, answer, Guest,
  version, cluster_resources, config, firewall_options, firewall_rules, firewall_rule, Form,
  Request, get, delete, put, post, Error, transport, http_status, decode, invalid_vmid,
  cluster_resources_forbidden, Result, ok, err, Client, Server,
}
use proxmox_dns_firewall_loc.Proxmox.Row.{text_field, int_from_any, field?, or_null, row_run}
use proxmox_dns_firewall_loc.Proxmox.Resolve.{Hit, lxc_text, resolve_rows, resolve_run}
use proxmox_dns_firewall_loc.Proxmox.Rules.{RulePos, FirewallRule, rules_run}
use proxmox_dns_firewall_loc.Ip.{decimal}

unfoldable pub guest_path : Text → Text → ℤ → Guest
guest_path guest_type node vmid = record {
  lxc = text_eq (to_lower (trim_space guest_type)) lxc_text;
  node = node;
  vmid = vmid;
}

-- the status test of getJSON, reqForm and DeleteFirewallRule
unfoldable pub checked : Reply → Result Body
checked (failed e) = err (transport e)
checked (answer status body) =
    if leb 300 status then err (http_status status (trim_space body.text)) else ok body

abbrev pub envelope_of : Body → Result Payload
envelope_of body = elim body.envelope [ none ↦ err decode | some p ↦ ok p ]

-- getJSON, up to the decoding of "data"
unfoldable pub json_reply : Reply → Result Payload
json_reply r = elim (checked r) [ err e ↦ err e | ok body ↦ envelope_of body ]

-- what json.Unmarshal does to a map[string]any; null leaves it nil
unfoldable pub decode_object : Result Payload → Result Row
decode_object (err e) = err e
decode_object (ok (object row)) = ok row
decode_object (ok null_data) = ok []
decode_object (ok _) = err decode

abbrev pub pos_of : ℤ → ℕ
pos_of (pos n) = n
pos_of (negsuc n) = 0

-- RulePos.UnmarshalJSON; the API's positions are not negative
unfoldable pub rule_from_row : Row → RulePos
rule_from_row m = record {
  pos = pos_of (int_from_any (or_null (field? (codes "pos") m)));
  rule = record {
    action = text_field (codes "action") m;
    type = text_field (codes "type") m;
    proto = text_field (codes "proto") m;
    dest = text_field (codes "dest") m;
    dport = text_field (codes "dport") m;
    comment = text_field (codes "comment") m;
  };
}

-- a []RulePos; null leaves the slice nil, which is `none`
unfoldable pub decode_rules : Result Payload → Result (Option (List RulePos))
decode_rules (err e) = err e
decode_rules (ok (array rows)) = ok (some (map rule_from_row rows))
decode_rules (ok null_data) = ok none
decode_rules (ok _) = err decode

-- reqForm with no `out`: the body is not looked at
unfoldable pub form_reply : Reply → Option Error
form_reply r = elim (checked r) [ err e ↦ some e | ok body ↦ none ]

-- DeleteFirewallRule reports the body as it is
unfoldable pub delete_reply : Reply → Option Error
delete_reply (failed e) = some (transport e)
delete_reply (answer status body) =
    if leb 300 status then some (http_status status body.text) else none

abbrev pub set_unless_empty : Text → Text → Form → Form
set_unless_empty key value form = if text_eq value [] then form else form ++ (key, value) ∷ []

unfoldable pub rule_form : FirewallRule → Form
rule_form r =
    let f = (codes "action", r.rule.action) ∷ (codes "type", r.rule.type) ∷ [] in
    let f = set_unless_empty (codes "proto") r.rule.proto f in
    let f = set_unless_empty (codes "dest") r.rule.dest f in
    let f = set_unless_empty (codes "dport") r.rule.dport f in
    let f = set_unless_empty (codes "comment") r.rule.comment f in
    f ++ (codes "enable", decimal r.enable) ∷ []

unfoldable pub description_form : Text → Text → Form
description_form description digest =
    set_unless_empty (codes "digest") digest ((codes "description", description) ∷ [])

pub record FirewallOptions : Type 0 where
  pub policy_out : Text
  pub enable : ℤ
  pub digest : Text

-- how a string and an int field of a struct are decoded; null and a missing field leave the zero
abbrev decode_text : Option Value → Result Text
decode_text none = ok []
decode_text (some null) = ok []
decode_text (some (str t)) = ok t
decode_text (some _) = err decode

abbrev decode_int : Option Value → Result ℤ
decode_int none = ok (pos 0)
decode_int (some null) = ok (pos 0)
decode_int (some (num z)) = ok z
decode_int (some _) = err decode

infixl 5 ◌>>=◌
abbrev pub ◌>>=◌ {ℓ κ} : {A : Type ℓ} {B : Type κ} → Result A → (A → Result B) → Result B
ok a >>= f = f a
err e >>= f = err e

unfoldable pub options_of_row : Row → Result FirewallOptions
options_of_row row = do
  p ← decode_text (field? (codes "policy_out") row)
  e ← decode_int (field? (codes "enable") row)
  d ← decode_text (field? (codes "digest") row)
  ok (record { policy_out = p; enable = e; digest = d })

abbrev pub no_options : FirewallOptions
no_options = record { policy_out = []; enable = pos 0; digest = [] }

abbrev options_of_payload : Payload → Result FirewallOptions
options_of_payload (object row) = options_of_row row
options_of_payload (array rows) = err decode
options_of_payload _ = ok no_options

-- GetFirewallOptions reads the body whatever the status of the response is
unfoldable pub options_reply : Reply → Result FirewallOptions
options_reply (failed e) = err (transport e)
options_reply (answer status body) = elim body.envelope [
  | none ↦ err decode
  | some p ↦ options_of_payload p
]

pub record VersionInfo : Type 0 where
  pub version : Text
  pub release : Text
  pub rep_id : Text

abbrev pub no_version : VersionInfo
no_version = record { version = []; release = []; rep_id = [] }

unfoldable pub version_of_row : Row → Result VersionInfo
version_of_row row = do
  v ← decode_text (field? (codes "version") row)
  r ← decode_text (field? (codes "release") row)
  i ← decode_text (field? (codes "repoid") row)
  ok (record { version = v; release = r; rep_id = i })

-- what json.Unmarshal does to a VersionInfo; null leaves it as it is
abbrev version_of_payload : Payload → Result VersionInfo
version_of_payload (object row) = version_of_row row
version_of_payload null_data = ok no_version
version_of_payload _ = err decode

unfoldable pub version_reply : Reply → Result VersionInfo
version_reply r = json_reply r >>= version_of_payload

-- ResolveGuestByVMID: the status, and then the rows
unfoldable pub resolve_reply : ℤ → Reply → Result Hit
resolve_reply vmid (failed e) = err (transport e)
resolve_reply vmid (answer status body) =
    if status == 403
    then err cluster_resources_forbidden
    else if not (status == 200)
    then err (http_status status (trim_space body.text))
    else elim body.envelope [
      | some (array rows) ↦ resolve_rows vmid rows
      | some null_data ↦ resolve_rows vmid []
      | _ ↦ err decode
    ]

-- RuleSyncCache; `until` is in nanoseconds, and 0 for the zero time
pub record Cache : Type 0 where
  pub until : ℕ
  pub rules : Option (List RulePos)

-- NewRuleSyncCache, and what `invalidate` leaves
abbrev pub no_cache : Cache
no_cache = record { until = 0; rules = none }

abbrev pub cache_ttl : ℕ
cache_ttl = 2_000_000_000

abbrev pub or_empty : Option (List RulePos) → List RulePos
or_empty none = []
or_empty (some rules) = rules

module _ (srv : Server) (c : Client) where
  open srv use {World, exchange, now}

  -- the world outside, and the cache that the coordinator hands to each call
  pub record State : Type 0 where
    pub world : World
    pub cache : Cache

  unfoldable pub send : Request → State → Reply × State
  send r s = let (reply, w) = exchange c r s.world in (reply, record s { world = w })

  -- GetVersion
  unfoldable pub get_version : State → Result VersionInfo × State
  get_version s = let (reply, s') = send (get version) s in (version_reply reply, s')

  unfoldable pub get_guest_config : Guest → State → Result Row × State
  get_guest_config g s =
      let (reply, s') = send (get (config g)) s in (decode_object (json_reply reply), s')

  unfoldable pub put_description : Guest → Text → Text → State → Option Error × State
  put_description g description digest s =
      let (reply, s') = send (put (config g) (description_form description digest)) s in
      (form_reply reply, s')

  unfoldable pub get_firewall_options : Guest → State → Result FirewallOptions × State
  get_firewall_options g s =
      let (reply, s') = send (get (firewall_options g)) s in (options_reply reply, s')

  unfoldable pub resolve_guest_by_vmid : ℤ → State → Result Hit × State
  resolve_guest_by_vmid vmid s =
      if not (positive vmid)
      then (err (invalid_vmid vmid), s)
      else let (reply, s') = send (get cluster_resources) s in (resolve_reply vmid reply, s')

  unfoldable pub list_firewall_rules : Guest → State → Result (Option (List RulePos)) × State
  list_firewall_rules g s =
      let (reply, s') = send (get (firewall_rules g)) s in (decode_rules (json_reply reply), s')

  unfoldable pub delete_firewall_rule : Guest → ℕ → State → Option Error × State
  delete_firewall_rule g p s =
      let (reply, s') = send (delete (firewall_rule g p)) s in (delete_reply reply, s')

  unfoldable pub create_firewall_rule : Guest → FirewallRule → State → Option Error × State
  create_firewall_rule g r s =
      let (reply, s') = send (post (firewall_rules g) (rule_form r)) s in (form_reply reply, s')

  abbrev pub invalidate : State → State
  invalidate s = record s { cache = no_cache }

  unfoldable pub read_clock : State → ℕ × State
  read_clock s = let (t, w) = now s.world in (t, record s { world = w })

  abbrev pub store_list : Result (Option (List RulePos)) → State → Result (List RulePos) × State
  store_list (err e) s = (err e, s)
  store_list (ok rules) s =
      let (t, s') = read_clock s in
      (ok (or_empty rules), record s' { cache = record { until = t + cache_ttl; rules = rules } })

  abbrev pub refill : Guest → State → Result (List RulePos) × State
  refill g s = let (rules, s') = list_firewall_rules g s in store_list rules s'

  abbrev pub from_cache : Guest → ℕ → Option (List RulePos) → State → Result (List RulePos) × State
  from_cache g t (some rules) s = if ltb t s.cache.until then (ok rules, s) else refill g s
  from_cache g t none s = refill g s

  -- RuleSyncCache.list
  unfoldable pub cached_list : Guest → State → Result (List RulePos) × State
  cached_list g s = let (t, s') = read_clock s in from_cache g t s'.cache.rules s'

-- Opens every operation of this file, for evaluation.
unfoldable pub client_run : Unit {0}
unfolding row_run rules_run resolve_run guest_path checked json_reply decode_object rule_from_row
    decode_rules form_reply delete_reply rule_form description_form options_of_row options_reply
    version_of_row version_reply get_version resolve_reply send get_guest_config put_description
    get_firewall_options resolve_guest_by_vmid list_firewall_rules delete_firewall_rule
    create_firewall_rule read_clock cached_list
client_run = tt
