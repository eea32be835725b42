-- ===== src/Proxmox/Sample.antt =====
-- A concrete API for one guest, which keeps a list of rules, and the proof that it behaves as the
-- client relies on.
use proxmox_dns_firewall_loc.Prelude.{
  ℕ, ◌+◌, true, List, [], ◌∷◌, Option, some, if◌then◌else◌, ◌≡◌, refl, sym, ap, ◌∙◌, map, pos,
}
use proxmox_dns_firewall_loc.Text.{Text, codes, text_eq}
use proxmox_dns_firewall_loc.Proxmox.Api.{
  num, str, Row, null_data, object, array, Reply, answer, Guest, firewall_options, firewall_rules,
  firewall_rule, config, Form, Request, get, delete, put, post, Client, Server, ok,
}
use proxmox_dns_firewall_loc.Proxmox.Rules.{Rule, RulePos, FirewallRule}
use proxmox_dns_firewall_loc.Proxmox.Row.{row_run}
use proxmox_dns_firewall_loc.Proxmox.Client.{
  json_reply, decode_rules, checked, rule_from_row, rule_form, form_reply, delete_reply, or_empty,
  State, no_cache,
}
use proxmox_dns_firewall_loc.Proxmox.Reconcile.Collect.{numbered, remove_at}
use proxmox_dns_firewall_loc.Proxmox.Reconcile.Model.{Pve, Coherent}

pub record World : Type 0 where
  pub clock : ℕ
  pub rules : List Rule
  pub description : Text

abbrev row_of : ℕ → Rule → Row
row_of i r =
    (codes "pos", num (pos i))
    ∷ (codes "action", str r.action)
    ∷ (codes "type", str r.type)
    ∷ (codes "proto", str r.proto)
    ∷ (codes "dest", str r.dest)
    ∷ (codes "dport", str r.dport)
    ∷ (codes "comment", str r.comment)
    ∷ []

abbrev rows_from : ℕ → List Rule → List Row
rows_from i [] = []
rows_from i (r ∷ rs) = row_of i r ∷ rows_from (i + 1) rs

abbrev form_text : Text → Form → Text
form_text key [] = []
form_text key ((k, v) ∷ form) = if text_eq k key then v else form_text key form

abbrev rule_of_form : Form → Rule
rule_of_form form = record {
  action = form_text (codes "action") form;
  type = form_text (codes "type") form;
  proto = form_text (codes "proto") form;
  dest = form_text (codes "dest") form;
  dport = form_text (codes "dport") form;
  comment = form_text (codes "comment") form;
}

abbrev accepted : Reply
accepted = answer 200 (record { text = []; envelope = some null_data })

-- each request takes a millisecond
abbrev pub exchange : Client → Request → World → Reply × World
exchange c (get (firewall_rules g)) w = (
  answer 200 (record { text = []; envelope = some (array (rows_from 0 w.rules)) }),
  record w { clock = w.clock + 1_000_000 },
)
exchange c (get (config g)) w = (
  answer 200 (record {
    text = [];
    envelope = some (object ((codes "description", str w.description) ∷ []));
  }),
  w,
)
exchange c (get (firewall_options g)) w = (
  answer 200 (record {
    text = [];
    envelope = some (object ((codes "policy_out", str (codes "drop")) ∷ []));
  }),
  w,
)
exchange c (get e) w = (accepted, w)
exchange c (delete (firewall_rule g p)) w = (accepted, record w { rules = remove_at p w.rules })
exchange c (delete e) w = (accepted, w)
exchange c (put (config g) form) w =
    (accepted, record w { description = form_text (codes "description") form })
exchange c (put e form) w = (accepted, w)
exchange c (post (firewall_rules g) form) w =
    (accepted, record w { rules = rule_of_form form ∷ w.rules })
exchange c (post e form) w = (accepted, w)

abbrev pub server : Server
server = record { World = World; exchange = exchange; now = λ w. (w.clock, w) }

abbrev pub client : Client
client = record {
  base = codes "https://10.0.0.1:8006/api2/json";
  token_id = codes "dns@pve!lockdown";
  token_secret = codes "secret";
  insecure_tls = true;
}

abbrev pub guest : Guest
guest = record { lxc = true; node = codes "pve"; vmid = pos 101 }

abbrev pub state_of : List Rule → State server client
state_of rs = record {
  world = record { clock = 0; rules = rs; description = [] };
  cache = no_cache;
}

map-rows_from : (i : ℕ) (rs : List Rule) → map rule_from_row (rows_from i rs) ≡ numbered i rs
unfolding rule_from_row row_run
map-rows_from i [] = refl
map-rows_from i (r ∷ rs) = ap (◌∷◌ (record { pos = i; rule = r })) (map-rows_from (i + 1) rs)

-- Each of the four fields that may be empty is left out of the form, or not.
rule_of_form-fields :
    (action type proto dest dport comment : Text) (e : ℕ)
    → let r : Rule = record {
      action = action;
      type = type;
      proto = proto;
      dest = dest;
      dport = dport;
      comment = comment;
    } in
      rule_of_form (rule_form (record { rule = r; enable = e })) ≡ r
unfolding rule_form row_run
rule_of_form-fields a t [] [] [] [] e = refl
rule_of_form-fields a t [] [] [] (x3 ∷ t3) e = refl
rule_of_form-fields a t [] [] (x2 ∷ t2) [] e = refl
rule_of_form-fields a t [] [] (x2 ∷ t2) (x3 ∷ t3) e = refl
rule_of_form-fields a t [] (x1 ∷ t1) [] [] e = refl
rule_of_form-fields a t [] (x1 ∷ t1) [] (x3 ∷ t3) e = refl
rule_of_form-fields a t [] (x1 ∷ t1) (x2 ∷ t2) [] e = refl
rule_of_form-fields a t [] (x1 ∷ t1) (x2 ∷ t2) (x3 ∷ t3) e = refl
rule_of_form-fields a t (x0 ∷ t0) [] [] [] e = refl
rule_of_form-fields a t (x0 ∷ t0) [] [] (x3 ∷ t3) e = refl
rule_of_form-fields a t (x0 ∷ t0) [] (x2 ∷ t2) [] e = refl
rule_of_form-fields a t (x0 ∷ t0) [] (x2 ∷ t2) (x3 ∷ t3) e = refl
rule_of_form-fields a t (x0 ∷ t0) (x1 ∷ t1) [] [] e = refl
rule_of_form-fields a t (x0 ∷ t0) (x1 ∷ t1) [] (x3 ∷ t3) e = refl
rule_of_form-fields a t (x0 ∷ t0) (x1 ∷ t1) (x2 ∷ t2) [] e = refl
rule_of_form-fields a t (x0 ∷ t0) (x1 ∷ t1) (x2 ∷ t2) (x3 ∷ t3) e = refl

rule_of_form-rule_form : (r : FirewallRule) → rule_of_form (rule_form r) ≡ r.rule
rule_of_form-rule_form r =
    rule_of_form-fields r.rule.action r.rule.type r.rule.proto r.rule.dest r.rule.dport
      r.rule.comment r.enable

-- The concrete API is one that the client can rely on.
pub pve : Pve server client guest
unfolding json_reply checked decode_rules form_reply delete_reply
pve = record {
  held = λ w. w.rules;
  now_held = λ w. refl;
  list_held = λ w. refl;
  list_rules = λ w rules e. sym (ap or_empty (ok-injective e)) ∙ map-rows_from 0 w.rules;
  delete_held = λ p w e. refl;
  delete_failed = λ p w e k. cc;
  create_held = λ r w e. ap (λ rule. rule ∷ w.rules) (rule_of_form-rule_form r);
  create_failed = λ r w e k. cc;
  config_held = λ w. refl;
  options_held = λ w. refl;
  put_held = λ form w. refl;
}
  where
    ok-injective : {a b : Option (List RulePos)} → ok a ≡ ok b → a ≡ b
    ok-injective e = cc

pub pve-held : (w : World) → pve.held w ≡ w.rules
unfolding pve
pve-held w = refl

pub state_of-Coherent : (rs : List Rule) → Coherent server client guest pve (state_of rs)
state_of-Coherent rs rules e = cc
