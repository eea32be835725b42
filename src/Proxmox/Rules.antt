-- ===== src/Proxmox/Rules.antt =====
-- Firewall rules, the comments that mark the program's own, and the tests on them.
pub mod Tags
use proxmox_dns_firewall_loc.Prelude.{
  ℕ, Bool, true, false, not, ◌&&◌, ◌||◌, List, [], ◌∷◌, ◌++◌, Option, none, some, if◌then◌else◌,
  map,
}
use proxmox_dns_firewall_loc.Text.{
  Text, codes, text_eq, has_prefix, strip_prefix, equal_fold, contains,
}
use proxmox_dns_firewall_loc.Ip.{Ip, parse_ip, ip_string, is_four, ip_run}

-- RulePos without its position
pub record Rule : Type 0 where
  pub action : Text
  pub type : Text
  pub proto : Text
  pub dest : Text
  pub dport : Text
  pub comment : Text

-- RulePos; the API counts the positions of a guest's rules from 0
pub record RulePos : Type 0 where
  pub pos : ℕ
  pub rule : Rule
  pub open rule use *

-- FirewallRule; the fields that the program never sets (sport, log, digest) are empty
pub record FirewallRule : Type 0 where
  pub rule : Rule
  pub enable : ℕ

abbrev pub rule_tag_prefix : Text
rule_tag_prefix = codes "pve-dns-lockdown:"

abbrev pub bootstrap_comment : Text
bootstrap_comment = codes "pve-dns-lockdown:bootstrap:dns-server"

abbrev pub ip_family_four : Text
ip_family_four = codes "ipv4"

abbrev pub ip_family_six : Text
ip_family_six = codes "ipv6"

abbrev pub accept : Text
accept = codes "ACCEPT"

abbrev pub out : Text
out = codes "out"

unfoldable pub ip_family_from_ip : Ip → Text
ip_family_from_ip ip = if is_four ip then ip_family_four else ip_family_six

unfoldable pub canonical_ip_string : Text → Text
canonical_ip_string s = elim (parse_ip s) [ none ↦ s | some ip ↦ ip_string ip ]

abbrev pub tag_of : Text → Text
tag_of fqdn = rule_tag_prefix ++ (fqdn ++ b':' ∷ [])

unfoldable pub fqdn_outbound_tag : Text → Text → Text
fqdn_outbound_tag fqdn family = rule_tag_prefix ++ (fqdn ++ b':' ∷ family)

abbrev pub is_family : Text → Bool
is_family t = text_eq t ip_family_four || text_eq t ip_family_six

-- the comment behind the tag, for a family: the family itself, or an address of it (legacy)
unfoldable pub managed_rest : Text → Text → Bool
managed_rest rest family =
    if is_family rest
    then text_eq rest family
    else elim (parse_ip rest) [ none ↦ false | some lip ↦ text_eq (ip_family_from_ip lip) family ]

unfoldable pub rule_managed_for_fqdn_family : Text → Text → Text → Bool
rule_managed_for_fqdn_family comment fqdn family =
    if not (has_prefix comment (tag_of fqdn))
    then false
    else managed_rest (strip_prefix comment (tag_of fqdn)) family

-- the same for one destination: a legacy address must be that destination
unfoldable pub matching_rest : Text → Text → Text → Bool
matching_rest rest canon family =
    if is_family rest then text_eq rest family else elim (parse_ip rest) [
      | none ↦ false
      | some lip ↦ text_eq (ip_family_from_ip lip) family && text_eq (ip_string lip) canon
    ]

-- a rule with a comment of the program that is no bootstrap rule
abbrev pub is_tagged : Rule → Bool
is_tagged r = has_prefix r.comment rule_tag_prefix && not (text_eq r.comment bootstrap_comment)

abbrev pub is_accept_out : Rule → Bool
is_accept_out r = equal_fold r.action accept && equal_fold r.type out

unfoldable pub dynamic_rule_matches_dest : Text → Text → Text → Rule → Bool
dynamic_rule_matches_dest fqdn canon family r =
    if not (is_tagged r)
    then false
    else if not (is_accept_out r)
    then false
    else if not (text_eq (canonical_ip_string r.dest) canon)
    then false
    else if not (has_prefix r.comment (tag_of fqdn))
    then false
    else matching_rest (strip_prefix r.comment (tag_of fqdn)) canon family

-- the body of the loop of PruneStaleOutboundAllowsForFQDN: the destination to report, if the rule
-- is to go
unfoldable pub stale_dest : Text → Text → List Text → Rule → Option Text
stale_dest fqdn family desired r =
    if not (is_tagged r)
    then none
    else if not (is_accept_out r)
    then none
    else if not (rule_managed_for_fqdn_family r.comment fqdn family)
    then none
    else elim (parse_ip r.dest) [
      | none ↦ none
      | some ip ↦
          if not (text_eq (ip_family_from_ip ip) family)
          then none
          else if contains desired (ip_string ip)
          then none
          else some (ip_string ip)
    ]

-- the rule that SyncOutboundAllow creates
abbrev pub allow_rule : Text → Text → Text → FirewallRule
allow_rule fqdn canon family = record {
  rule = record {
    action = accept;
    type = out;
    proto = [];
    dest = canon;
    dport = [];
    comment = fqdn_outbound_tag fqdn family;
  };
  enable = 1;
}

-- the rule that EnsureBootstrapDNS creates
abbrev pub bootstrap_rule : Text → Text → FirewallRule
bootstrap_rule proto dest = record {
  rule = record {
    action = accept;
    type = out;
    proto = proto;
    dest = dest;
    dport = codes "53";
    comment = bootstrap_comment;
  };
  enable = 1;
}

unfoldable pub bootstrap_matches : Text → Text → Rule → Bool
bootstrap_matches proto want r =
    text_eq r.comment bootstrap_comment
    && equal_fold r.proto proto
    && text_eq r.dport (codes "53")
    && text_eq r.dest want

unfoldable pub bootstrap_stale : Text → Rule → Bool
bootstrap_stale want r =
    text_eq r.comment bootstrap_comment && not (text_eq r.dest []) && not (text_eq r.dest want)

-- Opens every operation of this file, for evaluation.
unfoldable pub rules_run : Unit {0}
unfolding ip_run ip_family_from_ip canonical_ip_string fqdn_outbound_tag managed_rest
    rule_managed_for_fqdn_family matching_rest dynamic_rule_matches_dest stale_dest
    bootstrap_matches bootstrap_stale
rules_run = tt
