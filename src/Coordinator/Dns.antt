-- ===== src/Coordinator/Dns.antt =====
-- ApplyDNS: the addresses of an answer become rules for an allowed name, and lose them for another.
pub mod Safety
pub mod Denied
pub mod Allowed
pub mod Covered
pub mod Coverage
use proxmox_dns_firewall_loc.Proxmox.Reconcile.{reconcile_run}
use proxmox_dns_firewall_loc.Prelude.{
  ℕ, Bool, true, false, not, ◌&&◌, ◌||◌, List, [], ◌∷◌, ◌++◌, Option, none, some, ◌==◌,
  if◌then◌else◌, any,
}
use proxmox_dns_firewall_loc.Text.{Text, codes, text_eq, contains, add_name}
use proxmox_dns_firewall_loc.Ip.{Ip, parse_ip, ip_string, is_four}
use proxmox_dns_firewall_loc.Allowlist.{normalize, parse_allowed, allowlist_run}
use proxmox_dns_firewall_loc.Config.{is_loaded}
use proxmox_dns_firewall_loc.Proxmox.Api.{Client, Server}
use proxmox_dns_firewall_loc.Proxmox.Rules.{ip_family_four, ip_family_six}
use proxmox_dns_firewall_loc.Coordinator.Changes.{
  split_allow_lines, canon_ips_unique_stable, changes_run,
}
use proxmox_dns_firewall_loc.Coordinator.State.{
  ActivityRow, Coordinator, put_addresses, enqueue_fw_activities, state_run,
}
use proxmox_dns_firewall_loc.Coordinator.Firewall.{
  Logged, sync_address, remove_address, prune_family,
}

-- dns.RR; an address is `none` if it has no length of an address
pub data Answer : Type 0 where
  a : Option Ip → Answer
  aaaa : Option Ip → Answer
  other_record : Answer

-- dns.Msg, as far as ApplyDNS reads it
pub record Message : Type 0 where
  pub rcode : ℕ
  pub answer : List Answer

abbrev pub is_a : Answer → Bool
is_a (a ip) = true
is_a _ = false

abbrev pub is_aaaa : Answer → Bool
is_aaaa (aaaa ip) = true
is_aaaa _ = false

-- net.IP.String
abbrev pub address_text : Option Ip → Text
address_text none = codes "<nil>"
address_text (some ip) = ip_string ip

-- the texts that one record adds to `ips`; an A record must hold an IPv4 address
abbrev pub answer_ips : Answer → List Text
answer_ips (a none) = []
answer_ips (a (some ip)) = if is_four ip then ip_string ip ∷ [] else []
answer_ips (aaaa ip) = address_text ip ∷ []
answer_ips other_record = []

unfoldable pub ips_of : List Answer → List Text
ips_of [] = []
ips_of (rr ∷ answer) = answer_ips rr ++ ips_of answer

abbrev pub add_desired : (Ip → Bool) → Option Ip → List Text → List Text
add_desired wanted none out = out
add_desired wanted (some p) out = if wanted p then add_name out (ip_string p) else out

-- desired4 and desired6
unfoldable pub desired_from : (Ip → Bool) → List Text → List Text → List Text
desired_from wanted out [] = out
desired_from wanted out (ip ∷ ips) = desired_from wanted (add_desired wanted (parse_ip ip) out) ips

abbrev pub is_six : Ip → Bool
is_six ip = not (is_four ip)

-- the name is allowed by the list that was merged last
abbrev pub is_allowed : Text → Text → Bool
is_allowed merged_allow fqdn = contains (parse_allowed (split_allow_lines merged_allow)) fqdn

-- the addresses that are kept for a name that is not allowed
abbrev pub keep_rejected : {srv : Server} → Text → List Text → Coordinator srv → Coordinator srv
keep_rejected fqdn [] c = c
keep_rejected fqdn (ip ∷ canon) c = record c {
  rejected_resolve_ips = put_addresses c.rejected_resolve_ips fqdn (ip ∷ canon);
}

abbrev pub note_denied : {srv : Server} → Text → List Text → Coordinator srv → Coordinator srv
note_denied fqdn ips c =
    keep_rejected fqdn (canon_ips_unique_stable ips) (record c { seen = add_name c.seen fqdn })

module _ (srv : Server) (px : Client) where
  abbrev pub apply_address : Bool → Text → Text → Option Ip → Logged srv px → Logged srv px
  apply_address allowed fqdn ip none l = l
  apply_address true fqdn ip (some p) l = sync_address srv px fqdn ip l
  apply_address false fqdn ip (some p) l = remove_address srv px fqdn ip l

  unfoldable pub apply_addresses : Bool → Text → List Text → Logged srv px → Logged srv px
  apply_addresses allowed fqdn [] l = l
  apply_addresses allowed fqdn (ip ∷ ips) l =
      apply_addresses allowed fqdn ips (apply_address allowed fqdn ip (parse_ip ip) l)

  abbrev pub prune_when : Bool → Text → Text → List Text → Text → Logged srv px → Logged srv px
  prune_when false fqdn family desired before l = l
  prune_when true fqdn family desired before l = prune_family srv px fqdn family desired before l

  -- from the loop over the addresses on
  unfoldable pub reconcile_answer : Bool → Text → List Answer → Coordinator srv → Logged srv px
  reconcile_answer allowed fqdn answer c =
      let ips = ips_of answer in
      let l = apply_addresses allowed fqdn ips ([], c) in
      let l =
        prune_when (allowed && any is_a answer) fqdn ip_family_four (desired_from is_four [] ips)
          (codes "prune ipv4: ") l in
      prune_when (allowed && any is_aaaa answer) fqdn ip_family_six (desired_from is_six [] ips)
        (codes "prune ipv6: ") l

module _ (srv : Server) where
  abbrev pub log_rows : (px : Client) → Logged srv px → Coordinator srv
  log_rows px (rows, c) = enqueue_fw_activities srv rows c

  abbrev pub apply_answer : Text → List Answer → Client → Coordinator srv → Coordinator srv
  apply_answer fqdn answer px c =
      if is_allowed c.last_merged_allow_text fqdn
      then log_rows px (reconcile_answer srv px true fqdn answer c)
      else log_rows px
          (reconcile_answer srv px false fqdn answer (note_denied fqdn (ips_of answer) c))

  abbrev pub apply_client : Text → List Answer → Option Client → Coordinator srv → Coordinator srv
  apply_client fqdn answer none c = c
  apply_client fqdn answer (some px) c =
      if is_loaded c.settings then apply_answer fqdn answer px c else c

  abbrev pub apply_message : Text → Option Message → Coordinator srv → Coordinator srv
  apply_message qname none c = c
  apply_message qname (some msg) c =
      if msg.rcode == 0 then apply_client (normalize qname) msg.answer c.px c else c

  unfoldable pub apply_dns : Text → Option Message → Coordinator srv → Coordinator srv
  apply_dns qname msg c = apply_message qname msg c

-- Opens every operation of this file, for evaluation.
unfoldable pub dns_run : Unit {0}
unfolding reconcile_run state_run allowlist_run changes_run ips_of desired_from apply_addresses
    reconcile_answer apply_dns
dns_run = tt
