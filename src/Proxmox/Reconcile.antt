-- ===== src/Proxmox/Reconcile.antt =====
-- SyncOutboundAllow, RemoveDynamicRules, PruneStaleOutboundAllowsForFQDN,
-- RemoveAllManagedEgressForFQDN and EnsureBootstrapDNS.
pub mod Collect
pub mod Model
pub mod Delete
pub mod Prune
pub mod Remove
pub mod RemoveAll
pub mod Sync
pub mod Bootstrap
use proxmox_dns_firewall_loc.Prelude.{
  ℕ, zero, suc, Bool, true, false, not, ◌||◌, List, [], ◌∷◌, ◌++◌, Option, none, some, ltb, ◌==◌,
  if◌then◌else◌, any,
}
use proxmox_dns_firewall_loc.Text.{Text, codes, text_eq, contains, add_name, sort_texts}
use proxmox_dns_firewall_loc.Ip.{Ip, parse_ip, ip_string}
use proxmox_dns_firewall_loc.Proxmox.Api.{
  Guest, Error, invalid_ip, invalid_family, Result, ok, err, Client, Server,
}
use proxmox_dns_firewall_loc.Proxmox.Rules.{
  Rule, RulePos, ip_family_four, ip_family_six, is_family, ip_family_from_ip,
  dynamic_rule_matches_dest, stale_dest, allow_rule, bootstrap_rule, bootstrap_matches,
  bootstrap_stale,
}
use proxmox_dns_firewall_loc.Proxmox.Client.{
  State, cached_list, create_firewall_rule, delete_firewall_rule, invalidate, client_run,
}

module _ {V : Type 0} where
  -- `todel[pos] = v`, with the positions kept in the order of the sort, the greatest first
  unfoldable pub put_pos : ℕ → V → List (ℕ × V) → List (ℕ × V)
  put_pos p v [] = (p, v) ∷ []
  put_pos p v ((q, w) ∷ todel) =
      if ltb q p
      then (p, v) ∷ (q, w) ∷ todel
      else if q == p
      then (p, v) ∷ todel
      else (q, w) ∷ put_pos p v todel

  abbrev pub put_if : ℕ → Option V → List (ℕ × V) → List (ℕ × V)
  put_if p none todel = todel
  put_if p (some v) todel = put_pos p v todel

  -- the loop over the rules that fills `todel`
  unfoldable pub collect : (Rule → Option V) → List (ℕ × V) → List RulePos → List (ℕ × V)
  collect choose todel [] = todel
  collect choose todel (r ∷ rules) = collect choose (put_if r.pos (choose r.rule) todel) rules

abbrev pub when : Bool → Option (Unit {0})
when true = some tt
when false = none

-- `uniq` and `removed` of RemoveAllManagedEgressForFQDN
unfoldable pub unique_texts : List Text → List Text → List Text
unique_texts removed [] = removed
unique_texts removed (ip ∷ ips) =
    let removed' = removed ++ ip ∷ [] in
    unique_texts (if text_eq ip [] || contains removed ip then removed else removed') ips

abbrev pub has_rule : (Rule → Bool) → List RulePos → Bool
has_rule p rules = any (λ r. p r.rule) rules

abbrev pub first_rule : (Rule → Bool) → List RulePos → Option ℕ
first_rule p [] = none
first_rule p (r ∷ rules) = if p r.rule then some r.pos else first_rule p rules

-- the recursion of EnsureBootstrapDNS on fuel
pub data Bounded : Type 0 where
  out_of_fuel : Bounded
  finished : Option Error → Bounded

-- what a loop that deletes leaves: what it deleted, and the error that stopped it
abbrev pub Deleted : Type 0 → Type 0
Deleted V = List V × Option Error

abbrev pub deleted_one : {V : Type 0} → V → Deleted V → Deleted V
deleted_one v (vs, e) = (v ∷ vs, e)

-- the result of RemoveAllManagedEgressForFQDN from the results of its two calls
abbrev pub removed_all : List Text → Deleted Text → Deleted Text
removed_all r4 (r6, some e) = (r4, some e)
removed_all r4 (r6, none) = (sort_texts (unique_texts [] (r4 ++ r6)), none)

module _ (srv : Server) (c : Client) (g : Guest) where
  abbrev pub sync_created : Option Error → State srv c → Result Bool × State srv c
  sync_created (some e) s = (err e, s)
  sync_created none s = (ok true, invalidate srv c s)

  abbrev pub sync_listed :
      Text → Text → Text → Result (List RulePos) → State srv c → Result Bool × State srv c
  sync_listed fqdn canon family (err e) s = (err e, s)
  sync_listed fqdn canon family (ok rules) s =
      let (created, s') = create_firewall_rule srv c g (allow_rule fqdn canon family) s in
      if has_rule (dynamic_rule_matches_dest fqdn canon family) rules
      then (ok false, s)
      else sync_created created s'

  abbrev pub sync_parsed : Text → Text → Option Ip → State srv c → Result Bool × State srv c
  sync_parsed fqdn ip none s = (err (invalid_ip ip), s)
  sync_parsed fqdn ip (some parsed) s =
      let (listed, s') = cached_list srv c g s in
      sync_listed fqdn (ip_string parsed) (ip_family_from_ip parsed) listed s'

  unfoldable pub sync_outbound_allow : Text → Text → State srv c → Result Bool × State srv c
  sync_outbound_allow fqdn ip s = sync_parsed fqdn ip (parse_ip ip) s

  -- the loops `for _, pos := range poses`
  unfoldable pub delete_each : {V : Type 0} → List (ℕ × V) → State srv c → Deleted V × State srv c
  delete_each [] s = (([], none), s)
  delete_each ((p, v) ∷ todel) s =
      let (failed, s1) = delete_firewall_rule srv c g p s in
      let (rest, s2) = delete_each todel (invalidate srv c s1) in
      elim failed [ some e ↦ (([], some e), s1) | none ↦ (deleted_one v rest, s2) ]

  abbrev pub remove_from : List (ℕ × Unit {0}) → State srv c → (Bool × Option Error) × State srv c
  remove_from [] s = ((false, none), s)
  remove_from (t ∷ todel) s = let ((gone, e), s') = delete_each (t ∷ todel) s in ((true, e), s')

  abbrev pub remove_listed :
      Text → Text → Text → Result (List RulePos) → State srv c → (Bool × Option Error) × State srv c
  remove_listed fqdn canon family (err e) s = ((false, some e), s)
  remove_listed fqdn canon family (ok rules) s =
      remove_from (collect (λ r. when (dynamic_rule_matches_dest fqdn canon family r)) [] rules) s

  abbrev pub remove_parsed : Text → Option Ip → State srv c → (Bool × Option Error) × State srv c
  remove_parsed fqdn none s = ((false, none), s)
  remove_parsed fqdn (some parsed) s =
      let (listed, s') = cached_list srv c g s in
      remove_listed fqdn (ip_string parsed) (ip_family_from_ip parsed) listed s'

  unfoldable pub remove_dynamic_rules :
      Text → Text → State srv c → (Bool × Option Error) × State srv c
  remove_dynamic_rules fqdn ip s = remove_parsed fqdn (parse_ip ip) s

  abbrev pub prune_listed :
      Text → Text → List Text → Result (List RulePos) → State srv c → Deleted Text × State srv c
  prune_listed fqdn family desired (err e) s = (([], some e), s)
  prune_listed fqdn family desired (ok rules) s =
      delete_each (collect (stale_dest fqdn family desired) [] rules) s

  unfoldable pub prune_stale_outbound_allows_for_fqdn :
      Text → Text → List Text → State srv c → Deleted Text × State srv c
  prune_stale_outbound_allows_for_fqdn fqdn family desired s =
      let (listed, s') = cached_list srv c g s in
      if not (is_family family)
      then (([], some (invalid_family family)), s)
      else prune_listed fqdn family desired listed s'

  abbrev pub remove_six : Text → Deleted Text → State srv c → Deleted Text × State srv c
  remove_six fqdn (r4, some e) s = (([], some e), s)
  remove_six fqdn (r4, none) s =
      let (r6, s') = prune_stale_outbound_allows_for_fqdn fqdn ip_family_six [] s in
      (removed_all r4 r6, s')

  unfoldable pub remove_all_managed_egress_for_fqdn :
      Text → State srv c → Deleted Text × State srv c
  remove_all_managed_egress_for_fqdn fqdn s =
      let (r4, s') = prune_stale_outbound_allows_for_fqdn fqdn ip_family_four [] s in
      remove_six fqdn r4 s'

  abbrev pub ensure_made : Option Error → State srv c → Option Error × State srv c
  ensure_made (some e) s = (some e, s)
  ensure_made none s = (none, invalidate srv c s)

  -- the body of the loop over "udp" and "tcp"; `rules` is the list read before the loop
  unfoldable pub ensure_proto :
      Text → List RulePos → Text → State srv c → Option Error × State srv c
  ensure_proto want rules proto s =
      let (created, s') = create_firewall_rule srv c g (bootstrap_rule proto want) s in
      if has_rule (bootstrap_matches proto want) rules then (none, s) else ensure_made created s'

  -- the end of a round of EnsureBootstrapDNS; `again` is the call of the function by itself
  abbrev pub bootstrap_deleted :
      (State srv c → Bounded × State srv c) → Option Error → State srv c → Bounded × State srv c
  bootstrap_deleted again (some e) s = (finished (some e), s)
  bootstrap_deleted again none s = again (invalidate srv c s)

  -- with the position of the first stale rule
  abbrev pub bootstrap_clean :
      (State srv c → Bounded × State srv c) → Option ℕ → State srv c → Bounded × State srv c
  bootstrap_clean again none s = (finished none, s)
  bootstrap_clean again (some p) s =
      let (gone, s') = delete_firewall_rule srv c g p s in bootstrap_deleted again gone s'

  abbrev pub bootstrap_tcp :
      (State srv c → Bounded × State srv c)
      → Text
      → List RulePos
      → Option Error
      → State srv c
      → Bounded × State srv c
  bootstrap_tcp again want rules (some e) s = (finished (some e), s)
  bootstrap_tcp again want rules none s =
      bootstrap_clean again (first_rule (bootstrap_stale want) rules) s

  abbrev pub bootstrap_udp :
      (State srv c → Bounded × State srv c)
      → Text
      → List RulePos
      → Option Error
      → State srv c
      → Bounded × State srv c
  bootstrap_udp again want rules (some e) s = (finished (some e), s)
  bootstrap_udp again want rules none s =
      let (tcp, s') = ensure_proto want rules (codes "tcp") s in
      bootstrap_tcp again want rules tcp s'

  abbrev pub bootstrap_listed :
      (State srv c → Bounded × State srv c)
      → Text
      → Result (List RulePos)
      → State srv c
      → Bounded × State srv c
  bootstrap_listed again want (err e) s = (finished (some e), s)
  bootstrap_listed again want (ok rules) s =
      let (udp, s') = ensure_proto want rules (codes "udp") s in
      bootstrap_udp again want rules udp s'

  -- EnsureBootstrapDNS; each round that finds a stale rule calls the function again
  unfoldable pub ensure_bootstrap_dns : ℕ → Text → State srv c → Bounded × State srv c
  ensure_bootstrap_dns zero want s = (out_of_fuel, s)
  ensure_bootstrap_dns (suc fuel) want s =
      let (listed, s') = cached_list srv c g s in
      bootstrap_listed (ensure_bootstrap_dns fuel want) want listed s'

-- Opens every operation of this file, for evaluation.
unfoldable pub reconcile_run : Unit {0}
unfolding client_run put_pos collect unique_texts sync_outbound_allow delete_each
    remove_dynamic_rules prune_stale_outbound_allows_for_fqdn remove_all_managed_egress_for_fqdn
    ensure_proto ensure_bootstrap_dns
reconcile_run = tt
