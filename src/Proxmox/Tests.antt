-- ===== src/Proxmox/Tests.antt =====
-- Runs of the client on a concrete guest, and the theorems at inputs that meet their hypotheses.
use proxmox_dns_firewall_loc.Prelude.{
  Bool, true, false, List, [], ◌∷◌, none, some, inl, inr, ◌≡◌, refl, ap, ◌∙◌, any, pos,
}
use proxmox_dns_firewall_loc.Text.{Text, codes}
use proxmox_dns_firewall_loc.Ip.{Ip, parse_ip, ip_string, ip_run}
use proxmox_dns_firewall_loc.Proxmox.Api.{Row, str, Result, ok, err, guest_vmid_ambiguous}
use proxmox_dns_firewall_loc.Proxmox.Resolve.{Hit, row_hit, resolve_rows, resolve_run}
use proxmox_dns_firewall_loc.Proxmox.Resolve.Sound.{
  IsKind, Describes, SomeRow, resolve_rows-Describes, resolve_rows-only,
}
use proxmox_dns_firewall_loc.Proxmox.Rules.{
  Rule, allow_rule, bootstrap_rule, bootstrap_stale, stale_dest, ip_family_four, ip_family_six,
  ip_family_from_ip, canonical_ip_string, dynamic_rule_matches_dest, rules_run,
}
use proxmox_dns_firewall_loc.Proxmox.Rules.Tags.{ColonFree, other_name_untouched}
use proxmox_dns_firewall_loc.Proxmox.Client.{State, no_cache}
use proxmox_dns_firewall_loc.Proxmox.Reconcile.{
  reconcile_run, Deleted, out_of_fuel, finished, ensure_bootstrap_dns, sync_outbound_allow,
  remove_dynamic_rules, prune_stale_outbound_allows_for_fqdn, remove_all_managed_egress_for_fqdn,
}
use proxmox_dns_firewall_loc.Proxmox.Reconcile.Collect.{numbered, others, reported}
use proxmox_dns_firewall_loc.Proxmox.Reconcile.Model.{rules_of, Coherent}
use proxmox_dns_firewall_loc.Proxmox.Reconcile.Prune.{prune-others, prune-kept}
use proxmox_dns_firewall_loc.Proxmox.Reconcile.Remove.{dest_choice, remove_dynamic_rules-others}
use proxmox_dns_firewall_loc.Proxmox.Reconcile.RemoveAll.{Reports, remove_all-others}
use proxmox_dns_firewall_loc.Proxmox.Reconcile.Bootstrap.{Settled, ensure_bootstrap_dns-Settled}
use proxmox_dns_firewall_loc.Proxmox.Reconcile.Sync.{
  synced, Answers, sync_outbound_allow-synced, sync_outbound_allow_again,
}
use proxmox_dns_firewall_loc.Proxmox.Sample.{
  server, client, guest, state_of, pve, pve-held, state_of-Coherent,
}

abbrev row : Text → Text → Text → Row
row id type node = (codes "id", str id) ∷ (codes "type", str type) ∷ (codes "node", str node) ∷ []

-- one guest twice, without a "vmid", and a guest of another VMID
abbrev cluster : List Row
cluster =
    row (codes "lxc/101") (codes "lxc") (codes "pve")
    ∷ row (codes "qemu/102") (codes "qemu") (codes "pve2")
    ∷ row (codes "LXC/101") [] (codes " pve ")
    ∷ []

abbrev found : Hit
found = record { node = codes "pve"; typ = codes "lxc" }

resolved : resolve_rows (pos 101) cluster ≡ ok found
unfolding resolve_run
resolved = refl

ambiguous :
    resolve_rows (pos 101) (row (codes "qemu/101") (codes "qemu") (codes "pve2") ∷ cluster)
    ≡ err (guest_vmid_ambiguous (pos 101) 2)
unfolding resolve_run
ambiguous = refl

third_row : row_hit (pos 101) (row (codes "LXC/101") [] (codes " pve ")) ≡ some found
unfolding resolve_run
third_row = refl

resolve_rows-Describes_example : IsKind found.typ × SomeRow (Describes (pos 101) found) cluster
resolve_rows-Describes_example = resolve_rows-Describes (pos 101) cluster found resolved

resolve_rows-only_example : found ≡ found
resolve_rows-only_example =
    resolve_rows-only (pos 101) cluster found found resolved (inr (inr (inl third_row)))

abbrev name : Text
name = codes "deb.example"

abbrev allowed : Text → Rule
allowed dest = (allow_rule name dest ip_family_four).rule

-- a rule of another program, two rules for the name, one of another name and a bootstrap rule
abbrev rules : List Rule
rules =
    record (allowed (codes "10.0.0.1")) { comment = codes "ssh" }
    ∷ allowed (codes "192.0.2.1")
    ∷ (allow_rule (codes "other.example") (codes "192.0.2.1") ip_family_four).rule
    ∷ allowed (codes "192.0.2.2")
    ∷ (bootstrap_rule (codes "udp") (codes "10.0.0.53")).rule
    ∷ []

abbrev desired : List Text
desired = codes "192.0.2.2" ∷ []

abbrev pruned : State server client
pruned = record {
  world = record {
    clock = 1_000_000;
    rules =
        record (allowed (codes "10.0.0.1")) { comment = codes "ssh" }
        ∷ (allow_rule (codes "other.example") (codes "192.0.2.1") ip_family_four).rule
        ∷ allowed (codes "192.0.2.2")
        ∷ (bootstrap_rule (codes "udp") (codes "10.0.0.53")).rule
        ∷ [];
    description = [];
  };
  cache = no_cache;
}

prune_run :
    prune_stale_outbound_allows_for_fqdn server client guest name ip_family_four desired
      (state_of rules)
    ≡ ((codes "192.0.2.1" ∷ [], none), pruned)
unfolding reconcile_run
prune_run = refl

abbrev held : State server client → List Rule
held = rules_of server client guest pve

abbrev Fits : State server client → Type 0
Fits = Coherent server client guest pve

prune-others_example :
    (held pruned ≡ others (stale_dest name ip_family_four desired) (held (state_of rules)))
    × (codes "192.0.2.1" ∷ []
        ≡ reported (stale_dest name ip_family_four desired) (held (state_of rules)))
    × Fits pruned
prune-others_example =
    prune-others server client guest pve name ip_family_four desired (state_of rules) pruned
      (codes "192.0.2.1" ∷ []) (state_of-Coherent rules) prune_run

abbrev prune : State server client → Deleted Text × State server client
prune = prune_stale_outbound_allows_for_fqdn server client guest name ip_family_four desired

prune-kept_example :
    (others (stale_dest name ip_family_four desired) (held (prune (state_of rules)).1)
      ≡ others (stale_dest name ip_family_four desired) (held (state_of rules)))
    × Fits (prune (state_of rules)).1
prune-kept_example =
    prune-kept server client guest pve name ip_family_four desired (state_of rules)
      (state_of-Coherent rules)

abbrev address : Text
address = codes "192.0.2.1"

abbrev parsed : Ip
parsed = 0 ∷ 0 ∷ 0 ∷ 0 ∷ 0 ∷ 0xffff ∷ 0xc000 ∷ 0x0201 ∷ []

parse_address : parse_ip address ≡ some parsed
unfolding ip_run
parse_address = refl

remove_run :
    remove_dynamic_rules server client guest name address (state_of rules) ≡ ((true, none), pruned)
unfolding reconcile_run
remove_run = refl

remove_dynamic_rules-others_example :
    (held pruned
      ≡ others
          (dest_choice name (ip_string parsed) (ip_family_from_ip parsed))
          (held (state_of rules)))
    × (true
        ≡ any
            (dynamic_rule_matches_dest name (ip_string parsed) (ip_family_from_ip parsed))
            (held (state_of rules)))
    × Fits pruned
remove_dynamic_rules-others_example =
    remove_dynamic_rules-others server client guest pve name address parsed (state_of rules) pruned
      true parse_address (state_of-Coherent rules) remove_run

abbrev sync : State server client → Result Bool × State server client
sync = sync_outbound_allow server client guest name address

-- the rule is there already
sync_present : (sync (state_of rules)).0 ≡ ok false
unfolding reconcile_run
sync_present = refl

-- the rule is made again, in front
sync_absent : (sync pruned).0 ≡ ok true
unfolding reconcile_run
sync_absent = refl

sync_outbound_allow-synced_example :
    (held (sync (state_of rules)).1
      ≡ synced
          (sync (state_of rules)).0
          (allow_rule name (ip_string parsed) (ip_family_from_ip parsed))
          (held (state_of rules)))
    × Answers (sync (state_of rules)).0 (
        any
          (dynamic_rule_matches_dest name (ip_string parsed) (ip_family_from_ip parsed))
          (held (state_of rules)))
    × Fits (sync (state_of rules)).1
sync_outbound_allow-synced_example =
    sync_outbound_allow-synced server client guest pve name address parsed (state_of rules)
      parse_address (state_of-Coherent rules)

name-ColonFree : ColonFree name
name-ColonFree =
    (refl, (refl, (refl, (refl, (refl, (refl, (refl, (refl, (refl, (refl, (refl, tt)))))))))))

other-ColonFree : ColonFree (codes "other.example")
other-ColonFree = (
  refl,
  (
    refl,
    (refl, (refl, (refl, (refl, (refl, (refl, (refl, (refl, (refl, (refl, (refl, tt))))))))))),
  ),
)

abbrev other_rule : Rule
other_rule = (allow_rule (codes "other.example") address ip_family_four).rule

other_name_untouched_example :
    (stale_dest name ip_family_four desired other_rule ≡ none)
    × (dynamic_rule_matches_dest name address ip_family_four other_rule ≡ false)
other_name_untouched_example =
    other_name_untouched name (codes "other.example") ip_family_four ip_family_four address desired
      other_rule name-ColonFree other-ColonFree (λ e. cc) refl

printed : canonical_ip_string (ip_string parsed) ≡ ip_string parsed
unfolding rules_run
printed = refl

abbrev synced_state : State server client
synced_state = record {
  world = record {
    clock = 2_000_000;
    rules =
        allowed address
        ∷ record (allowed (codes "10.0.0.1")) { comment = codes "ssh" }
        ∷ (allow_rule (codes "other.example") (codes "192.0.2.1") ip_family_four).rule
        ∷ allowed (codes "192.0.2.2")
        ∷ (bootstrap_rule (codes "udp") (codes "10.0.0.53")).rule
        ∷ [];
    description = [];
  };
  cache = no_cache;
}

pruned-Fits : Fits pruned
pruned-Fits rules e = cc

sync_run : sync pruned ≡ (ok true, synced_state)
unfolding reconcile_run
sync_run = refl

sync_outbound_allow_again_example : held (sync synced_state).1 ≡ held synced_state
sync_outbound_allow_again_example =
    sync_outbound_allow_again server client guest pve name address parsed pruned synced_state true
      parse_address name-ColonFree printed pruned-Fits sync_run

abbrev cleared : State server client
cleared = record {
  world = record {
    clock = 2_000_000;
    rules =
        record (allowed (codes "10.0.0.1")) { comment = codes "ssh" }
        ∷ (allow_rule (codes "other.example") (codes "192.0.2.1") ip_family_four).rule
        ∷ (bootstrap_rule (codes "udp") (codes "10.0.0.53")).rule
        ∷ [];
    description = [];
  };
  cache = record {
    until = 2_002_000_000;
    rules = some (
        numbered 0 (
          record (allowed (codes "10.0.0.1")) { comment = codes "ssh" }
          ∷ (allow_rule (codes "other.example") (codes "192.0.2.1") ip_family_four).rule
          ∷ (bootstrap_rule (codes "udp") (codes "10.0.0.53")).rule
          ∷ []));
  };
}

clear_run :
    remove_all_managed_egress_for_fqdn server client guest name (state_of rules)
    ≡ ((codes "192.0.2.1" ∷ codes "192.0.2.2" ∷ [], none), cleared)
unfolding reconcile_run
clear_run = refl

remove_all-others_example :
    (held cleared
      ≡ others
          (stale_dest name ip_family_six [])
          (others (stale_dest name ip_family_four []) (held (state_of rules))))
    × Reports
        (codes "192.0.2.1" ∷ codes "192.0.2.2" ∷ [])
        (reported (stale_dest name ip_family_four []) (held (state_of rules)))
        (reported
          (stale_dest name ip_family_six [])
          (others (stale_dest name ip_family_four []) (held (state_of rules))))
    × Fits cleared
remove_all-others_example =
    remove_all-others server client guest pve name (state_of rules) cleared
      (codes "192.0.2.1" ∷ codes "192.0.2.2" ∷ []) (state_of-Coherent rules) clear_run

-- An old bootstrap rule for each protocol: every round deletes the rule that it has just made.
abbrev old_bootstrap : List Rule
old_bootstrap =
    (bootstrap_rule (codes "udp") (codes "10.0.0.52")).rule
    ∷ (bootstrap_rule (codes "tcp") (codes "10.0.0.52")).rule
    ∷ []

bootstrap_loops :
    (ensure_bootstrap_dns server client guest 6 (codes "10.0.0.53") (state_of old_bootstrap)).0
    ≡ out_of_fuel
unfolding reconcile_run
bootstrap_loops = refl

-- no bootstrap rule yet: one round
bootstrap_first :
    (ensure_bootstrap_dns server client guest 1 (codes "10.0.0.53") (state_of [])).0 ≡ finished none
unfolding reconcile_run
bootstrap_first = refl

-- one of the two rules is there
abbrev half : List Rule
half = (bootstrap_rule (codes "udp") (codes "10.0.0.53")).rule ∷ allowed address ∷ []

half_clean : any (bootstrap_stale (codes "10.0.0.53")) (held (state_of half)) ≡ false
half_clean = ap (any (bootstrap_stale (codes "10.0.0.53"))) (pve-held (state_of half).world) ∙ clean
  where
    clean : any (bootstrap_stale (codes "10.0.0.53")) half ≡ false
    clean = unfold rules_run in refl

ensure_bootstrap_dns-Settled_example :
    Settled
      (ensure_bootstrap_dns server client guest 1 (codes "10.0.0.53") (state_of half)).0
      (codes "10.0.0.53")
      (held (state_of half))
      (held (ensure_bootstrap_dns server client guest 1 (codes "10.0.0.53") (state_of half)).1)
    × Fits (ensure_bootstrap_dns server client guest 1 (codes "10.0.0.53") (state_of half)).1
ensure_bootstrap_dns-Settled_example =
    ensure_bootstrap_dns-Settled server client guest pve 0 (codes "10.0.0.53") (state_of half)
      half_clean (state_of-Coherent half)
