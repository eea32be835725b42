-- ===== src/Coordinator/Tests.antt =====
-- Runs of the coordinator on a concrete guest, and the theorems at inputs that meet their
-- hypotheses.
use proxmox_dns_firewall_loc.Coordinator.Dns.Covered.{is_failed}
use proxmox_dns_firewall_loc.Coordinator.Dns.Coverage.{reconcile_answer-Covers}
use proxmox_dns_firewall_loc.Proxmox.Rules.Tags.{ColonFree}
use proxmox_dns_firewall_loc.Ip.{Ip, parse_ip, ip_string, ip_run}
use proxmox_dns_firewall_loc.Prelude.{
  ◌≤◌, Bool, true, false, ◌&&◌, List, [], ◌∷◌, ◌++◌, Option, some, if◌then◌else◌, ◌≡◌, refl, ap,
  ◌∙◌, any, positive, length, drop, map, ◌||◌,
}
use proxmox_dns_firewall_loc.Text.{Text, codes, contains, text_eq}
use proxmox_dns_firewall_loc.Allowlist.{parse_allowed, parse_listed, normalize}
use proxmox_dns_firewall_loc.Config.{
  cleaned, loaded_settings, path_or_default, load, save, config_run,
}
use proxmox_dns_firewall_loc.Config.Laws.{load-save}
use proxmox_dns_firewall_loc.Proxmox.Api.{Error, transport, failed, Server}
use proxmox_dns_firewall_loc.Proxmox.Resolve.{is_guest_kind}
use proxmox_dns_firewall_loc.Proxmox.Rules.{
  Rule, allow_rule, ip_family_four, bootstrap_rule, rules_run, canonical_ip_string,
  dynamic_rule_matches_dest, ip_family_from_ip,
}
use proxmox_dns_firewall_loc.Proxmox.Client.{no_cache}
use proxmox_dns_firewall_loc.Coordinator.Sample.{
  disk, patch, settings, name, rules, coordinator, coordinator-Ready,
}
use proxmox_dns_firewall_loc.Proxmox.Sample.{server, client, guest, pve, pve-held}
use proxmox_dns_firewall_loc.Coordinator.Changes.{
  split_allow_lines, newly_allowed_fqdns, canon_ips_unique_stable, changes_run,
}
use proxmox_dns_firewall_loc.Coordinator.Changes.Differences.{
  IsDifference, IsUnique, is_canonical_of, canon_ips_unique_stable-canonical,
}
use proxmox_dns_firewall_loc.Coordinator.State.{
  ActivityRow, allow_added, Coordinator, max_fw_activity_lines, stamp, enqueue_fw_activities,
}
use proxmox_dns_firewall_loc.Coordinator.State.Activity.{lost, enqueue_fw_activities-log}
use proxmox_dns_firewall_loc.Coordinator.Firewall.{row_for}
use proxmox_dns_firewall_loc.Coordinator.Firewall.Foreign.{foreign}
use proxmox_dns_firewall_loc.Coordinator.Firewall.Steps.{held, Ready}
use proxmox_dns_firewall_loc.Coordinator.Refresh.{blank_view}
use proxmox_dns_firewall_loc.Coordinator.Dns.{
  Message, a, is_allowed, apply_dns, dns_run, Answer, other_record, ips_of, reconcile_answer,
}
use proxmox_dns_firewall_loc.Coordinator.Dns.Safety.{apply_dns-Spared}
use proxmox_dns_firewall_loc.Coordinator.Dns.Denied.{apply_dns-denied}
use proxmox_dns_firewall_loc.Coordinator.Save.{change_of, save_merged_list, save_run}
use proxmox_dns_firewall_loc.Coordinator.Save.Compared.{change_of-differences}
use proxmox_dns_firewall_loc.Coordinator.Save.Errors.{OnlyWorld, save_merged_list-failed}
use proxmox_dns_firewall_loc.Coordinator.Save.Names.{unnamed}
use proxmox_dns_firewall_loc.Coordinator.Save.Untouched.{
  names_of, change_for, save_merged_list-unnamed,
}
use proxmox_dns_firewall_loc.Coordinator.Configure.{merge_settings_patch, configure_run}
use proxmox_dns_firewall_loc.Coordinator.Configure.Patch.{is_blank, merge_settings_patch-kept}

load-save_example :
    load settings.config_path
      (save settings.config_path settings
        (record { written = true; renamed = true; changed_mode = false })
        disk).1
    ≡ (if true && true
        then loaded_settings (cleaned (path_or_default settings.config_path) settings)
        else load settings.config_path disk)
load-save_example =
    load-save settings.config_path settings
      (record { written = true; renamed = true; changed_mode = false }) disk

-- the secret, the VMID and the guest type of the settings stay
patched_settings :
    merge_settings_patch [] patch settings
    ≡ (record settings { pve_host = codes "https://10.0.0.2:8006" })
unfolding configure_run
patched_settings = refl

merge_settings_patch-kept_example :
    (is_blank (merge_settings_patch [] patch settings).token_secret ≡ false)
    × (positive (merge_settings_patch [] patch settings).pve_vmid ≡ true)
    × (is_guest_kind (merge_settings_patch [] patch settings).guest_type ≡ true)
merge_settings_patch-kept_example =
    merge_settings_patch-kept [] patch settings (unfold config_run in refl) refl
      (unfold config_run in refl)

abbrev old_names : List Text
old_names = codes "c" ∷ codes "a" ∷ []

abbrev new_names : List Text
new_names = codes "d" ∷ codes "b" ∷ codes "c" ∷ []

new_ones : newly_allowed_fqdns old_names new_names ≡ codes "b" ∷ codes "d" ∷ []
unfolding changes_run
new_ones = refl

abbrev old_list : Text
old_list = codes "deb.example\n# other.example"

-- the one is denied, the other is allowed, and a third one is added
abbrev new_lines : List Text
new_lines = codes "# deb.example" ∷ codes "other.example" ∷ codes "new.example" ∷ []

change_of-differences_example :
    let old_lines = split_allow_lines old_list in
    let change = change_of old_list new_lines in
    IsDifference change.newly (parse_allowed new_lines) (parse_allowed old_lines)
    × IsDifference change.newly_denied (parse_allowed old_lines) (parse_allowed new_lines)
    × IsDifference change.removed (parse_listed old_lines) (parse_listed new_lines)
change_of-differences_example = change_of-differences old_list new_lines

new_jobs : (change_of old_list new_lines).newly ≡ codes "new.example" ∷ codes "other.example" ∷ []
unfolding save_run
new_jobs = refl

-- TestCanonIPsUniqueStable
abbrev raw_ips : List Text
raw_ips = codes " 1.2.3.4 " ∷ codes "bad" ∷ codes "1.2.3.4" ∷ codes "::1" ∷ []

canonical_ips : canon_ips_unique_stable raw_ips ≡ codes "1.2.3.4" ∷ codes "::1" ∷ []
unfolding changes_run
canonical_ips = refl

canon_ips_unique_stable-canonical_example :
    IsUnique (canon_ips_unique_stable raw_ips)
    × (contains (canon_ips_unique_stable raw_ips) (codes "::1")
        ≡ any (is_canonical_of (codes "::1")) raw_ips)
canon_ips_unique_stable-canonical_example = canon_ips_unique_stable-canonical raw_ips (codes "::1")

abbrev added : ActivityRow
added = row_for name (codes "192.0.2.1") allow_added

enqueue_fw_activities-log_example :
    let c' = enqueue_fw_activities server (added ∷ []) coordinator in
    let all = coordinator.fw_activity ++ map (stamp 0) (added ∷ []) in
    (length c'.fw_activity ≤ max_fw_activity_lines)
    × (c' ≡ record coordinator {
      fw_activity = drop (lost all) all;
      revision = 8;
      snap = record coordinator.snap { firewall_activity = drop (lost all) all; revision = 8 };
    })
enqueue_fw_activities-log_example = enqueue_fw_activities-log server added [] coordinator

-- an API that answers nothing
abbrev down : Server
down = record {
  World = Unit {0};
  exchange = λ c r w. (failed (codes "no route to host"), w);
  now = λ w. (0, w);
}

abbrev offline : Coordinator down
offline = record {
  settings = settings;
  px = some client;
  world = tt;
  rule_sync = no_cache;
  seen = [];
  rejected_resolve_ips = [];
  revision = 0;
  last_desc = codes "kept";
  last_config_digest = codes "1";
  last_merged_allow_text = name;
  snap = blank_view settings;
  fw_activity = [];
}

abbrev no_route : Error
no_route = transport (codes "no route to host")

no_save : (save_merged_list down (codes "x.example") offline).0 ≡ some no_route
unfolding save_run
no_save = refl

save_merged_list-failed_example :
    OnlyWorld down offline (save_merged_list down (codes "x.example") offline).1
save_merged_list-failed_example =
    save_merged_list-failed down (codes "x.example") offline no_route no_save

-- "deb.example" is denied and "other.example" allowed
abbrev edited : Text
edited = codes "# deb.example\r\nother.example"

-- the rule of the one is gone, and the address that was kept for the other has a rule
edited_rules :
    (save_merged_list server edited coordinator).1.world.rules
    ≡ (allow_rule (codes "other.example") (codes "192.0.2.9") ip_family_four).rule
      ∷ (allow_rule (codes "other.example") (codes "192.0.2.1") ip_family_four).rule
      ∷ (bootstrap_rule (codes "udp") (codes "10.0.0.53")).rule
      ∷ []
unfolding save_run
edited_rules = refl

save_merged_list-unnamed_example :
    (unnamed
        (names_of (change_for coordinator.last_merged_allow_text edited))
        (held server client guest pve (save_merged_list server edited coordinator).1)
      ≡ unnamed
          (names_of (change_for coordinator.last_merged_allow_text edited))
          (held server client guest pve coordinator))
    × Ready server client guest pve (save_merged_list server edited coordinator).1
save_merged_list-unnamed_example =
    save_merged_list-unnamed server client guest pve edited coordinator refl coordinator-Ready

abbrev answer : Option Message
answer = some (record {
  rcode = 0;
  answer = a (some (0 ∷ 0 ∷ 0 ∷ 0 ∷ 0 ∷ 0xffff ∷ 0xc000 ∷ 0x0207 ∷ [])) ∷ [];
})

-- the new address has a rule, and the old one has none
answered_rules :
    (apply_dns server (codes "DEB.example.") answer coordinator).world.rules
    ≡ (allow_rule name (codes "192.0.2.7") ip_family_four).rule
      ∷ (allow_rule (codes "other.example") (codes "192.0.2.1") ip_family_four).rule
      ∷ (bootstrap_rule (codes "udp") (codes "10.0.0.53")).rule
      ∷ []
unfolding dns_run
answered_rules = refl

apply_dns-Spared_example :
    (foreign
        (normalize (codes "DEB.example."))
        (held server client guest pve (apply_dns server (codes "DEB.example.") answer coordinator))
      ≡ foreign (normalize (codes "DEB.example.")) (held server client guest pve coordinator))
    × Ready server client guest pve (apply_dns server (codes "DEB.example.") answer coordinator)
apply_dns-Spared_example =
    apply_dns-Spared server client guest pve (codes "DEB.example.") answer coordinator refl
      coordinator-Ready

abbrev is_new : Rule → Bool
is_new r = text_eq r.dest (codes "192.0.2.7")

denied : is_allowed coordinator.last_merged_allow_text (normalize (codes "bad.example.")) ≡ false
unfolding dns_run
denied = refl

none_new : any is_new rules ≡ false
unfolding rules_run
none_new = refl

nothing_new : any is_new (held server client guest pve coordinator) ≡ false
nothing_new = ap (any is_new) (pve-held coordinator.world) ∙ none_new

apply_dns-denied_example :
    any is_new
      (held server client guest pve (apply_dns server (codes "bad.example.") answer coordinator))
    ≡ false
apply_dns-denied_example =
    apply_dns-denied server client guest pve is_new (codes "bad.example.") answer coordinator refl
      denied coordinator-Ready nothing_new

abbrev new_address : Text
new_address = codes "192.0.2.7"

abbrev new_ip : Ip
new_ip = 0 ∷ 0 ∷ 0 ∷ 0 ∷ 0 ∷ 0xffff ∷ 0xc000 ∷ 0x0207 ∷ []

parse_new : parse_ip new_address ≡ some new_ip
unfolding ip_run
parse_new = refl

print_new : canonical_ip_string (ip_string new_ip) ≡ ip_string new_ip
unfolding rules_run
print_new = refl

name-ColonFree : ColonFree name
name-ColonFree =
    (refl, (refl, (refl, (refl, (refl, (refl, (refl, (refl, (refl, (refl, (refl, tt)))))))))))

abbrev records : List Answer
records = a (some new_ip) ∷ other_record ∷ []

new_in_records : contains (ips_of records) new_address ≡ true
unfolding dns_run
new_in_records = refl

reconcile_answer-Covers_example :
    (any (dynamic_rule_matches_dest name (ip_string new_ip) (ip_family_from_ip new_ip)) (
        held server client guest pve
          (reconcile_answer server client true name records coordinator).1)
      || any
          (is_failed new_address)
          (reconcile_answer server client true name records coordinator).0)
    ≡ true
reconcile_answer-Covers_example =
    reconcile_answer-Covers server client guest pve name new_address new_ip parse_new name-ColonFree
      print_new records coordinator new_in_records coordinator-Ready
