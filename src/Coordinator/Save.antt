-- ===== src/Coordinator/Save.antt =====
-- SaveMergedList: the lines of the editor go into the guest's description, and the firewall
-- follows what changed in them.
pub mod Allowed
pub mod Compared
pub mod Errors
pub mod Loops
pub mod Names
pub mod Safety
pub mod Untouched
mod Tests
use proxmox_dns_firewall_loc.Proxmox.Reconcile.{reconcile_run}
use proxmox_dns_firewall_loc.Prelude.{
  Bool, true, false, not, List, [], ◌∷◌, ◌++◌, Option, none, some, if◌then◌else◌,
}
use proxmox_dns_firewall_loc.Text.{Text, codes, split_lf, contains, add_name, delete_name}
use proxmox_dns_firewall_loc.Allowlist.{parse_allowed, parse_listed, splice_block}
use proxmox_dns_firewall_loc.Proxmox.Api.{Error, not_configured, Client, Server}
use proxmox_dns_firewall_loc.Proxmox.Client.{State, put_description}
use proxmox_dns_firewall_loc.Coordinator.Changes.{
  normalize_allowlist_multiline, split_allow_lines, newly_allowed_fqdns, newly_removed_fqdns,
  newly_denied_fqdns, canon_ips_unique_stable, changes_run,
}
use proxmox_dns_firewall_loc.Coordinator.State.{
  ActivityRow, Addresses, addresses_of, delete_addresses, put_addresses, Coordinator, guest_of,
  enter, leave, enqueue_fw_activities,
}
use proxmox_dns_firewall_loc.Coordinator.Firewall.{Logged, sync_address, remove_name}
use proxmox_dns_firewall_loc.Coordinator.Refresh.{refresh, refresh_run}

-- the addresses that a denied name had rules for are kept for when it is allowed again
abbrev pub keep_removed : Addresses → Text → List Text → Addresses
keep_removed m fqdn [] = m
keep_removed m fqdn (ip ∷ canon) = put_addresses m fqdn (ip ∷ canon)

-- what a save compares
pub record Change : Type 0 where
  pub newly : List Text
  pub newly_denied : List Text
  pub removed : List Text
  pub new_listed : List Text

unfoldable pub change_of : Text → List Text → Change
change_of old_merged lines =
    let old_lines = split_allow_lines old_merged in
    record {
      newly = newly_allowed_fqdns (parse_allowed old_lines) (parse_allowed lines);
      newly_denied = newly_denied_fqdns (parse_allowed old_lines) (parse_allowed lines);
      removed = newly_removed_fqdns (parse_listed old_lines) (parse_listed lines);
      new_listed = parse_listed lines;
    }

abbrev pub with_job : Text → List Text → List (Text × List Text) → List (Text × List Text)
with_job fqdn [] jobs = jobs
with_job fqdn (ip ∷ ips) jobs = (fqdn, ip ∷ ips) ∷ jobs

-- the loop over `newly`: the addresses that were kept for these names, which are then forgotten
unfoldable pub take_jobs : List Text → Addresses → List (Text × List Text) × Addresses
take_jobs [] m = ([], m)
take_jobs (fqdn ∷ newly) m =
    let (jobs, m') = take_jobs newly (delete_addresses m fqdn) in
    (with_job fqdn (addresses_of m fqdn) jobs, m')

module _ (srv : Server) (px : Client) where
  abbrev pub forget_name : Text → Coordinator srv → Coordinator srv
  forget_name fqdn c = record c {
    seen = delete_name c.seen fqdn;
    rejected_resolve_ips = delete_addresses c.rejected_resolve_ips fqdn;
  }

  -- the loop over `removed`
  unfoldable pub save_removed : List Text → Logged srv px → Logged srv px
  save_removed [] l = l
  save_removed (fqdn ∷ removed) l =
      let (gone, (rows, c)) = remove_name srv px fqdn (codes "remove prune: ") l in
      save_removed removed (rows, forget_name fqdn c)

  abbrev pub deny_name : Text → Logged srv px → Logged srv px
  deny_name fqdn l =
      let (gone, (rows, c)) = remove_name srv px fqdn (codes "disable prune: ") l in
      (
        rows,
        record c {
          seen = add_name c.seen fqdn;
          rejected_resolve_ips =
              keep_removed c.rejected_resolve_ips fqdn (canon_ips_unique_stable gone);
        },
      )

  abbrev pub deny_if : Bool → Text → Logged srv px → Logged srv px
  deny_if true fqdn l = deny_name fqdn l
  deny_if false fqdn l = l

  -- the loop over `newlyDenied`
  unfoldable pub save_denied : List Text → List Text → Logged srv px → Logged srv px
  save_denied new_listed [] l = l
  save_denied new_listed (fqdn ∷ denied) l =
      save_denied new_listed denied (deny_if (contains new_listed fqdn) fqdn l)

  -- the two loops over the jobs
  unfoldable pub sync_addresses : Text → List Text → Logged srv px → Logged srv px
  sync_addresses fqdn [] l = l
  sync_addresses fqdn (ip ∷ ips) l = sync_addresses fqdn ips (sync_address srv px fqdn ip l)

  unfoldable pub run_jobs : List (Text × List Text) → Logged srv px → Logged srv px
  run_jobs [] l = l
  run_jobs ((fqdn, ips) ∷ jobs) l = run_jobs jobs (sync_addresses fqdn ips l)

  -- the new description and the new lines stand, and the jobs are taken
  abbrev pub accept_text :
      Text → Text → List Text → Coordinator srv → List (Text × List Text) × Coordinator srv
  accept_text new_desc text newly c =
      let (jobs, m) = take_jobs newly c.rejected_resolve_ips in
      (
        jobs,
        record c { last_desc = new_desc; last_merged_allow_text = text; rejected_resolve_ips = m },
      )

  -- the part of a save after the description is written
  unfoldable pub follow_change : Change → Text → Text → Coordinator srv → Logged srv px
  follow_change change new_desc text c =
      let l = save_removed change.removed ([], c) in
      let (rows, c') = save_denied change.new_listed change.newly_denied l in
      let (jobs, c'') = accept_text new_desc text change.newly c' in run_jobs jobs (rows, c'')

  abbrev pub finish_save : Logged srv px → Coordinator srv
  finish_save (rows, c) = refresh srv (enqueue_fw_activities srv rows c)

  abbrev pub saved :
      Change → Text → Text → Option Error → Coordinator srv → Option Error × Coordinator srv
  saved change new_desc text (some e) c = (some e, c)
  saved change new_desc text none c = (none, finish_save (follow_change change new_desc text c))

module _ (srv : Server) where
  abbrev pub save_client : Text → Option Client → Coordinator srv → Option Error × Coordinator srv
  save_client text none c = (some not_configured, c)
  save_client text (some px) c =
      let normalized = normalize_allowlist_multiline text in
      let lines = split_lf normalized in
      let new_desc = splice_block c.last_desc lines in
      let (failed, s) =
        put_description srv px (guest_of srv c) new_desc c.last_config_digest (enter srv px c) in
      saved srv px (change_of c.last_merged_allow_text lines) new_desc normalized failed
        (leave srv px s c)

  unfoldable pub save_merged_list : Text → Coordinator srv → Option Error × Coordinator srv
  save_merged_list text c = save_client text c.px c

-- Opens every operation of this file, for evaluation.
unfoldable pub save_run : Unit {0}
unfolding reconcile_run refresh_run changes_run change_of take_jobs save_removed save_denied
    sync_addresses run_jobs follow_change save_merged_list
save_run = tt
