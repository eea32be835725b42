-- ===== src/Coordinator/Firewall.antt =====
-- What the coordinator does with one name's rules, and the rows that it logs for it: the bodies
-- of the loops that ApplyDNS and SaveMergedList share.
pub mod Foreign
pub mod Steps
use proxmox_dns_firewall_loc.Prelude.{
  Bool, true, false, List, [], ◌∷◌, ◌++◌, Option, none, some, map,
}
use proxmox_dns_firewall_loc.Text.{Text, codes}
use proxmox_dns_firewall_loc.Proxmox.Api.{Error, Result, ok, err, Client, Server}
use proxmox_dns_firewall_loc.Proxmox.Reconcile.{
  Deleted, sync_outbound_allow, remove_dynamic_rules, prune_stale_outbound_allows_for_fqdn,
  remove_all_managed_egress_for_fqdn,
}
use proxmox_dns_firewall_loc.Coordinator.State.{
  RowResult, allow_added, allow_failed, allow_pruned, dynamic_removed, remove_failed, ActivityRow,
  Coordinator, guest_of, enter, leave,
}

abbrev pub row_for : Text → Text → RowResult → ActivityRow
row_for fqdn ip result = record { time = none; fqdn = fqdn; ip = ip; result = result; err = none }

abbrev pub failed_row : Text → Text → RowResult → Text → Error → ActivityRow
failed_row fqdn ip result before e = record {
  time = none;
  fqdn = fqdn;
  ip = ip;
  result = result;
  err = some (before, e);
}

abbrev pub sync_rows : Text → Text → Result Bool → List ActivityRow
sync_rows fqdn ip (err e) = failed_row fqdn ip allow_failed [] e ∷ []
sync_rows fqdn ip (ok true) = row_for fqdn ip allow_added ∷ []
sync_rows fqdn ip (ok false) = []

abbrev pub remove_rows : Text → Text → Bool × Option Error → List ActivityRow
remove_rows fqdn ip (removed, some e) = failed_row fqdn ip remove_failed [] e ∷ []
remove_rows fqdn ip (true, none) = row_for fqdn ip dynamic_removed ∷ []
remove_rows fqdn ip (false, none) = []

abbrev pub prune_rows : Text → Text → Deleted Text → List ActivityRow
prune_rows fqdn before (removed, e) =
    map (λ rip. row_for fqdn rip allow_pruned) removed
    ++ elim e [ none ↦ [] | some x ↦ failed_row fqdn [] allow_failed before x ∷ [] ]

module _ (srv : Server) (px : Client) where
  -- the rows that are logged so far, and the state
  abbrev pub Logged : Type 0
  Logged = List ActivityRow × Coordinator srv

  abbrev pub sync_address : Text → Text → Logged → Logged
  sync_address fqdn ip (rows, c) =
      let (r, s) = sync_outbound_allow srv px (guest_of srv c) fqdn ip (enter srv px c) in
      (rows ++ sync_rows fqdn ip r, leave srv px s c)

  abbrev pub remove_address : Text → Text → Logged → Logged
  remove_address fqdn ip (rows, c) =
      let (r, s) = remove_dynamic_rules srv px (guest_of srv c) fqdn ip (enter srv px c) in
      (rows ++ remove_rows fqdn ip r, leave srv px s c)

  abbrev pub prune_family : Text → Text → List Text → Text → Logged → Logged
  prune_family fqdn family desired before (rows, c) =
      let (d, s) =
        prune_stale_outbound_allows_for_fqdn srv px (guest_of srv c) fqdn family desired
          (enter srv px c) in
      (rows ++ prune_rows fqdn before d, leave srv px s c)

  -- the addresses that are gone come first
  abbrev pub remove_name : Text → Text → Logged → List Text × Logged
  remove_name fqdn before (rows, c) =
      let (d, s) =
        remove_all_managed_egress_for_fqdn srv px (guest_of srv c) fqdn (enter srv px c) in
      (d.0, (rows ++ prune_rows fqdn before d, leave srv px s c))
