-- ===== src/Coordinator/Save/Allowed.antt =====
-- What a save lets ApplyDNS allow.
use proxmox_dns_firewall_loc.Prelude.{
  List, [], ◌∷◌, Option, none, some, ◌≡◌, ◌⊎◌, inl, inr, refl, ap, ◌∙◌, All,
}
use proxmox_dns_firewall_loc.Text.{Text, split_lf, contains}
use proxmox_dns_firewall_loc.Text.Lines.{IsLine}
use proxmox_dns_firewall_loc.Allowlist.{parse_allowed, splice_block, extract_block}
use proxmox_dns_firewall_loc.Allowlist.Block.{extract_block-splice_block}
use proxmox_dns_firewall_loc.Proxmox.Api.{Row, Error, Result, ok, err, Client, Server}
use proxmox_dns_firewall_loc.Proxmox.Client.{State, get_guest_config, put_description}
use proxmox_dns_firewall_loc.Coordinator.Changes.{normalize_allowlist_multiline}
use proxmox_dns_firewall_loc.Coordinator.State.{
  ActivityRow, Coordinator, guest_of, enter, leave, enqueue_fw_activities, finalize_view,
}
use proxmox_dns_firewall_loc.Coordinator.Firewall.{Logged, sync_address}
use proxmox_dns_firewall_loc.Coordinator.Refresh.{
  merged_text, refresh, refresh_client, refresh_reply,
}
use proxmox_dns_firewall_loc.Coordinator.Refresh.Allowed.{
  is_allowed-merged_text, is_allowed-normalized, normalized-AllIsLine,
}
use proxmox_dns_firewall_loc.Allowlist.Markers.{NotMarker}
use proxmox_dns_firewall_loc.Allowlist.BlockLines.{IsInner}
use proxmox_dns_firewall_loc.Coordinator.Dns.{is_allowed}
use proxmox_dns_firewall_loc.Coordinator.Save.{
  Change, change_of, accept_text, sync_addresses, run_jobs, follow_change, finish_save, saved,
  save_client, save_merged_list, save_removed, save_denied,
}

module _ (srv : Server) where
  -- the description and the list that the coordinator goes by
  abbrev texts : Coordinator srv → Text × Text
  texts c = (c.last_desc, c.last_merged_allow_text)

  -- a refresh keeps both, or reads the one and makes the other of it
  abbrev Refreshed : Coordinator srv → Coordinator srv → Type 0
  Refreshed c c' =
      (texts c' ≡ texts c) ⊎ ((c'.last_merged_allow_text ≡ merged_text c'.last_desc c'.seen))

  refresh_reply-Refreshed :
      (px : Client) (r : Result Row) (s : State srv px) (c : Coordinator srv)
      → Refreshed c (refresh_reply srv px r s c)
  unfolding finalize_view
  refresh_reply-Refreshed px (err e) s c = inl refl
  refresh_reply-Refreshed px (ok cfg) s c = inr refl

  refresh_client-Refreshed :
      (o : Option Client) (c : Coordinator srv) → Refreshed c (refresh_client srv o c)
  unfolding finalize_view
  refresh_client-Refreshed none c = inl refl
  refresh_client-Refreshed (some px) c =
      let (cfg, s) = get_guest_config srv px (guest_of srv c) (enter srv px c) in
      refresh_reply-Refreshed px cfg s c

  refresh-Refreshed : (c : Coordinator srv) → Refreshed c (refresh srv c)
  unfolding refresh
  refresh-Refreshed c = refresh_client-Refreshed c.px c

  enqueue-texts :
      (rows : List ActivityRow) (c : Coordinator srv)
      → texts (enqueue_fw_activities srv rows c) ≡ texts c
  unfolding enqueue_fw_activities finalize_view
  enqueue-texts [] c = refl
  enqueue-texts (row ∷ rows) c = refl

  module _ (px : Client) where
    sync_addresses-texts :
        (f : Text) (ips : List Text) (l : Logged srv px)
        → texts (sync_addresses srv px f ips l).1 ≡ texts l.1
    unfolding sync_addresses
    sync_addresses-texts f [] l = refl
    sync_addresses-texts f (ip ∷ ips) (rows, c) =
        sync_addresses-texts f ips (sync_address srv px f ip (rows, c))

    run_jobs-texts :
        (jobs : List (Text × List Text)) (l : Logged srv px)
        → texts (run_jobs srv px jobs l).1 ≡ texts l.1
    unfolding run_jobs
    run_jobs-texts [] l = refl
    run_jobs-texts ((f, ips) ∷ jobs) l =
        run_jobs-texts jobs (sync_addresses srv px f ips l) ∙ sync_addresses-texts f ips l

    follow_change-texts :
        (change : Change) (desc text : Text) (c : Coordinator srv)
        → texts (follow_change srv px change desc text c).1 ≡ (desc, text)
    unfolding follow_change
    follow_change-texts change desc text c =
        let l = save_removed srv px change.removed ([], c) in
        let (rows, c') = save_denied srv px change.new_listed change.newly_denied l in
        let (jobs, c'') = accept_text srv px desc text change.newly c' in
        run_jobs-texts jobs (rows, c'')

    -- the state before the refresh has the new texts
    finish_save-Refreshed :
        (l : Logged srv px) (desc text : Text)
        → texts l.1 ≡ (desc, text)
        → (texts (finish_save srv px l) ≡ (desc, text))
          ⊎ ((finish_save srv px l).last_merged_allow_text
              ≡ merged_text (finish_save srv px l).last_desc (finish_save srv px l).seen)
    finish_save-Refreshed (rows, c) desc text e =
        let c' = enqueue_fw_activities srv rows c in
        elim (refresh-Refreshed c') [
          | inl same ↦ inl (same ∙ enqueue-texts rows c ∙ e)
          | inr read ↦ inr read
        ]

  -- the texts after a save: the ones that it wrote, or what a refresh made of what it read
  abbrev Saved : Text → Text → Coordinator srv → Type 0
  Saved desc text c' =
      (texts c' ≡ (desc, text)) ⊎ (c'.last_merged_allow_text ≡ merged_text c'.last_desc c'.seen)

  saved-texts :
      (px : Client) (change : Change) (desc text : Text) (o : Option Error) (c : Coordinator srv)
      → (saved srv px change desc text o c).0 ≡ none
      → Saved desc text (saved srv px change desc text o c).1
  saved-texts px change desc text (some x) c e = cc
  saved-texts px change desc text none c e =
      finish_save-Refreshed px (follow_change srv px change desc text c) desc text
        (follow_change-texts px change desc text c)

  save_client-texts :
      (text : Text) (o : Option Client) (c : Coordinator srv)
      → (save_client srv text o c).0 ≡ none
      → let normalized = normalize_allowlist_multiline text in
        Saved
          (splice_block c.last_desc (split_lf normalized))
          normalized
          (save_client srv text o c).1
  save_client-texts text none c e = cc
  save_client-texts text (some px) c e =
      let normalized = normalize_allowlist_multiline text in
      let lines = split_lf normalized in
      let desc = splice_block c.last_desc lines in
      let (failed, s) =
        put_description srv px (guest_of srv c) desc c.last_config_digest (enter srv px c) in
      saved-texts px (change_of c.last_merged_allow_text lines) desc normalized failed
        (leave srv px s c) e

  inner-is_allowed :
      (desc text : Text) (n : Text) (c' : Coordinator srv)
      → let lines = split_lf (normalize_allowlist_multiline text) in
        Saved (splice_block desc lines) (normalize_allowlist_multiline text) c'
        → All NotMarker lines
        → c'.last_desc ≡ splice_block desc lines
        → All IsLine c'.seen
        → is_allowed c'.last_merged_allow_text n ≡ contains (parse_allowed lines) n
  inner-is_allowed desc text n c' (inl same) clear written seen =
      ap (λ (t : Text × Text). is_allowed t.1 n) same ∙ is_allowed-normalized text n
  inner-is_allowed desc text n c' (inr read) clear written seen =
      let lines = split_lf (normalize_allowlist_multiline text) in
      let back : extract_block c'.last_desc ≡ some lines =
        ap extract_block written
        ∙ extract_block-splice_block desc lines
            (inner_lines lines (normalized-AllIsLine text) clear) in
      ap (λ t. is_allowed t n) read
      ∙ is_allowed-merged_text c'.last_desc c'.seen n seen
      ∙ ap (λ o. contains (parse_allowed (lines_or_none o)) n) back
    where
      inner_lines : (ls : List Text) → All IsLine ls → All NotMarker ls → All IsInner ls
      inner_lines [] a b = tt
      inner_lines (l ∷ ls) a b = ((a.0, b.0), inner_lines ls a.1 b.1)

      lines_or_none : Option (List Text) → List Text
      lines_or_none o = elim o [ none ↦ [] | some inner ↦ inner ]

  -- After a save that reports no error, ApplyDNS allows exactly the names that the saved lines
  -- allow, whether the refresh at its end has succeeded or not. None of the lines is a marker of
  -- the block; the description that the coordinator holds at the end is the one that was written;
  -- and the names seen have no line ends.
  pub save_merged_list-is_allowed :
      (text : Text) (c : Coordinator srv) (n : Text)
      → let lines = split_lf (normalize_allowlist_multiline text) in
        let (e, c') = save_merged_list srv text c in
        e ≡ none
        → All NotMarker lines
        → c'.last_desc ≡ splice_block c.last_desc lines
        → All IsLine c'.seen
        → is_allowed c'.last_merged_allow_text n ≡ contains (parse_allowed lines) n
  unfolding save_merged_list
  save_merged_list-is_allowed text c n e clear written seen =
      inner-is_allowed c.last_desc text n (save_client srv text c.px c).1
        (save_client-texts text c.px c e) clear written seen
