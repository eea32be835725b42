-- ===== src/Coordinator/Save/Errors.antt =====
-- A save that fails.
use proxmox_dns_firewall_loc.Prelude.{Option, none, some, ◌≡◌, refl, sym, subst}
use proxmox_dns_firewall_loc.Text.{Text, split_lf}
use proxmox_dns_firewall_loc.Allowlist.{splice_block}
use proxmox_dns_firewall_loc.Proxmox.Api.{Error, Client, Server}
use proxmox_dns_firewall_loc.Proxmox.Client.{put_description, send}
use proxmox_dns_firewall_loc.Coordinator.Changes.{normalize_allowlist_multiline}
use proxmox_dns_firewall_loc.Coordinator.State.{Coordinator, guest_of, enter, leave}
use proxmox_dns_firewall_loc.Coordinator.Save.{
  change_of, Change, saved, save_client, save_merged_list,
}

module _ (srv : Server) where
  -- `c'` differs from `c` in the outside world at most
  abbrev pub OnlyWorld : Coordinator srv → Coordinator srv → Type 0
  OnlyWorld c c' = c' ≡ (record c { world = c'.world })

  saved-failed :
      (px : Client) (change : Change) (new_desc text : Text) (o : Option Error)
      (c : Coordinator srv) (e : Error)
      → (saved srv px change new_desc text o c).0 ≡ some e
      → (saved srv px change new_desc text o c).1 ≡ c
  saved-failed px change new_desc text (some x) c e k = refl
  saved-failed px change new_desc text none c e k = cc

  put_description-OnlyWorld :
      (px : Client) (desc digest : Text) (c : Coordinator srv)
      → OnlyWorld c
          (leave srv px (put_description srv px (guest_of srv c) desc digest (enter srv px c)).1 c)
  unfolding put_description send
  put_description-OnlyWorld px desc digest c = refl

  save_client-failed :
      (text : Text) (o : Option Client) (c : Coordinator srv) (e : Error)
      → (save_client srv text o c).0 ≡ some e
      → OnlyWorld c (save_client srv text o c).1
  save_client-failed text none c e k = refl
  save_client-failed text (some px) c e k =
      let normalized = normalize_allowlist_multiline text in
      let lines = split_lf normalized in
      let desc = splice_block c.last_desc lines in
      let (failed, s) =
        put_description srv px (guest_of srv c) desc c.last_config_digest (enter srv px c) in
      let change = change_of c.last_merged_allow_text lines in
      subst (OnlyWorld c)
        (sym (saved-failed px change desc normalized failed (leave srv px s c) e k))
        (put_description-OnlyWorld px desc c.last_config_digest c)

  -- A save that reports an error (there is no client, or the description cannot be written) has
  -- changed nothing of the coordinator: its settings, lists, log, view and cache are the ones they were.
  pub save_merged_list-failed :
      (text : Text) (c : Coordinator srv) (e : Error)
      → (save_merged_list srv text c).0 ≡ some e
      → OnlyWorld c (save_merged_list srv text c).1
  unfolding save_merged_list
  save_merged_list-failed text c e k = save_client-failed text c.px c e k
