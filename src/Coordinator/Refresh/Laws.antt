-- ===== src/Coordinator/Refresh/Laws.antt =====
-- What a refresh shows and keeps.
use proxmox_dns_firewall_loc.Prelude.{List, Option, none, some, ◌≡◌, refl}
use proxmox_dns_firewall_loc.Text.{Text, codes}
use proxmox_dns_firewall_loc.Proxmox.Api.{Row, Result, ok, err, Client, Server}
use proxmox_dns_firewall_loc.Proxmox.Client.{
  State, FirewallOptions, get_guest_config, get_firewall_options,
}
use proxmox_dns_firewall_loc.Proxmox.Display.{string_field}
use proxmox_dns_firewall_loc.Coordinator.State.{
  ViewState, Coordinator, guest_of, enter, finalize_view,
}
use proxmox_dns_firewall_loc.Coordinator.Refresh.{
  merged_text, show_policy, refresh, refresh_client, refresh_reply, refresh_config,
}

-- what ApplyDNS and SaveMergedList go by
abbrev pub Basis : Type 0
Basis = Text × Text × Text

module _ (srv : Server) where
  abbrev pub basis : Coordinator srv → Basis
  basis c = (c.last_desc, c.last_config_digest, c.last_merged_allow_text)

  abbrev pub config_of : Client → Coordinator srv → Result Row
  config_of px c = (get_guest_config srv px (guest_of srv c) (enter srv px c)).0

  show_policy-merged :
      (fw : Result FirewallOptions) (vs : ViewState)
      → (show_policy fw vs).merged_list_text ≡ vs.merged_list_text
  show_policy-merged (ok fw) vs = refl
  show_policy-merged (err e) vs = refl

  -- the basis that a configuration gives
  abbrev pub basis_of : Row → List Text → Basis
  basis_of cfg seen =
      let desc = string_field (codes "description") cfg in
      (desc, string_field (codes "digest") cfg, merged_text desc seen)

  refresh_config-merged :
      (px : Client) (cfg : Row) (s : State srv px) (c : Coordinator srv)
      → (basis (refresh_config srv px cfg s c) ≡ basis_of cfg c.seen)
        × ((refresh_config srv px cfg s c).snap.merged_list_text
            ≡ (refresh_config srv px cfg s c).last_merged_allow_text)
        × ((refresh_config srv px cfg s c).seen ≡ c.seen)
  unfolding finalize_view
  refresh_config-merged px cfg s c =
      (refl, show_policy-merged (get_firewall_options srv px (guest_of srv c) s).0 _, refl)

  refresh_client-merged :
      (px : Client) (cfg : Row) (o : Option Client) (c : Coordinator srv)
      → o ≡ some px
      → config_of px c ≡ ok cfg
      → (basis (refresh_client srv o c) ≡ basis_of cfg c.seen)
        × ((refresh_client srv o c).snap.merged_list_text
            ≡ (refresh_client srv o c).last_merged_allow_text)
        × ((refresh_client srv o c).seen ≡ c.seen)
  refresh_client-merged px cfg o c set read =
      let s = (get_guest_config srv px (guest_of srv c) (enter srv px c)).1 in
      rw (set, read) (refresh_config-merged px cfg s c)

  -- Where the configuration of the guest can be read, the list that ApplyDNS goes by is the block
  -- of its description with the names seen so far as suggestions, and the page shows that list,
  -- whether or not the outbound policy can be read.
  pub refresh-merged :
      (px : Client) (cfg : Row) (c : Coordinator srv)
      → c.px ≡ some px
      → config_of px c ≡ ok cfg
      → (basis (refresh srv c) ≡ basis_of cfg c.seen)
        × ((refresh srv c).snap.merged_list_text ≡ (refresh srv c).last_merged_allow_text)
        × ((refresh srv c).seen ≡ c.seen)
  unfolding refresh
  refresh-merged px cfg c set read = refresh_client-merged px cfg c.px c set read

  -- A refresh keeps the settings and the client, whatever the API answers.
  pub refresh-configured :
      (c : Coordinator srv) → ((refresh srv c).settings ≡ c.settings) × ((refresh srv c).px ≡ c.px)
  unfolding refresh
  refresh-configured c = by_client c.px
    where
      by_reply :
          (px : Client) (r : Result Row) (s : State srv px)
          → ((refresh_reply srv px r s c).settings ≡ c.settings)
            × ((refresh_reply srv px r s c).px ≡ c.px)
      by_reply px (err e) s = unfold finalize_view in (refl, refl)
      by_reply px (ok cfg) s = unfold finalize_view in (refl, refl)

      by_client :
          (o : Option Client)
          → ((refresh_client srv o c).settings ≡ c.settings) × ((refresh_client srv o c).px ≡ c.px)
      by_client none = unfold finalize_view in (refl, refl)
      by_client (some px) =
          by_reply px (get_guest_config srv px (guest_of srv c) (enter srv px c)).0
            (get_guest_config srv px (guest_of srv c) (enter srv px c)).1
