-- ===== src/Coordinator/Start/Restart.antt =====
-- A start after an update of the settings.
use proxmox_dns_firewall_loc.Prelude.{
  ℕ, false, true, [], Option, Bool-cases, inl, inr, ◌≡◌, refl, ap, subst, ◌∙◌,
}
use proxmox_dns_firewall_loc.Text.{Text, text_eq, text_eq_refl, trim_space}
use proxmox_dns_firewall_loc.Config.{
  Settings, default_config_path, File, loaded_settings, path_or_default, cleaned, load, Outcomes,
}
use proxmox_dns_firewall_loc.Proxmox.Api.{Server}
use proxmox_dns_firewall_loc.Coordinator.State.{Coordinator}
use proxmox_dns_firewall_loc.Coordinator.Configure.{merge_settings_patch}
use proxmox_dns_firewall_loc.Coordinator.Update.{Warning, accepted, is_url, update_settings}
use proxmox_dns_firewall_loc.Coordinator.Update.Adopted.{update_settings-Adopted}
use proxmox_dns_firewall_loc.Coordinator.Start.{
  start_path, started, fresh, start_loaded, new_coordinator,
}

default_given : text_eq default_config_path [] ≡ false
unfolding text_eq
default_given = refl

module _ (env : Text) where
  start_path-default : text_eq env [] ≡ true → start_path [] env ≡ default_config_path
  start_path-default e = rw (text_eq_refl [], e, default_given) refl

  start_path-env : text_eq env [] ≡ false → start_path [] env ≡ env
  start_path-env e = rw (text_eq_refl [], e) refl

  -- the path that a start without an argument takes is not empty
  start_path-given : text_eq (start_path [] env) [] ≡ false
  start_path-given = elim (Bool-cases (text_eq env [])) [
    | inl e ↦ ap (λ t. text_eq t []) (start_path-default e) ∙ default_given
    | inr e ↦ ap (λ t. text_eq t []) (start_path-env e) ∙ e
  ]

  -- later updates keep to it
  start_path-kept :
      (patch s : Settings)
      → text_eq (trim_space patch.config_path) [] ≡ true
      → s.config_path ≡ start_path [] env
      → (merge_settings_patch env patch s).config_path ≡ start_path [] env
  unfolding merge_settings_patch
  start_path-kept patch s blank at =
      let given : text_eq s.config_path [] ≡ false = ap (λ t. text_eq t []) at ∙ start_path-given in
      elim (Bool-cases (text_eq env [])) [
        | inl e ↦ rw (blank, e, given) (at ∙ rw (text_eq_refl [], e) refl)
        | inr e ↦ rw (blank, e, text_eq_refl []) refl
      ]

module _ (srv : Server) (url_host : Text → Option Text) where
  started_of :
      (path : Text) (disk : Text → File) (s : Settings) (w : srv.World)
      → load path disk ≡ loaded_settings s
      → start_loaded srv (is_url url_host) (load path disk) w
        ≡ started (fresh srv (is_url url_host) s w)
  started_of path disk s w e = ap (λ l. start_loaded srv (is_url url_host) l w) e

  -- After an update that reports no error, through a patch without a path, a start of the program
  -- without an argument begins with the settings that were at work, cleaned, and with the client
  -- that these stand for. The settings at work before had been read from the path of such a start.
  pub new_coordinator-update_settings :
      (env : Text) (fuel : ℕ) (preferred : Text) (done : Outcomes) (patch : Settings)
      (disk : Text → File) (c : Coordinator srv) (warn : Option Warning) (line : Text)
      (w : srv.World)
      → text_eq (trim_space patch.config_path) [] ≡ true
      → c.settings.config_path ≡ start_path [] env
      → (update_settings srv url_host env fuel preferred done patch (disk, c)).0
        ≡ accepted warn line
      → let (disk', c') =
          (update_settings srv url_host env fuel preferred done patch (disk, c)).1 in
        new_coordinator srv (is_url url_host) [] env disk' w
        ≡ started (fresh srv (is_url url_host) (cleaned (start_path [] env) c'.settings) w)
  unfolding new_coordinator
  new_coordinator-update_settings env fuel preferred done patch disk c warn line w blank at e =
      let (disk', c') = (update_settings srv url_host env fuel preferred done patch (disk, c)).1 in
      let adopted =
        update_settings-Adopted srv url_host env fuel preferred done patch disk c warn line e in
      let path = start_path-kept env patch c.settings blank at in
      let here : path_or_default (start_path [] env) ≡ start_path [] env =
        rw (start_path-given env) refl in
      let stored : load (start_path [] env) disk'
          ≡ loaded_settings (cleaned (path_or_default (start_path [] env)) c'.settings) =
        subst (λ p. load p disk' ≡ loaded_settings (cleaned (path_or_default p) c'.settings)) path
          adopted.stored in
      started_of (start_path [] env) disk' (cleaned (start_path [] env) c'.settings) w
        (stored ∙ ap (λ p. loaded_settings (cleaned p c'.settings)) here)
