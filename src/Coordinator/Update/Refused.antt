-- ===== src/Coordinator/Update/Refused.antt =====
-- An update of the settings that is refused.
use proxmox_dns_firewall_loc.Prelude.{
  ℕ, Option, none, some, inl, inr, ◌≡◌, ◌⊎◌, refl, sym, subst, ◌∙◌,
}
use proxmox_dns_firewall_loc.Text.{Text}
use proxmox_dns_firewall_loc.Config.{Settings, File, load, save, SaveError, chmod_error, Outcomes}
use proxmox_dns_firewall_loc.Config.Laws.{load-save, save-some}
use proxmox_dns_firewall_loc.Proxmox.Api.{Error, Result, ok, err, Server}
use proxmox_dns_firewall_loc.Proxmox.Reconcile.{Bounded, out_of_fuel, finished}
use proxmox_dns_firewall_loc.Coordinator.State.{Coordinator}
use proxmox_dns_firewall_loc.Coordinator.Save.Errors.{OnlyWorld}
use proxmox_dns_firewall_loc.Coordinator.Configure.{
  merge_settings_patch, resolve_node_guest_if_possible, run_bootstrap,
}
use proxmox_dns_firewall_loc.Coordinator.Update.{
  Warning, warning_of, UpdateError, cannot_resolve, cannot_save, refused, is_url,
  bootstrapped_reply, adopt, after_save, after_resolve, update_settings,
}

-- by the error: a failed lookup writes no file, and a failed save leaves the file that was there
abbrev pub FileKept : UpdateError → Text → (Text → File) → (Text → File) → Type 0
FileKept (cannot_resolve e) wpath disk disk' = disk' ≡ disk
FileKept (cannot_save x) wpath disk disk' = (load wpath disk' ≡ load wpath disk) ⊎ (x ≡ chmod_error)

module _ (srv : Server) (url_host : Text → Option Text) where
  bootstrapped_reply-refused :
      (warn : Option Warning) (e : UpdateError) (x : Bounded × Coordinator srv)
      → (bootstrapped_reply srv url_host warn x).0 ≡ refused e
      → ⊥
  bootstrapped_reply-refused warn e (out_of_fuel, c) k = cc
  bootstrapped_reply-refused warn e (finished r, c) k = cc

  save-FileKept :
      (wpath : Text) (merged : Settings) (done : Outcomes) (disk : Text → File) (x : SaveError)
      → (save wpath merged done disk).0 ≡ some x
      → FileKept (cannot_save x) wpath disk (save wpath merged done disk).1
  save-FileKept wpath merged done disk x e = elim (save-some wpath merged done disk x e) [
    | inl unwritten ↦ inl (load-save wpath merged done disk ∙ rw unwritten refl)
    | inr last ↦ inr last
  ]

  after_save-refused :
      (fuel : ℕ) (preferred wpath : Text) (done : Outcomes) (disk : Text → File)
      (failed : Option Error) (merged : Settings) (c : Coordinator srv) (o : Option SaveError)
      (x : UpdateError)
      → (save wpath merged done disk).0 ≡ o
      → (after_save srv url_host fuel preferred (warning_of merged failed) merged o c).0 ≡ refused x
      → ((after_save srv url_host fuel preferred (warning_of merged failed) merged o c).1 ≡ c)
        × FileKept x wpath disk (save wpath merged done disk).1
  after_save-refused fuel preferred wpath done disk failed merged c (some y) x s e =
      let same : cannot_save y ≡ x = cc in
      (
        refl,
        subst (λ x. FileKept x wpath disk (save wpath merged done disk).1) same
            (save-FileKept wpath merged done disk y s),
      )
  after_save-refused fuel preferred wpath done disk failed merged c none x s e = absurd (
      bootstrapped_reply-refused (warning_of merged failed) x
        (run_bootstrap srv fuel preferred (adopt srv url_host merged c)) e)

  after_resolve-refused :
      (fuel : ℕ) (preferred wpath : Text) (done : Outcomes) (r : Result (Option Error × Settings))
      (disk : Text → File) (c : Coordinator srv) (x : UpdateError)
      → (after_resolve srv url_host fuel preferred wpath done r (disk, c)).0 ≡ refused x
      → ((after_resolve srv url_host fuel preferred wpath done r (disk, c)).1.1 ≡ c)
        × FileKept x wpath disk
            (after_resolve srv url_host fuel preferred wpath done r (disk, c)).1.0
  after_resolve-refused fuel preferred wpath done (err y) disk c x e =
      let same : cannot_resolve y ≡ x = cc in
      (refl, subst (λ x. FileKept x wpath disk disk) same refl)
  after_resolve-refused fuel preferred wpath done (ok (failed, merged)) disk c x e =
      after_save-refused fuel preferred wpath done disk failed merged c
        (save wpath merged done disk).0 x refl e

  -- Where UpdateSettings reports an error, nothing of the coordinator has changed: its settings,
  -- client, lists and view are the ones they were. No file has been written if the guest could
  -- not be resolved, and the file at the path loads as before if the settings could not be saved,
  -- unless the error is that of the last step, the change of the file's mode.
  pub update_settings-refused :
      (env : Text) (fuel : ℕ) (preferred : Text) (done : Outcomes) (patch : Settings)
      (disk : Text → File) (c : Coordinator srv) (x : UpdateError)
      → (update_settings srv url_host env fuel preferred done patch (disk, c)).0 ≡ refused x
      → OnlyWorld srv c (update_settings srv url_host env fuel preferred done patch (disk, c)).1.1
        × FileKept x
            (merge_settings_patch env patch c.settings).config_path
            disk
            (update_settings srv url_host env fuel preferred done patch (disk, c)).1.0
  unfolding update_settings
  update_settings-refused env fuel preferred done patch disk c x e =
      let merged = merge_settings_patch env patch c.settings in
      let (r, w) = resolve_node_guest_if_possible srv (is_url url_host) merged c.world in
      let moved : Coordinator srv = record c { world = w } in
      let (same, file) =
        after_resolve-refused fuel preferred merged.config_path done r disk moved x e in
      (subst (OnlyWorld srv c) (sym same) refl, file)
