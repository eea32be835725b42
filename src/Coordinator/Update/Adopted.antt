-- ===== src/Coordinator/Update/Adopted.antt =====
-- An update of the settings that is accepted.
use proxmox_dns_firewall_loc.Prelude.{
  ℕ, false, Option, none, some, if◌then◌else◌, Bool-cases, inl, inr, ◌≡◌, refl, sym, ap, subst, ◌∙◌,
  [], not, ◌||◌,
}
use proxmox_dns_firewall_loc.Text.{Text, text_eq}
use proxmox_dns_firewall_loc.Config.{
  Settings, File, loaded_settings, path_or_default, cleaned, load, save, SaveError, Outcomes,
  is_loaded,
}
use proxmox_dns_firewall_loc.Config.Laws.{load-save, save-none}
use proxmox_dns_firewall_loc.Proxmox.Api.{Error, Result, ok, err, Client, Server}
use proxmox_dns_firewall_loc.Proxmox.Client.{resolve_guest_by_vmid, no_cache}
use proxmox_dns_firewall_loc.Proxmox.Resolve.{Hit}
use proxmox_dns_firewall_loc.Proxmox.Reconcile.{Bounded, out_of_fuel, finished}
use proxmox_dns_firewall_loc.Coordinator.State.{Coordinator}
use proxmox_dns_firewall_loc.Coordinator.Refresh.{refresh}
use proxmox_dns_firewall_loc.Coordinator.Refresh.Laws.{refresh-configured}
use proxmox_dns_firewall_loc.Coordinator.Configure.{
  client_of, merge_settings_patch, resolve_node_guest_if_possible, reload_client, bootstrap_client,
  run_bootstrap, resolved, resolve_with, can_resolve,
}
use proxmox_dns_firewall_loc.Coordinator.Update.{
  Warning, warning_of, accepted, is_url, probe_version, bootstrapped_reply, adopt, after_save,
  after_resolve, update_settings,
}

module _ (srv : Server) where
  -- the settings and the client are the same
  abbrev Configured : Coordinator srv → Coordinator srv → Type 0
  Configured c c' = (c'.settings ≡ c.settings) × (c'.px ≡ c.px)

  bootstrap_client-Configured :
      (fuel : ℕ) (preferred : Text) (o : Option Client) (c : Coordinator srv)
      → Configured c (bootstrap_client srv fuel preferred o c).1
  bootstrap_client-Configured fuel preferred none c = (refl, refl)
  bootstrap_client-Configured fuel preferred (some px) c =
      elim (Bool-cases (not (is_loaded c.settings) || text_eq preferred [])) [
        | inl skipped ↦ rw skipped (refl, refl)
        | inr at_work ↦ rw at_work (refl, refl)
      ]

  probe_version-Configured :
      (url_host : Text → Option Text) (o : Option Client) (c : Coordinator srv)
      → Configured c (probe_version srv url_host o c).1
  probe_version-Configured url_host none c = (refl, refl)
  probe_version-Configured url_host (some px) c = (refl, refl)

  module _ (url_host : Text → Option Text) where
    -- what an accepted reply says of the state after the bootstrap
    bootstrapped_reply-accepted :
        (warn warn' : Option Warning) (line : Text) (x : Bounded × Coordinator srv)
        → (bootstrapped_reply srv url_host warn x).0 ≡ accepted warn' line
        → Configured x.1 (bootstrapped_reply srv url_host warn x).1 × (warn' ≡ warn)
    bootstrapped_reply-accepted warn warn' line (out_of_fuel, c) e = cc
    bootstrapped_reply-accepted warn warn' line (finished r, c) e =
        let (settings, client) = refresh-configured srv c in
        let c' = refresh srv c in
        let (settings', client') = probe_version-Configured url_host c'.px c' in
        ((settings' ∙ settings, client' ∙ client), cc)

    abbrev pub client_for : Settings → Option Client
    client_for s = if is_loaded s then client_of (is_url url_host) s else none

    adopt-px :
        (merged : Settings) (c : Coordinator srv)
        → (adopt srv url_host merged c).px ≡ client_for merged
    unfolding reload_client
    adopt-px merged c = refl

    -- what an accepted update leaves: the file holds the settings that are at work, the client is
    -- the one that they stand for, and a warning names their node
    pub record Adopted (wpath : Text) (warn : Option Warning) (disk : Text → File)
        (c : Coordinator srv) : Type 0 where
      pub stored : load wpath disk ≡ loaded_settings (cleaned (path_or_default wpath) c.settings)
      pub client : c.px ≡ client_for c.settings
      pub warned :
          (w : Warning)
          → warn ≡ some w
          → (text_eq w.node [] ≡ false) × (w.node ≡ c.settings.pve_node)

    abbrev NodeGiven : Option Error → Settings → Type 0
    NodeGiven none s = Unit {0}
    NodeGiven (some e) s = text_eq s.pve_node [] ≡ false

    warning_of-NodeGiven :
        (failed : Option Error) (s : Settings) (w : Warning)
        → NodeGiven failed s
        → warning_of s failed ≡ some w
        → (text_eq w.node [] ≡ false) × (w.node ≡ s.pve_node)
    warning_of-NodeGiven none s w n e = cc
    warning_of-NodeGiven (some x) s w n e =
        let same : s.pve_node ≡ w.node = ap (λ o. node_of o) e in
        (subst (λ t. text_eq t [] ≡ false) same n, sym same)
      where
        node_of : Option Warning → Text
        node_of none = []
        node_of (some w) = w.node

    after_save-accepted :
        (fuel : ℕ) (preferred wpath : Text) (done : Outcomes) (disk : Text → File)
        (failed : Option Error) (merged : Settings) (c : Coordinator srv) (o : Option SaveError)
        (warn : Option Warning) (line : Text)
        → NodeGiven failed merged
        → (save wpath merged done disk).0 ≡ o
        → (after_save srv url_host fuel preferred (warning_of merged failed) merged o c).0
          ≡ accepted warn line
        → Adopted wpath warn
            (save wpath merged done disk).1
            (after_save srv url_host fuel preferred (warning_of merged failed) merged o c).1
    after_save-accepted fuel preferred wpath done disk failed merged c (some x) warn line n s e = cc
    after_save-accepted fuel preferred wpath done disk failed merged c none warn line n s e =
        let c1 = adopt srv url_host merged c in
        let x = run_bootstrap srv fuel preferred c1 in
        let started : Configured c1 x.1 =
          unfold run_bootstrap in bootstrap_client-Configured fuel preferred c1.px c1 in
        let (kept, same) = bootstrapped_reply-accepted (warning_of merged failed) warn line x e in
        let c' = (bootstrapped_reply srv url_host (warning_of merged failed) x).1 in
        let settings : c'.settings ≡ merged = kept.0 ∙ started.0 ∙ (unfold reload_client in refl) in
        let client : c'.px ≡ client_for merged = kept.1 ∙ started.1 ∙ adopt-px merged c in
        let stored : load wpath (save wpath merged done disk).1
            ≡ loaded_settings (cleaned (path_or_default wpath) merged) =
          load-save wpath merged done disk ∙ rw (save-none wpath merged done disk s) refl in
        record {
          stored =
              stored ∙ ap (λ m. loaded_settings (cleaned (path_or_default wpath) m)) (sym settings);
          client = client ∙ ap client_for (sym settings);
          warned = λ w k.
              let (given, node) = warning_of-NodeGiven failed merged w n (sym same ∙ k) in
              (given, node ∙ ap (λ (m : Settings). m.pve_node) (sym settings));
        }

    abbrev NodeKnown : Result (Option Error × Settings) → Type 0
    NodeKnown (err e) = Unit {0}
    NodeKnown (ok (failed, s)) = NodeGiven failed s

    resolved-NodeKnown : (s : Settings) (r : Result Hit) → NodeKnown (resolved s r)
    resolved-NodeKnown s (ok h) = tt
    resolved-NodeKnown s (err e) = elim (Bool-cases (text_eq s.pve_node [])) [
      | inl empty ↦ rw empty tt
      | inr given ↦ rw given given
    ]

    resolve_with-NodeKnown :
        (s : Settings) (o : Option Client) (w : srv.World)
        → NodeKnown (resolve_with srv (is_url url_host) s o w).0
    resolve_with-NodeKnown s none w = tt
    resolve_with-NodeKnown s (some px) w =
        resolved-NodeKnown s
          (resolve_guest_by_vmid srv px s.pve_vmid (record { world = w; cache = no_cache })).0

    resolve_node_guest-NodeKnown :
        (s : Settings) (w : srv.World)
        → NodeKnown (resolve_node_guest_if_possible srv (is_url url_host) s w).0
    unfolding resolve_node_guest_if_possible
    resolve_node_guest-NodeKnown s w = elim (Bool-cases (not (can_resolve s))) [
      | inl bare ↦ rw bare tt
      | inr full ↦ rw full (resolve_with-NodeKnown s (client_of (is_url url_host) s) w)
    ]

    after_resolve-accepted :
        (fuel : ℕ) (preferred wpath : Text) (done : Outcomes) (r : Result (Option Error × Settings))
        (disk : Text → File) (c : Coordinator srv) (warn : Option Warning) (line : Text)
        → NodeKnown r
        → (after_resolve srv url_host fuel preferred wpath done r (disk, c)).0 ≡ accepted warn line
        → Adopted wpath warn
            (after_resolve srv url_host fuel preferred wpath done r (disk, c)).1.0
            (after_resolve srv url_host fuel preferred wpath done r (disk, c)).1.1
    after_resolve-accepted fuel preferred wpath done (err x) disk c warn line n e = cc
    after_resolve-accepted fuel preferred wpath done (ok (failed, merged)) disk c warn line n e =
        after_save-accepted fuel preferred wpath done disk failed merged c
          (save wpath merged done disk).0 warn line n refl e

    -- Where UpdateSettings reports no error: a load of the file that the patch names gives the
    -- settings that are at work now, cleaned; the client is the one that these settings stand for,
    -- if they are complete, and there is none if not; and a warning that the VMID was not resolved
    -- comes only with a node that was given, which is the one that is saved. It may have had any
    -- outcome of the API's requests.
    pub update_settings-Adopted :
        (env : Text) (fuel : ℕ) (preferred : Text) (done : Outcomes) (patch : Settings)
        (disk : Text → File) (c : Coordinator srv) (warn : Option Warning) (line : Text)
        → (update_settings srv url_host env fuel preferred done patch (disk, c)).0
          ≡ accepted warn line
        → Adopted
            (merge_settings_patch env patch c.settings).config_path
            warn
            (update_settings srv url_host env fuel preferred done patch (disk, c)).1.0
            (update_settings srv url_host env fuel preferred done patch (disk, c)).1.1
    unfolding update_settings
    update_settings-Adopted env fuel preferred done patch disk c warn line e =
        let merged = merge_settings_patch env patch c.settings in
        let (r, w) = resolve_node_guest_if_possible srv (is_url url_host) merged c.world in
        after_resolve-accepted fuel preferred merged.config_path done r disk
          (record c { world = w }) warn line (resolve_node_guest-NodeKnown merged c.world) e
