-- ===== src/Http/Outcome.antt =====
-- What a request has changed, by its reply.
use proxmox_dns_firewall_loc.Prelude.{
  ℕ, Bool, true, false, not, Option, none, some, ltb, Bool-cases, inl, inr, ◌≡◌, refl, ap, List,
  ◌∷◌, if◌then◌else◌, ◌&&◌,
}
use proxmox_dns_firewall_loc.Text.{Text, codes, text_eq}
use proxmox_dns_firewall_loc.Config.{File}
use proxmox_dns_firewall_loc.Proxmox.Api.{Error, Server}
use proxmox_dns_firewall_loc.Coordinator.State.{Coordinator}
use proxmox_dns_firewall_loc.Coordinator.Save.{save_merged_list}
use proxmox_dns_firewall_loc.Coordinator.Save.Errors.{OnlyWorld, save_merged_list-failed}
use proxmox_dns_firewall_loc.Coordinator.Update.{
  UpdateError, Updated, refused, accepted, unfinished, update_settings,
}
use proxmox_dns_firewall_loc.Coordinator.Update.Refused.{update_settings-refused}
use proxmox_dns_firewall_loc.Http.{
  Decoded, form, malformed, HttpRequest, HttpReply, is_post, ErrorTexts, normalize_newlines,
  patch_of_form,
}
use proxmox_dns_firewall_loc.Http.Handlers.{
  body_limit, limit_bytes, fresh_channel, stream_handler, handle_site, update_reply, saved_reply,
  Surroundings, Site, save_list_handler, apply_form, settings_handler, reading_handler, handle,
}

-- an answer with a status of 400 or more
abbrev pub is_failure : Option HttpReply → Bool
is_failure none = false
is_failure (some x) = ltb 399 x.status

module _ (srv : Server) (url_host : Text → Option Text) (texts : ErrorTexts) (fuel : ℕ)
    (around : Surroundings) where
  abbrev pub Answered : Type 0
  Answered = Option HttpReply × Site srv url_host texts fuel around

  -- a property of the answer to a request that is got by the tests on the path
  handle_site-cases :
      (P : Answered → Type 0) (r : HttpRequest) (site : Site srv url_host texts fuel around)
      → P (save_list_handler srv url_host texts fuel around r site)
      → P (settings_handler srv url_host texts fuel around r site)
      → ((a : HttpReply) → P (some a, site))
      → P (handle_site srv url_host texts fuel around r site)
  unfolding handle_site
  handle_site-cases P r (disk, c) saved updated other =
      elim (Bool-cases (text_eq r.path (codes "/api/save-list"))) [
        | inl e ↦ rw e saved
        | inr e ↦ rw e (elim (Bool-cases (text_eq r.path (codes "/api/settings"))) [
          | inl e ↦ rw e updated
          | inr e ↦ rw e (other (reading_handler srv url_host texts fuel around r c.snap))
        ])
      ]

  -- a reply with the status of an error comes with an unchanged coordinator
  abbrev pub Honest : Coordinator srv → Answered → Type 0
  Honest c (a, site) = is_failure a ≡ true → OnlyWorld srv c site.1

  saved_reply-Honest :
      (disk : Text → File) (c c' : Coordinator srv) (o : Option Error)
      → ((e : Error) → o ≡ some e → OnlyWorld srv c c')
      → Honest c (some (saved_reply texts o), (disk, c'))
  saved_reply-Honest disk c c' (some e) h k = h e refl
  saved_reply-Honest disk c c' none h k = cc

  save_list_handler-Honest :
      (r : HttpRequest) (disk : Text → File) (c : Coordinator srv)
      → Honest c (save_list_handler srv url_host texts fuel around r (disk, c))
  unfolding save_list_handler
  save_list_handler-Honest r disk c = elim (Bool-cases (not (is_post r.method))) [
    | inl other ↦ rw other (λ k. refl)
    | inr post ↦
        let text = normalize_newlines (limit_bytes body_limit r.body) in
        rw post (
          saved_reply-Honest disk c (save_merged_list srv text c).1 (save_merged_list srv text c).0
            (λ e k. save_merged_list-failed srv text c e k))
  ]

  update_reply-Honest :
      (disk : Text → File) (c c' : Coordinator srv) (u : Updated)
      → ((e : UpdateError) → u ≡ refused e → OnlyWorld srv c c')
      → Honest c (update_reply texts u, (disk, c'))
  update_reply-Honest disk c c' (refused e) h k = h e refl
  update_reply-Honest disk c c' (accepted warn line) h k = cc
  update_reply-Honest disk c c' unfinished h k = cc

  apply_form-Honest :
      (d : Decoded) (disk : Text → File) (c : Coordinator srv)
      → Honest c (apply_form srv url_host texts fuel around d (disk, c))
  apply_form-Honest (malformed text) disk c = λ k. refl
  apply_form-Honest (form f) disk c =
      let (u, (disk', c')) =
        update_settings srv url_host around.config_env fuel around.preferred around.file_system
          (patch_of_form f) (disk, c) in
      update_reply-Honest disk' c c' u (λ e k.
        (update_settings-refused srv url_host around.config_env fuel around.preferred
          around.file_system (patch_of_form f) disk c e k).0)

  settings_handler-Honest :
      (r : HttpRequest) (disk : Text → File) (c : Coordinator srv)
      → Honest c (settings_handler srv url_host texts fuel around r (disk, c))
  unfolding settings_handler
  settings_handler-Honest r disk c = elim (Bool-cases (not (is_post r.method))) [
    | inl other ↦ rw other (λ k. refl)
    | inr post ↦ rw post (apply_form-Honest r.decoded disk c)
  ]

  stream_handler-Honest :
      (r : HttpRequest) (subs : List ℕ) (disk : Text → File) (c : Coordinator srv)
      → let (a, (subs', site')) =
          stream_handler srv url_host texts fuel around r (subs, (disk, c)) in
        is_failure a ≡ true → (subs' ≡ subs) × OnlyWorld srv c site'.1
  unfolding stream_handler
  stream_handler-Honest r subs disk c = elim (Bool-cases r.can_flush) [
    | inl e ↦ rw e (λ k. cc)
    | inr e ↦ rw e (λ k. (refl, refl))
  ]

  -- Whatever the request is: where its reply has the status of an error (400 or more), nothing of
  -- the coordinator has changed, the set of its channels included; only the world outside may have.
  pub handle-Honest :
      (r : HttpRequest) (subs : List ℕ) (disk : Text → File) (c : Coordinator srv)
      → is_failure (handle srv url_host texts fuel around r (subs, (disk, c))).0 ≡ true
      → ((handle srv url_host texts fuel around r (subs, (disk, c))).1.0 ≡ subs)
        × OnlyWorld srv c (handle srv url_host texts fuel around r (subs, (disk, c))).1.1.1
  unfolding handle
  handle-Honest r subs disk c = elim (Bool-cases (text_eq r.path (codes "/stream"))) [
    | inl e ↦ rw e (stream_handler-Honest r subs disk c)
    | inr e ↦ rw e (λ k. (
      refl,
      handle_site-cases (Honest c) r (disk, c) (save_list_handler-Honest r disk c)
          (settings_handler-Honest r disk c) (λ a k. refl) k,
    ))
  ]

  -- the channels after a request that is no POST
  abbrev pub channels_after : HttpRequest → List ℕ → List ℕ
  channels_after r subs =
      if text_eq r.path (codes "/stream") && r.can_flush then fresh_channel subs ∷ subs else subs

  stream_handler-joined :
      (r : HttpRequest) (subs : List ℕ) (disk : Text → File) (c : Coordinator srv)
      → (stream_handler srv url_host texts fuel around r (subs, (disk, c))).1
        ≡ ((if r.can_flush then fresh_channel subs ∷ subs else subs), (disk, c))
  unfolding stream_handler
  stream_handler-joined r subs disk c = elim (Bool-cases r.can_flush) [
    | inl e ↦ rw e refl
    | inr e ↦ rw e refl
  ]

  -- A request that is no POST changes no file, sends nothing to the API, and changes nothing of the
  -- coordinator but the set of its channels, whatever its path is; and there it adds one new
  -- channel, if the path is /stream and the connection can be flushed.
  pub handle-not_post :
      (r : HttpRequest) (subs : List ℕ) (disk : Text → File) (c : Coordinator srv)
      → is_post r.method ≡ false
      → (handle srv url_host texts fuel around r (subs, (disk, c))).1
        ≡ (channels_after r subs, (disk, c))
  unfolding handle
  handle-not_post r subs disk c e = elim (Bool-cases (text_eq r.path (codes "/stream"))) [
    | inl here ↦ rw here (stream_handler-joined r subs disk c)
    | inr other ↦ rw other (
        ap (λ site. (subs, site))
          (handle_site-cases (λ x. x.1 ≡ (disk, c)) r (disk, c)
            (unfold save_list_handler in rw e refl) (unfold settings_handler in rw e refl)
            (λ a. refl)))
  ]
