-- ===== src/Http/Handlers.antt =====
-- The handlers of internal/httpserver/httpserver.go, and the routes that lead to them.
use proxmox_dns_firewall_loc.Prelude.{
  ℕ, zero, suc, ◌+◌, ◌-◌, Bool, true, false, not, List, [], ◌∷◌, Option, none, some, ltb, leb,
  if◌then◌else◌,
}
use proxmox_dns_firewall_loc.Text.{Text, codes, text_eq, has_prefix}
use proxmox_dns_firewall_loc.Config.{File, Outcomes}
use proxmox_dns_firewall_loc.Proxmox.Api.{Error, not_configured, unresolved_guest, Server}
use proxmox_dns_firewall_loc.Coordinator.State.{Coordinator, ViewState}
use proxmox_dns_firewall_loc.Coordinator.Save.{save_merged_list, save_run}
use proxmox_dns_firewall_loc.Coordinator.Update.{
  UpdateError, cannot_resolve, Updated, refused, accepted, unfinished, update_settings, update_run,
}
use proxmox_dns_firewall_loc.Http.{
  Decoded, form, malformed, HttpRequest, plain, page, snapshot, event_stream, saved_ok, settings_ok,
  failure, HttpReply, reply, is_get, is_post, wrong_method, ErrorTexts, text_of, normalize_newlines,
  proxmox_error_hint, patch_of_form, http_run,
}
use proxmox_dns_firewall_loc.Http.Static.{assets_prefix, banner, asset, version_handler, static_run}

abbrev pub body_limit : ℕ
body_limit = 0x10_0000

-- the bytes of a character in UTF-8
abbrev pub utf8_width : ℕ → ℕ
utf8_width c = if ltb c 0x80 then 1 else if ltb c 0x800 then 2 else if ltb c 0x1_0000 then 3 else 4

-- the first bytes of a character that is cut off: each is read as the replacement character
abbrev pub broken_bytes : ℕ → Text
broken_bytes zero = []
broken_bytes (suc n) = 0xfffd ∷ broken_bytes n

-- io.LimitReader: the first `n` bytes
unfoldable pub limit_bytes : ℕ → Text → Text
limit_bytes n [] = []
limit_bytes n (c ∷ s) =
    let rest = limit_bytes (n - utf8_width c) s in
    if leb (utf8_width c) n then c ∷ rest else broken_bytes n

-- the channel that a subscription makes, told apart from the others by its number
unfoldable pub fresh_channel : List ℕ → ℕ
fresh_channel [] = 0
fresh_channel (n ∷ ns) = let m = fresh_channel ns in if ltb n m then m else n + 1

abbrev pub failure_reply : ℕ → Text → HttpReply
failure_reply status msg = reply status (failure msg (proxmox_error_hint msg))

abbrev pub save_status : Error → ℕ
save_status not_configured = 503
save_status _ = 502

-- writeJSONSaveErr
unfoldable pub write_json_save_err : ErrorTexts → Error → HttpReply
write_json_save_err texts e = failure_reply (save_status e) (texts.of_error e)

-- errors.Is(err, ErrBadSettingsRequest)
abbrev pub is_bad_request : UpdateError → Bool
is_bad_request (cannot_resolve (unresolved_guest vmid e)) = true
is_bad_request _ = false

abbrev pub update_status : UpdateError → ℕ
update_status e = if is_bad_request e then 422 else 502

-- no reply where UpdateSettings has not ended
abbrev pub update_reply : ErrorTexts → Updated → Option HttpReply
update_reply texts (refused e) = some (failure_reply (update_status e) (text_of texts e))
update_reply texts (accepted warn line) = some (reply 200 (settings_ok warn line))
update_reply texts unfinished = none

abbrev pub saved_reply : ErrorTexts → Option Error → HttpReply
saved_reply texts none = reply 200 saved_ok
saved_reply texts (some e) = write_json_save_err texts e

-- what the process finds around it
pub record Surroundings : Type 0 where
  pub config_env : Text
  pub www_env : Text
  pub file_exists : Text → Bool
  pub is_embedded : Text → Bool
  pub build_stamp : Text
  pub preferred : Text
  pub file_system : Outcomes

module _ (srv : Server) (url_host : Text → Option Text) (texts : ErrorTexts) (fuel : ℕ)
    (around : Surroundings) where
  -- the files of the host and the coordinator
  abbrev pub Site : Type 0
  Site = (Text → File) × Coordinator srv

  -- these with Coordinator.subs, the set of channels, whose contents are in Coordinator.Stream
  abbrev pub Connected : Type 0
  Connected = List ℕ × Site

  -- up to the first write; the loop that follows is in Coordinator.Stream
  unfoldable pub stream_handler : HttpRequest → Connected → Option HttpReply × Connected
  stream_handler r (subs, (disk, c)) =
      if not r.can_flush
      then (some (reply 400 (plain (codes "no flush support"))), (subs, (disk, c)))
      else (some (reply 200 (event_stream c.snap)), (fresh_channel subs ∷ subs, (disk, c)))

  abbrev pub snapshot_handler : HttpRequest → ViewState → HttpReply
  snapshot_handler r snap =
      if not (is_get r.method) then wrong_method else reply 200 (snapshot snap)

  abbrev pub save_list : Text → Coordinator srv → Option HttpReply × Coordinator srv
  save_list body c =
      let (e, c') = save_merged_list srv (normalize_newlines (limit_bytes body_limit body)) c in
      (some (saved_reply texts e), c')

  unfoldable pub save_list_handler : HttpRequest → Site → Option HttpReply × Site
  save_list_handler r (disk, c) =
      let (answer, c') = save_list r.body c in
      if not (is_post r.method) then (some wrong_method, (disk, c)) else (answer, (disk, c'))

  abbrev pub apply_form : Decoded → Site → Option HttpReply × Site
  apply_form (malformed text) site = (some (reply 400 (plain text)), site)
  apply_form (form f) site =
      let (r, site') =
        update_settings srv url_host around.config_env fuel around.preferred around.file_system
          (patch_of_form f) site in
      (update_reply texts r, site')

  unfoldable pub settings_handler : HttpRequest → Site → Option HttpReply × Site
  settings_handler r site =
      let answer = apply_form r.decoded site in
      if not (is_post r.method) then (some wrong_method, site) else answer

  -- the routes that only read; a path that no other pattern takes leads to the page
  unfoldable pub reading_handler : HttpRequest → ViewState → HttpReply
  reading_handler r snap =
      if text_eq r.path (codes "/api/snapshot")
      then snapshot_handler r snap
      else if text_eq r.path (codes "/assets/banner.png")
      then banner around.www_env around.file_exists r.method
      else if text_eq r.path (codes "/api/version")
      then version_handler around.build_stamp r.method
      else if has_prefix r.path assets_prefix
      then asset around.is_embedded r.path
      else reply 200 page

  -- the routes that leave the set of channels as it is
  unfoldable pub handle_site : HttpRequest → Site → Option HttpReply × Site
  handle_site r (disk, c) =
      let saved = save_list_handler r (disk, c) in
      let updated = settings_handler r (disk, c) in
      if text_eq r.path (codes "/api/save-list")
      then saved
      else if text_eq r.path (codes "/api/settings")
      then updated
      else (some (reading_handler r c.snap), (disk, c))

  unfoldable pub handle : HttpRequest → Connected → Option HttpReply × Connected
  handle r (subs, site) =
      let joined = stream_handler r (subs, site) in
      let (answer, site') = handle_site r site in
      if text_eq r.path (codes "/stream") then joined else (answer, (subs, site'))

-- Opens every operation of this file, for evaluation.
unfoldable pub handlers_run : Unit {0}
unfolding http_run static_run save_run update_run write_json_save_err save_list_handler
    settings_handler reading_handler limit_bytes fresh_channel stream_handler handle_site handle
handlers_run = tt
