-- ===== src/Http/SaveList.antt =====
-- The body of a request to /api/save-list, and what is saved of it.
use proxmox_dns_firewall_loc.Prelude.{ℕ, true, false, Option, none, some, ◌≡◌, refl, ap, ◌∙◌, List}
use proxmox_dns_firewall_loc.Text.{Text, codes, text_eq, text_eq_refl, replace_crlf}
use proxmox_dns_firewall_loc.Text.Newlines.{unify_trim_idem}
use proxmox_dns_firewall_loc.Config.{File}
use proxmox_dns_firewall_loc.Proxmox.Api.{Client, Server}
use proxmox_dns_firewall_loc.Coordinator.Changes.{normalize_allowlist_multiline}
use proxmox_dns_firewall_loc.Coordinator.State.{Coordinator}
use proxmox_dns_firewall_loc.Coordinator.Save.{save_client, save_merged_list}
use proxmox_dns_firewall_loc.Http.{HttpRequest, is_post, ErrorTexts, normalize_newlines}
use proxmox_dns_firewall_loc.Http.Handlers.{
  body_limit, limit_bytes, saved_reply, Surroundings, save_list_handler, handle_site, handle,
}

normalize_allowlist-newlines :
    (s : Text)
    → normalize_allowlist_multiline (normalize_newlines s) ≡ normalize_allowlist_multiline s
unfolding normalize_allowlist_multiline normalize_newlines
normalize_allowlist-newlines s = unify_trim_idem (replace_crlf s)

save_client-newlines :
    (srv : Server) (text : Text) (o : Option Client) (c : Coordinator srv)
    → save_client srv (normalize_newlines text) o c ≡ save_client srv text o c
save_client-newlines srv text none c = refl
save_client-newlines srv text (some px) c = rw (normalize_allowlist-newlines text) refl

save_merged_list-newlines :
    (srv : Server) (text : Text) (c : Coordinator srv)
    → save_merged_list srv (normalize_newlines text) c ≡ save_merged_list srv text c
unfolding save_merged_list
save_merged_list-newlines srv text c = save_client-newlines srv text c.px c

module _ (srv : Server) (url_host : Text → Option Text) (texts : ErrorTexts) (fuel : ℕ)
    (around : Surroundings) where
  save_list_handler-saved :
      (r : HttpRequest) (disk : Text → File) (c : Coordinator srv)
      → is_post r.method ≡ true
      → let (e, c') = save_merged_list srv (limit_bytes body_limit r.body) c in
        save_list_handler srv url_host texts fuel around r (disk, c)
        ≡ (some (saved_reply texts e), (disk, c'))
  unfolding save_list_handler
  save_list_handler-saved r disk c post =
      rw (post, save_merged_list-newlines srv (limit_bytes body_limit r.body) c) refl

  -- A POST to /api/save-list saves what SaveMergedList makes of the first 2 ^ 20 bytes of the body as
  -- they were sent: that the handler unifies the line ends first makes no difference. The reply is
  -- the one for the error of that save, or for none, and nothing else changes.
  pub handle-save_list :
      (r : HttpRequest) (subs : List ℕ) (disk : Text → File) (c : Coordinator srv)
      → r.path ≡ codes "/api/save-list"
      → is_post r.method ≡ true
      → let (e, c') = save_merged_list srv (limit_bytes body_limit r.body) c in
        handle srv url_host texts fuel around r (subs, (disk, c))
        ≡ (some (saved_reply texts e), (subs, (disk, c')))
  unfolding handle handle_site
  handle-save_list r subs disk c at post =
      let route = codes "/api/save-list" in
      let here : text_eq r.path route ≡ true = ap (λ t. text_eq t route) at ∙ text_eq_refl route in
      let elsewhere : text_eq r.path (codes "/stream") ≡ false =
        ap (λ t. text_eq t (codes "/stream")) at ∙ (unfold text_eq in refl) in
      rw (elsewhere, here) (ap (λ x. (x.0, (subs, x.1))) (save_list_handler-saved r disk c post))
