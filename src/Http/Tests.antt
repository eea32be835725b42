-- ===== src/Http/Tests.antt =====
-- Requests to the concrete guest.
use proxmox_dns_firewall_loc.Prelude.{true, false, [], some, ◌≡◌, refl, pos, ◌∷◌}
use proxmox_dns_firewall_loc.Text.{Text, codes}
use proxmox_dns_firewall_loc.Proxmox.Sample.{server}
use proxmox_dns_firewall_loc.Coordinator.Save.{save_merged_list}
use proxmox_dns_firewall_loc.Coordinator.Save.Errors.{OnlyWorld}
use proxmox_dns_firewall_loc.Coordinator.Sample.{coordinator, host_of, disk, resolver}
use proxmox_dns_firewall_loc.Http.{
  SettingsForm, form, HttpRequest, is_post, ErrorTexts, proxmox_error_hint, denied_hint, http_run,
}
use proxmox_dns_firewall_loc.Http.Handlers.{
  body_limit, limit_bytes, saved_reply, Surroundings, handle, handlers_run,
}
use proxmox_dns_firewall_loc.Http.Outcome.{
  is_failure, channels_after, handle-Honest, handle-not_post,
}
use proxmox_dns_firewall_loc.Http.SaveList.{handle-save_list}

abbrev texts : ErrorTexts
texts = record { of_error = λ e. codes "error"; of_save = λ e. codes "not saved" }

-- nothing can be written
abbrev around : Surroundings
around = record {
  config_env = [];
  www_env = [];
  file_exists = λ p. true;
  is_embedded = λ n. false;
  build_stamp = codes "dev";
  preferred = resolver;
  file_system = record { written = false; renamed = false; changed_mode = false };
}

abbrev blank_form : SettingsForm
blank_form = record {
  pve_host = [];
  pve_node = [];
  pve_vmid = pos 0;
  guest_type = [];
  token_id = [];
  token_secret = [];
  insecure_tls = true;
}

abbrev request : Text → Text → Text → HttpRequest
request method path body = record {
  method = method;
  path = path;
  body = body;
  decoded = form blank_form;
  can_flush = true;
}

abbrev update_request : HttpRequest
update_request = request (codes "POST") (codes "/api/settings") []

fails :
    is_failure (handle server host_of texts 1 around update_request (0 ∷ [], (disk, coordinator))).0
    ≡ true
unfolding handlers_run
fails = refl

handle-Honest_example :
    ((handle server host_of texts 1 around update_request (0 ∷ [], (disk, coordinator))).1.0
      ≡ 0 ∷ [])
    × OnlyWorld server coordinator
        (handle server host_of texts 1 around update_request (0 ∷ [], (disk, coordinator))).1.1.1
handle-Honest_example =
    handle-Honest server host_of texts 1 around update_request (0 ∷ []) disk coordinator fails

abbrev read_request : HttpRequest
read_request = request (codes "GET") (codes "/stream") []

no_post : is_post read_request.method ≡ false
unfolding http_run
no_post = refl

handle-not_post_example :
    (handle server host_of texts 1 around read_request (0 ∷ [], (disk, coordinator))).1
    ≡ (channels_after server host_of texts 1 around read_request (0 ∷ []), (disk, coordinator))
handle-not_post_example =
    handle-not_post server host_of texts 1 around read_request (0 ∷ []) disk coordinator no_post

subscribed :
    (handle server host_of texts 1 around read_request (0 ∷ [], (disk, coordinator))).1.0
    ≡ 1 ∷ 0 ∷ []
unfolding handlers_run
subscribed = refl

-- two bytes of the second character are left
cut_off : limit_bytes 4 (0xe9 ∷ 0x20ac ∷ b'a' ∷ []) ≡ 0xe9 ∷ 0xfffd ∷ 0xfffd ∷ []
unfolding handlers_run
cut_off = refl

abbrev save_request : HttpRequest
save_request =
    request (codes "POST") (codes "/api/save-list") (codes "deb.example\r\n# other.example\r")

is_a_post : is_post save_request.method ≡ true
unfolding http_run
is_a_post = refl

handle-save_list_example :
    let (e, c') = save_merged_list server (limit_bytes body_limit save_request.body) coordinator in
    handle server host_of texts 1 around save_request (0 ∷ [], (disk, coordinator))
    ≡ (some (saved_reply texts e), (0 ∷ [], (disk, c')))
handle-save_list_example =
    handle-save_list server host_of texts 1 around save_request (0 ∷ []) disk coordinator refl
      is_a_post

hinted : proxmox_error_hint (codes "PUT /nodes/pve: HTTP 403 Permission check failed") ≡ denied_hint
unfolding http_run
hinted = refl
