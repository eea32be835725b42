-- ===== src/Http.antt =====
-- internal/httpserver: the requests of the page, and what they do to the coordinator. ServeMux,
-- the JSON codec, the embedded files and the text of the page are not part of the repository's own
-- logic: a request comes with its decoded form, a reply holds the values that are encoded.
pub mod Static
pub mod Handlers
pub mod Outcome
pub mod SaveList
mod Tests
use proxmox_dns_firewall_loc.Prelude.{
  ℕ, Bool, true, false, not, ◌||◌, List, [], ◌∷◌, Option, none, some, if◌then◌else◌, ℤ,
}
use proxmox_dns_firewall_loc.Text.{
  Text, codes, text_eq, to_lower, trim_space, replace_crlf, replace_cr, text_run,
}
use proxmox_dns_firewall_loc.Text.Quote.{has_substring, quote_run}
use proxmox_dns_firewall_loc.Config.{Settings, SaveError}
use proxmox_dns_firewall_loc.Proxmox.Api.{Error}
use proxmox_dns_firewall_loc.Proxmox.Resolve.{is_guest_kind, lxc_text}
use proxmox_dns_firewall_loc.Coordinator.State.{ViewState}
use proxmox_dns_firewall_loc.Coordinator.Update.{UpdateError, cannot_resolve, cannot_save, Warning}

-- the form that /api/settings decodes
pub record SettingsForm : Type 0 where
  pub pve_host : Text
  pub pve_node : Text
  pub pve_vmid : ℤ
  pub guest_type : Text
  pub token_id : Text
  pub token_secret : Text
  pub insecure_tls : Bool

-- what the JSON decoder makes of a body, or the text of its error
pub data Decoded : Type 0 where
  form : SettingsForm → Decoded
  malformed : Text → Decoded

-- http.Request; the path is the cleaned one that ServeMux goes by
pub record HttpRequest : Type 0 where
  pub method : Text
  pub path : Text
  pub body : Text
  pub decoded : Decoded
  pub can_flush : Bool

pub data Body : Type 0 where
  plain : Text → Body
  page : Body
  file : Text → Body
  embedded : Text → Body
  version_stamp : Text → Text → Body
  snapshot : ViewState → Body
  event_stream : ViewState → Body
  saved_ok : Body
  settings_ok : Option Warning → Text → Body
  failure : Text → Text → Body

pub record HttpReply : Type 0 where
  pub status : ℕ
  pub body : Body

abbrev pub reply : ℕ → Body → HttpReply
reply status body = record { status = status; body = body }

abbrev pub is_get : Text → Bool
is_get method = text_eq method (codes "GET")

abbrev pub is_post : Text → Bool
is_post method = text_eq method (codes "POST")

abbrev pub wrong_method : HttpReply
wrong_method = reply 405 (plain (codes "method"))

-- the texts that errors print as, which hold the paths of requests and the texts of other packages
pub record ErrorTexts : Type 0 where
  pub of_error : Error → Text
  pub of_save : SaveError → Text

abbrev pub text_of : ErrorTexts → UpdateError → Text
text_of texts (cannot_resolve e) = texts.of_error e
text_of texts (cannot_save e) = texts.of_save e

unfoldable pub normalize_newlines : Text → Text
normalize_newlines s = replace_cr (replace_crlf s)

abbrev pub denied_hint : Text
denied_hint =
    codes
      "Proxmox denied this API call: grant the needed privilege on /vms/<VMID> for **both** the backing user (`user@realm`) and the API token (`…!tokenid`); privsep tokens intersect ACLs with the user. Often add VM.Config.Options for guest notes/description PUT, plus firewall/rule privileges as in docs/proxmox-setup.md. The 403 lists alternatives separated by | — you only need one of them, not every item."

unfoldable pub proxmox_error_hint : Text → Text
proxmox_error_hint msg =
    let msg = to_lower msg in
    if has_substring msg (codes "permission check failed") || has_substring msg (codes "http 403")
    then denied_hint
    else []

-- the patch that a form stands for
unfoldable pub patch_of_form : SettingsForm → Settings
patch_of_form f =
    let guest_type = to_lower (trim_space f.guest_type) in
    record {
      pve_host = trim_space f.pve_host;
      pve_node = trim_space f.pve_node;
      pve_vmid = f.pve_vmid;
      guest_type = if is_guest_kind guest_type then guest_type else lxc_text;
      token_id = trim_space f.token_id;
      token_secret = trim_space f.token_secret;
      insecure_tls = f.insecure_tls;
      config_path = [];
      service_ipv4 = [];
    }

-- Opens every operation of this file, for evaluation.
unfoldable pub http_run : Unit {0}
unfolding text_run quote_run normalize_newlines proxmox_error_hint patch_of_form
http_run = tt
