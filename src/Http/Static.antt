-- ===== src/Http/Static.antt =====
-- internal/httpserver/static.go: the banner, the embedded files and the version.
use proxmox_dns_firewall_loc.Prelude.{Bool, not, ◌&&◌, [], ◌++◌, if◌then◌else◌}
use proxmox_dns_firewall_loc.Text.{Text, codes, text_eq, strip_prefix}
use proxmox_dns_firewall_loc.Http.{
  plain, file, embedded, version_stamp, HttpReply, reply, is_get, wrong_method,
}

abbrev pub default_www_root : Text
default_www_root = codes "/usr/share/pve-dns-lockdown/www"

-- `env` is the variable PVE_DNS_LOCKDOWN_WWW
unfoldable pub www_root : Text → Text
www_root env = if text_eq env [] then default_www_root else env

-- filepath.Join of the root and the banner, for a root that is clean
abbrev banner_path : Text → Text
banner_path env = www_root env ++ codes "/banner.png"

abbrev not_found : HttpReply
not_found = reply 404 (plain (codes "404 page not found\n"))

-- `exists` says what os.Stat finds
unfoldable pub banner : Text → (Text → Bool) → Text → HttpReply
banner env exists method =
    if not (is_get method) && not (text_eq method (codes "HEAD"))
    then wrong_method
    else if exists (banner_path env)
    then reply 200 (file (banner_path env))
    else not_found

abbrev pub assets_prefix : Text
assets_prefix = codes "/assets/"

-- http.StripPrefix and http.FileServer over the embedded files
abbrev pub asset : (Text → Bool) → Text → HttpReply
asset is_embedded path =
    let name = strip_prefix path assets_prefix in
    if is_embedded name then reply 200 (embedded name) else not_found

-- `stamp` is set by the build
abbrev pub template_basename : Text
template_basename = codes "pve-dns-lockdown_ct-template"

unfoldable pub version_handler : Text → Text → HttpReply
version_handler stamp method =
    if not (is_get method) then wrong_method else reply 200 (version_stamp stamp template_basename)

-- Opens every operation of this file, for evaluation.
unfoldable pub static_run : Unit {0}
unfolding www_root banner version_handler
static_run = tt
