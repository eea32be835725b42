-- ===== src/Ip/Tests.antt =====
-- Runs of the address functions.
use proxmox_dns_firewall_loc.Prelude.{◌≡◌, refl, Option, none, some, []}
use proxmox_dns_firewall_loc.Text.{Text, codes}
use proxmox_dns_firewall_loc.Ip.{parse_ip, ip_string, ip_run}
use mathlib.Core.Option

abbrev canonical : Text → Option Text
canonical s = Option.map ip_string (parse_ip s)

-- the addresses of TestCanonIPsUniqueStable, and others
canonical_texts :
    (canonical (codes "1.2.3.4") ≡ some (codes "1.2.3.4"))
    × (canonical (codes "2001:db8::1") ≡ some (codes "2001:db8::1"))
    × (canonical (codes "::1") ≡ some (codes "::1"))
    × (canonical (codes "::") ≡ some (codes "::"))
    × (canonical (codes "2001:DB8:0:0:1:0:0:1") ≡ some (codes "2001:db8::1:0:0:1"))
    × (canonical (codes "1:2:3:4:5:6:7::") ≡ some (codes "1:2:3:4:5:6:7:0"))
    × (canonical (codes "::ffff:192.0.2.255") ≡ some (codes "192.0.2.255"))
    × (canonical (codes "64:ff9b::192.0.2.33") ≡ some (codes "64:ff9b::c000:221"))
unfolding ip_run
canonical_texts = (refl, refl, refl, refl, refl, refl, refl, refl)

refused_texts :
    (parse_ip (codes "bogus") ≡ none)
    × (parse_ip (codes "1.2.3") ≡ none)
    × (parse_ip (codes "1.2.3.04") ≡ none)
    × (parse_ip (codes "1.2.3.256") ≡ none)
    × (parse_ip (codes "1::2::3") ≡ none)
    × (parse_ip (codes "fe80::1%eth0") ≡ none)
    × (parse_ip (codes "1:2:3:4:5:6:7:8::") ≡ none)
    × (parse_ip (codes "12345::") ≡ none)
    × (parse_ip [] ≡ none)
unfolding ip_run
refused_texts = (refl, refl, refl, refl, refl, refl, refl, refl, refl)
