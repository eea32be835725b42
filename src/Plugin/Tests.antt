-- ===== src/Plugin/Tests.antt =====
-- Two responses through the plugin, to a wire that counts them.
use proxmox_dns_firewall_loc.Prelude.{ℕ, ◌+◌, Bool, false, List, [], ◌∷◌, Option, none, some, ◌≡◌}
use proxmox_dns_firewall_loc.Text.{codes}
use proxmox_dns_firewall_loc.Proxmox.Sample.{server}
use proxmox_dns_firewall_loc.Coordinator.Dns.{Message, a}
use proxmox_dns_firewall_loc.Coordinator.Sample.{coordinator, resolver}
use proxmox_dns_firewall_loc.Plugin.{Site}
use proxmox_dns_firewall_loc.Plugin.Transparent.{
  Response, write_all, write_plain, calls_of, handled, write_all-transparent,
}

abbrev count_message : Option Message → ℕ → Bool × ℕ
count_message m n = (false, n + 1)

abbrev read : Message → Message
read m = m

abbrev site : Site server Message ℕ read count_message
site = record { wire = 0; default = some coordinator; warned = false }

abbrev responses : List (Response server Message ℕ read count_message)
responses =
    (none, none)
    ∷ (
      some (codes "deb.example." ∷ []),
      some (record {
        rcode = 0;
        answer = a (some (0 ∷ 0 ∷ 0 ∷ 0 ∷ 0 ∷ 0xffff ∷ 0xc000 ∷ 0x0207 ∷ [])) ∷ [];
      }),
    )
    ∷ []

write_all-transparent_example :
    ((write_all server Message ℕ read count_message responses site).0
      ≡ (write_plain server Message ℕ read count_message responses 0).0)
    × ((write_all server Message ℕ read count_message responses site).1.wire
        ≡ (write_plain server Message ℕ read count_message responses 0).1)
    × ((write_all server Message ℕ read count_message responses site).1.default
        ≡ handled server Message ℕ read count_message 1 resolver
            (calls_of server Message ℕ read count_message responses)
            (some coordinator))
write_all-transparent_example =
    write_all-transparent server Message ℕ read count_message 1 resolver responses site
