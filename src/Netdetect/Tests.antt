-- ===== src/Netdetect/Tests.antt =====
-- A host with a loopback card, a card that is down, and two addresses on a third.
use proxmox_dns_firewall_loc.Prelude.{true, false, List, [], ◌∷◌, some, if◌then◌else◌, ◌≡◌, refl}
use proxmox_dns_firewall_loc.Text.{codes, text_eq, trim_space}
use proxmox_dns_firewall_loc.Ip.{Ip}
use proxmox_dns_firewall_loc.Netdetect.{
  ip_net, other_address, Interface, preferred_service_ipv4, netdetect_run,
}
use proxmox_dns_firewall_loc.Netdetect.Choice.{
  candidates, first, text_or_empty, preferred_service_ipv4-first,
}

abbrev ten : Ip
ten = 0 ∷ 0 ∷ 0 ∷ 0 ∷ 0 ∷ 0xffff ∷ 0x0a00 ∷ 0x0035 ∷ []

abbrev localhost : Ip
localhost = 0 ∷ 0 ∷ 0 ∷ 0 ∷ 0 ∷ 0xffff ∷ 0x7f00 ∷ 0x0001 ∷ []

abbrev link_local : Ip
link_local = 0xfe80 ∷ 0 ∷ 0 ∷ 0 ∷ 0 ∷ 0 ∷ 0 ∷ 1 ∷ []

abbrev cards : List Interface
cards =
    (record { up = true; loopback = true; addresses = some (ip_net (some localhost) ∷ []) })
    ∷ (record { up = false; loopback = false; addresses = some (ip_net (some localhost) ∷ []) })
    ∷ (record {
      up = true;
      loopback = false;
      addresses = some (other_address ∷ ip_net (some link_local) ∷ ip_net (some ten) ∷ []);
    })
    ∷ []

chosen : preferred_service_ipv4 (codes " ") (some cards) ≡ codes "10.0.0.53"
unfolding netdetect_run
chosen = refl

preferred_service_ipv4-first_example : preferred_service_ipv4 (codes " ") (some cards) ≡ (
    if text_eq (trim_space (codes " ")) []
    then text_or_empty (first (candidates cards))
    else trim_space (codes " "))
preferred_service_ipv4-first_example = preferred_service_ipv4-first (codes " ") cards
