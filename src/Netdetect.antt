-- ===== src/Netdetect.antt =====
-- internal/netdetect/netdetect.go: the address of the host that guests are to ask.
pub mod Choice
mod Tests
use proxmox_dns_firewall_loc.Prelude.{
  ℕ, ◌/◌, Bool, true, false, not, ◌&&◌, ◌||◌, List, [], ◌∷◌, ◌++◌, Option, none, some, ◌==◌,
  if◌then◌else◌,
}
use proxmox_dns_firewall_loc.Text.{Text, text_eq, trim_space, text_run}
use proxmox_dns_firewall_loc.Ip.{Ip, ip_string, is_four, ip_run}

-- net.Addr: a *net.IPNet with its address, which is `none` if it has no length of an address
pub data Address : Type 0 where
  ip_net : Option Ip → Address
  other_address : Address

-- net.Interface; `addresses` is what Addrs returns, or `none` for its error
pub record Interface : Type 0 where
  pub up : Bool
  pub loopback : Bool
  pub addresses : Option (List Address)

-- the octets of an IPv4 address, two to a group
abbrev four_octets : Ip → Option (ℕ × ℕ)
four_octets (a ∷ b ∷ c ∷ d ∷ e ∷ f ∷ g ∷ h ∷ []) = some (g, h)
four_octets _ = none

-- IsLoopback of an IPv4 address: 127.0.0.0/8
unfoldable pub is_loopback : Ip → Bool
is_loopback ip = elim (four_octets ip) [ none ↦ false | some groups ↦ groups.0 / 256 == 127 ]

-- IsUnspecified of an IPv4 address: 0.0.0.0
unfoldable pub is_unspecified : Ip → Bool
is_unspecified ip = elim (four_octets ip) [
  | none ↦ false
  | some groups ↦ groups.0 == 0 && groups.1 == 0
]

abbrev pub is_eligible : Ip → Bool
is_eligible ip = is_four ip && not (is_loopback ip || is_unspecified ip)

-- the inner loop: the first address that is returned
unfoldable pub first_address : List Address → Option Ip
first_address [] = none
first_address (ip_net (some ip) ∷ rest) =
    let later = first_address rest in if is_eligible ip then some ip else later
first_address (_ ∷ rest) = first_address rest

abbrev pub is_usable : Interface → Bool
is_usable i = i.up && not i.loopback

abbrev pub address_of : Interface → Option Ip
address_of i =
    if is_usable i
    then elim i.addresses [ none ↦ none | some addrs ↦ first_address addrs ]
    else none

abbrev or_next : Option Ip → Option Ip → Option Ip
or_next (some ip) later = some ip
or_next none later = later

-- the outer loop
unfoldable pub search_interfaces : List Interface → Option Ip
search_interfaces [] = none
search_interfaces (i ∷ rest) = or_next (address_of i) (search_interfaces rest)

-- net.Interfaces, where `none` is its error
abbrev pub found : Option (List Interface) → Text
found none = []
found (some interfaces) = elim (search_interfaces interfaces) [ none ↦ [] | some ip ↦ ip_string ip ]

-- `env` is the variable LOCKDOWN_SERVICE_IP
unfoldable pub preferred_service_ipv4 : Text → Option (List Interface) → Text
preferred_service_ipv4 env interfaces =
    if text_eq (trim_space env) [] then found interfaces else trim_space env

-- Opens every operation of this file, for evaluation.
unfoldable pub netdetect_run : Unit {0}
unfolding text_run ip_run is_loopback is_unspecified first_address search_interfaces
    preferred_service_ipv4
netdetect_run = tt
