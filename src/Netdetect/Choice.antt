-- ===== src/Netdetect/Choice.antt =====
-- Which address is chosen.
use proxmox_dns_firewall_loc.Prelude.{
  Bool, List, [], ◌∷◌, ◌++◌, Option, none, some, if◌then◌else◌, Bool-cases, inl, inr, ◌≡◌, refl,
  sym, ap, ◌∙◌, keep, keep_head, keep_dropped,
}
use proxmox_dns_firewall_loc.Text.{Text, text_eq, trim_space}
use proxmox_dns_firewall_loc.Ip.{Ip, ip_string}
use proxmox_dns_firewall_loc.Netdetect.{
  Address, ip_net, other_address, Interface, is_eligible, first_address, is_usable, or_next,
  search_interfaces, found, preferred_service_ipv4,
}

-- all addresses of a network card that have the length of one
abbrev ips_in : List Address → List Ip
ips_in [] = []
ips_in (ip_net (some ip) ∷ rest) = ip ∷ ips_in rest
ips_in (ip_net none ∷ rest) = ips_in rest
ips_in (other_address ∷ rest) = ips_in rest

abbrev ips_of_card : Interface → List Ip
ips_of_card i = elim i.addresses [ none ↦ [] | some addrs ↦ ips_in addrs ]

abbrev ips_of_cards : List Interface → List Ip
ips_of_cards [] = []
ips_of_cards (i ∷ rest) = ips_of_card i ++ ips_of_cards rest

-- the addresses that may be chosen, in the order of the cards
abbrev pub candidates : List Interface → List Ip
candidates cards = keep is_eligible (ips_of_cards (keep is_usable cards))

abbrev pub first : List Ip → Option Ip
first [] = none
first (ip ∷ ips) = some ip

keep-append : (p : Ip → Bool) (xs ys : List Ip) → keep p (xs ++ ys) ≡ keep p xs ++ keep p ys
keep-append p [] ys = refl
keep-append p (x ∷ xs) ys = elim (Bool-cases (p x)) [
  | inl e ↦
      keep_head p x (xs ++ ys) e
      ∙ ap (λ t. x ∷ t) (keep-append p xs ys)
      ∙ sym (ap (λ t. t ++ keep p ys) (keep_head p x xs e))
  | inr e ↦
      keep_dropped p x (xs ++ ys) e
      ∙ keep-append p xs ys
      ∙ sym (ap (λ t. t ++ keep p ys) (keep_dropped p x xs e))
]

first-append : (xs ys : List Ip) → first (xs ++ ys) ≡ or_next (first xs) (first ys)
first-append [] ys = refl
first-append (x ∷ xs) ys = refl

first_address-first :
    (addrs : List Address) → first_address addrs ≡ first (keep is_eligible (ips_in addrs))
unfolding first_address
first_address-first [] = refl
first_address-first (ip_net none ∷ rest) = first_address-first rest
first_address-first (other_address ∷ rest) = first_address-first rest
first_address-first (ip_net (some ip) ∷ rest) = elim (Bool-cases (is_eligible ip)) [
  | inl e ↦ rw (e, keep_head is_eligible ip (ips_in rest) e) refl
  | inr e ↦ rw (e, keep_dropped is_eligible ip (ips_in rest) e) (first_address-first rest)
]

card_first :
    (o : Option (List Address))
    → elim o [ none ↦ none | some addrs ↦ first_address addrs ]
      ≡ first (keep is_eligible (elim o [ none ↦ [] | some addrs ↦ ips_in addrs ]))
card_first none = refl
card_first (some addrs) = first_address-first addrs

search_interfaces-first :
    (cards : List Interface) → search_interfaces cards ≡ first (candidates cards)
unfolding search_interfaces
search_interfaces-first [] = refl
search_interfaces-first (i ∷ rest) = elim (Bool-cases (is_usable i)) [
  | inl e ↦
      rw (e, keep_head is_usable i rest e)
        (ap (λ o. or_next o (search_interfaces rest)) (card_first i.addresses)
          ∙ ap (or_next (first (keep is_eligible (ips_of_card i)))) (search_interfaces-first rest)
          ∙ sym (
              ap first
                (keep-append is_eligible (ips_of_card i) (ips_of_cards (keep is_usable rest)))
              ∙ first-append (keep is_eligible (ips_of_card i)) (candidates rest)))
  | inr e ↦ rw (e, keep_dropped is_usable i rest e) (search_interfaces-first rest)
]

abbrev pub text_or_empty : Option Ip → Text
text_or_empty none = []
text_or_empty (some ip) = ip_string ip

found-first :
    (cards : List Interface) → found (some cards) ≡ text_or_empty (first (candidates cards))
found-first cards = by_choice (search_interfaces cards) (search_interfaces-first cards)
  where
    by_choice :
        (o : Option Ip)
        → o ≡ first (candidates cards)
        → elim o [ none ↦ [] | some ip ↦ ip_string ip ] ≡ text_or_empty (first (candidates cards))
    by_choice none e = ap text_or_empty e
    by_choice (some ip) e = ap text_or_empty e

-- Without a value of the variable, PreferredServiceIPv4 is the first of all the addresses of the
-- network cards that are up and no loopback cards, among those that are IPv4 addresses and neither
-- loopback addresses nor 0.0.0.0, and it is empty if there is none; with a value it is that value,
-- trimmed.
pub preferred_service_ipv4-first :
    (env : Text) (cards : List Interface)
    → preferred_service_ipv4 env (some cards) ≡ (
        if text_eq (trim_space env) []
        then text_or_empty (first (candidates cards))
        else trim_space env)
unfolding preferred_service_ipv4
preferred_service_ipv4-first env cards =
    ap (λ t. if text_eq (trim_space env) [] then t else trim_space env) (found-first cards)
