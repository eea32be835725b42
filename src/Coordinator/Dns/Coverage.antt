-- ===== src/Coordinator/Dns/Coverage.antt =====
-- The loops of ApplyDNS for an allowed name, seen from one address of the answer.
use proxmox_dns_firewall_loc.Prelude.{
  true, false, ◌||◌, List, [], ◌∷◌, Option, none, some, Bool-cases, inl, inr, ◌≡◌, refl, sym, subst,
  ◌∙◌, any,
}
use proxmox_dns_firewall_loc.Text.{Text, codes, text_eq, text_eq_iff, contains}
use proxmox_dns_firewall_loc.Ip.{Ip, parse_ip, ip_string, is_four}
use proxmox_dns_firewall_loc.Proxmox.Api.{Guest, Client, Server}
use proxmox_dns_firewall_loc.Proxmox.Rules.{
  ip_family_four, ip_family_six, ip_family_from_ip, canonical_ip_string, dynamic_rule_matches_dest,
}
use proxmox_dns_firewall_loc.Proxmox.Rules.Tags.{ColonFree}
use proxmox_dns_firewall_loc.Proxmox.Reconcile.Model.{Pve}
use proxmox_dns_firewall_loc.Coordinator.State.{Coordinator}
use proxmox_dns_firewall_loc.Coordinator.Firewall.{Logged}
use proxmox_dns_firewall_loc.Coordinator.Firewall.Foreign.{is_foreign, foreign-Apart}
use proxmox_dns_firewall_loc.Coordinator.Firewall.Steps.{held, Ready}
use proxmox_dns_firewall_loc.Coordinator.Dns.{
  Answer, is_a, is_aaaa, is_six, ips_of, desired_from, apply_address, apply_addresses, prune_when,
  reconcile_answer,
}
use proxmox_dns_firewall_loc.Coordinator.Dns.Safety.{
  apply_address-Spared, apply_addresses-Spared, prune_when-Spared,
}
use proxmox_dns_firewall_loc.Coordinator.Dns.Covered.{
  is_failed, desired_from-wanted, contains-none, contains_later, Done, sync_address-Done, own-Done,
  prune_when-Done,
}

families_differ : text_eq ip_family_six ip_family_four ≡ false
unfolding text_eq
families_differ = refl

one_family : {A : Type 0} → ip_family_six ≡ ip_family_four → A
one_family e =
    let same = (text_eq_iff ip_family_six ip_family_four).1 e in cc (sym families_differ ∙ same)

four-is : (q : Ip) → ip_family_from_ip q ≡ ip_family_four → is_four q ≡ true
unfolding ip_family_from_ip
four-is q e = elim (Bool-cases (is_four q)) [ inl four ↦ four | inr six ↦ one_family (rw six at e) ]

six-is : (q : Ip) → ip_family_from_ip q ≡ ip_family_six → is_six q ≡ true
unfolding ip_family_from_ip
six-is q e = elim (Bool-cases (is_four q)) [
  | inl four ↦ one_family (sym (rw four at e))
  | inr six ↦ rw six refl
]

module _ (srv : Server) (px : Client) (g : Guest) (pve : Pve srv px g) (fqdn ip : Text) (q : Ip)
    (parsed : parse_ip ip ≡ some q) (colon : ColonFree fqdn)
    (printed : canonical_ip_string (ip_string q) ≡ ip_string q) where
  abbrev Covers : Logged srv px → Type 0
  Covers l = Done srv px g pve fqdn ip q parsed colon printed l

  apply_address-Done :
      (text : Text) (o : Option Ip) (l : Logged srv px)
      → parse_ip text ≡ o
      → Ready srv px g pve l.1
      → Covers l
      → Covers (apply_address srv px true fqdn text o l)
  apply_address-Done text none l e r k = k
  apply_address-Done text (some p) l e r k =
      sync_address-Done srv px g pve fqdn ip q parsed colon printed text p l e r k

  still-Done :
      (ips : List Text) (l : Logged srv px)
      → Ready srv px g pve l.1
      → Covers l
      → Covers (apply_addresses srv px true fqdn ips l)
  unfolding apply_addresses
  still-Done [] l r k = k
  still-Done (text ∷ ips) l r k =
      let l' = apply_address srv px true fqdn text (parse_ip text) l in
      let one =
        apply_address-Spared srv px g pve (is_foreign fqdn) fqdn (foreign-Apart fqdn) true text
          (parse_ip text) l refl r in
      still-Done ips l' one.ready (apply_address-Done text (parse_ip text) l refl r k)

  own_address-Done :
      (text : Text) (l : Logged srv px)
      → text ≡ ip
      → Ready srv px g pve l.1
      → Covers (apply_address srv px true fqdn text (parse_ip text) l)
  own_address-Done text l e r =
      subst (λ t. Covers (apply_address srv px true fqdn t (parse_ip t) l)) (sym e)
        (subst (λ o. Covers (apply_address srv px true fqdn ip o l)) (sym parsed)
          (own-Done srv px g pve fqdn ip q parsed colon printed l r))

  apply_addresses-Done :
      (ips : List Text) (l : Logged srv px)
      → contains ips ip ≡ true
      → Ready srv px g pve l.1
      → Covers (apply_addresses srv px true fqdn ips l)
  unfolding apply_addresses
  apply_addresses-Done [] l m r = cc (sym (contains-none ip) ∙ m)
  apply_addresses-Done (text ∷ ips) l m r =
      let l' = apply_address srv px true fqdn text (parse_ip text) l in
      let one =
        apply_address-Spared srv px g pve (is_foreign fqdn) fqdn (foreign-Apart fqdn) true text
          (parse_ip text) l refl r in
      elim (Bool-cases (text_eq text ip)) [
        | inl same ↦
            still-Done ips l' one.ready (own_address-Done text l ((text_eq_iff text ip).0 same) r)
        | inr other ↦ apply_addresses-Done ips l' (contains_later text ips ip m other) one.ready
      ]

  -- After the loops of ApplyDNS for an allowed name, each address of the answer that can be read
  -- has a rule for the name, or a row reports an error for it; the prunes that follow keep these
  -- rules. The name has no colon, and the address as it is printed is read and printed as itself.
  -- The coordinator works on a guest whose API behaves as Pve says, and its cache agrees with the
  -- guest beforehand.
  pub reconcile_answer-Covers :
      (answer : List Answer) (c : Coordinator srv)
      → contains (ips_of answer) ip ≡ true
      → Ready srv px g pve c
      → (any
            (dynamic_rule_matches_dest fqdn (ip_string q) (ip_family_from_ip q))
            (held srv px g pve (reconcile_answer srv px true fqdn answer c).1)
          || any (is_failed ip) (reconcile_answer srv px true fqdn answer c).0)
        ≡ true
  unfolding reconcile_answer
  reconcile_answer-Covers answer c m r =
      let ips = ips_of answer in
      let four = desired_from is_four [] ips in
      let six = desired_from is_six [] ips in
      let l1 = apply_addresses srv px true fqdn ips ([], c) in
      let ready1 =
        (apply_addresses-Spared srv px g pve (is_foreign fqdn) fqdn (foreign-Apart fqdn) true ips
          ([], c) r).ready in
      let done1 = apply_addresses-Done ips ([], c) m r in
      let b4 = any is_a answer in
      let l2 = prune_when srv px b4 fqdn ip_family_four four (codes "prune ipv4: ") l1 in
      let ready2 =
        (prune_when-Spared srv px g pve (is_foreign fqdn) fqdn (foreign-Apart fqdn) b4
          ip_family_four (codes "prune ipv4: ") four l1 ready1).ready in
      let done2 =
        prune_when-Done srv px g pve fqdn ip q parsed colon printed b4 ip_family_four
          (codes "prune ipv4: ") four l1
          (λ e. desired_from-wanted is_four ips [] ip q m parsed (four-is q e)) ready1 done1 in
      prune_when-Done srv px g pve fqdn ip q parsed colon printed (any is_aaaa answer) ip_family_six
        (codes "prune ipv6: ") six l2
        (λ e. desired_from-wanted is_six ips [] ip q m parsed (six-is q e)) ready2 done2
