-- ===== src/Coordinator/Dns/Safety.antt =====
-- ApplyDNS, seen from the rules of other names.
use proxmox_dns_firewall_loc.Prelude.{
  Bool, true, false, ◌&&◌, List, [], ◌∷◌, Option, none, some, ◌==◌, Bool-cases, inl, inr, ◌≡◌, refl,
  any,
}
use proxmox_dns_firewall_loc.Text.{Text, codes, add_name}
use proxmox_dns_firewall_loc.Ip.{Ip, parse_ip, is_four}
use proxmox_dns_firewall_loc.Allowlist.{normalize}
use proxmox_dns_firewall_loc.Config.{is_loaded}
use proxmox_dns_firewall_loc.Proxmox.Api.{Guest, Client, Server}
use proxmox_dns_firewall_loc.Proxmox.Rules.{Rule, ip_family_four, ip_family_six}
use proxmox_dns_firewall_loc.Proxmox.Reconcile.Model.{Pve}
use proxmox_dns_firewall_loc.Coordinator.Changes.{canon_ips_unique_stable}
use proxmox_dns_firewall_loc.Coordinator.State.{Coordinator, put_addresses}
use proxmox_dns_firewall_loc.Coordinator.Firewall.{Logged}
use proxmox_dns_firewall_loc.Coordinator.Firewall.Foreign.{
  is_foreign, foreign, Apart, foreign-Apart,
}
use proxmox_dns_firewall_loc.Coordinator.Firewall.Steps.{
  held, Ready, Spared, Spared-same, Spared-then, Spared-lists, sync_address-Spared,
  remove_address-Spared, prune_family-Spared, enqueue-Spared,
}
use proxmox_dns_firewall_loc.Coordinator.Dns.{
  Answer, Message, is_a, is_aaaa, is_six, ips_of, desired_from, is_allowed, keep_rejected,
  note_denied, apply_address, apply_addresses, prune_when, reconcile_answer, log_rows, apply_answer,
  apply_client, apply_message, apply_dns,
}

module _ (srv : Server) (px : Client) (g : Guest) (pve : Pve srv px g) (p : Rule → Bool)
    (fqdn : Text) (apart : Apart p fqdn) where
  pub apply_address-Spared :
      (allowed : Bool) (ip : Text) (o : Option Ip) (l : Logged srv px)
      → parse_ip ip ≡ o
      → Ready srv px g pve l.1
      → Spared srv px g pve p l.1 (apply_address srv px allowed fqdn ip o l).1
  apply_address-Spared allowed ip none l e r = Spared-same srv px g pve p l.1 r
  apply_address-Spared true ip (some x) (rows, c) e r =
      sync_address-Spared srv px g pve p fqdn ip rows c apart r
  apply_address-Spared false ip (some x) (rows, c) e r =
      remove_address-Spared srv px g pve p fqdn ip x rows c apart e r

  pub apply_addresses-Spared :
      (allowed : Bool) (ips : List Text) (l : Logged srv px)
      → Ready srv px g pve l.1
      → Spared srv px g pve p l.1 (apply_addresses srv px allowed fqdn ips l).1
  unfolding apply_addresses
  apply_addresses-Spared allowed [] l r = Spared-same srv px g pve p l.1 r
  apply_addresses-Spared allowed (ip ∷ ips) l r =
      let one = apply_address-Spared allowed ip (parse_ip ip) l refl r in
      let l' = apply_address srv px allowed fqdn ip (parse_ip ip) l in
      Spared-then srv px g pve p l.1 l'.1 (apply_addresses srv px allowed fqdn ips l').1 one
        (apply_addresses-Spared allowed ips l' one.ready)

  pub prune_when-Spared :
      (b : Bool) (family before : Text) (desired : List Text) (l : Logged srv px)
      → Ready srv px g pve l.1
      → Spared srv px g pve p l.1 (prune_when srv px b fqdn family desired before l).1
  prune_when-Spared false family before desired l r = Spared-same srv px g pve p l.1 r
  prune_when-Spared true family before desired (rows, c) r =
      prune_family-Spared srv px g pve p fqdn family before desired rows c apart r

  reconcile_answer-Spared :
      (allowed : Bool) (answer : List Answer) (c : Coordinator srv)
      → Ready srv px g pve c
      → Spared srv px g pve p c (reconcile_answer srv px allowed fqdn answer c).1
  unfolding reconcile_answer
  reconcile_answer-Spared allowed answer c r =
      let ips = ips_of answer in
      let four = desired_from is_four [] ips in
      let six = desired_from is_six [] ips in
      let b4 = allowed && any is_a answer in
      let b6 = allowed && any is_aaaa answer in
      let l1 = apply_addresses srv px allowed fqdn ips ([], c) in
      let one = apply_addresses-Spared allowed ips ([], c) r in
      let l2 = prune_when srv px b4 fqdn ip_family_four four (codes "prune ipv4: ") l1 in
      let two = prune_when-Spared b4 ip_family_four (codes "prune ipv4: ") four l1 one.ready in
      let l3 = prune_when srv px b6 fqdn ip_family_six six (codes "prune ipv6: ") l2 in
      let three = prune_when-Spared b6 ip_family_six (codes "prune ipv6: ") six l2 two.ready in
      Spared-then srv px g pve p c l1.1 l3.1 one
        (Spared-then srv px g pve p l1.1 l2.1 l3.1 two three)

  keep_rejected-Spared :
      (canon : List Text) (c : Coordinator srv)
      → Ready srv px g pve c
      → Spared srv px g pve p c (keep_rejected fqdn canon c)
  keep_rejected-Spared [] c r = Spared-same srv px g pve p c r
  keep_rejected-Spared (ip ∷ canon) c r =
      Spared-lists srv px g pve p c c.seen (put_addresses c.rejected_resolve_ips fqdn (ip ∷ canon))
        c.last_desc c.last_merged_allow_text r

  note_denied-Spared :
      (ips : List Text) (c : Coordinator srv)
      → Ready srv px g pve c
      → Spared srv px g pve p c (note_denied fqdn ips c)
  note_denied-Spared ips c r =
      let noted : Coordinator srv = record c { seen = add_name c.seen fqdn } in
      let one : Spared srv px g pve p c noted =
        Spared-lists srv px g pve p c noted.seen c.rejected_resolve_ips c.last_desc
          c.last_merged_allow_text r in
      Spared-then srv px g pve p c noted (note_denied fqdn ips c) one
        (keep_rejected-Spared (canon_ips_unique_stable ips) noted one.ready)

  logged-Spared :
      (allowed : Bool) (answer : List Answer) (c : Coordinator srv)
      → Ready srv px g pve c
      → Spared srv px g pve p c (log_rows srv px (reconcile_answer srv px allowed fqdn answer c))
  logged-Spared allowed answer c r =
      let l = reconcile_answer srv px allowed fqdn answer c in
      let one = reconcile_answer-Spared allowed answer c r in
      Spared-then srv px g pve p c l.1 (log_rows srv px l) one
        (enqueue-Spared srv px g pve p l.0 l.1 one.ready)

  apply_answer-Spared :
      (answer : List Answer) (c : Coordinator srv)
      → Ready srv px g pve c
      → Spared srv px g pve p c (apply_answer srv fqdn answer px c)
  apply_answer-Spared answer c r = elim (Bool-cases (is_allowed c.last_merged_allow_text fqdn)) [
    | inl allowed ↦ rw allowed (logged-Spared true answer c r)
    | inr denied ↦
        let noted = note_denied fqdn (ips_of answer) c in
        let one = note_denied-Spared (ips_of answer) c r in
        rw denied (
          Spared-then srv px g pve p c noted
            (log_rows srv px (reconcile_answer srv px false fqdn answer noted)) one
            (logged-Spared false answer noted one.ready))
  ]

  pub apply_client-Spared :
      (answer : List Answer) (o : Option Client) (c : Coordinator srv)
      → o ≡ some px
      → Ready srv px g pve c
      → Spared srv px g pve p c (apply_client srv fqdn answer o c)
  apply_client-Spared answer o c e r = elim (Bool-cases (is_loaded c.settings)) [
    | inl loaded ↦ rw (e, loaded) (apply_answer-Spared answer c r)
    | inr blank ↦ rw (e, blank) (Spared-same srv px g pve p c r)
  ]

module _ (srv : Server) (px : Client) (g : Guest) (pve : Pve srv px g) where
  apply_message-Spared :
      (p : Rule → Bool) (qname : Text) (msg : Option Message) (c : Coordinator srv)
      → Apart p (normalize qname)
      → c.px ≡ some px
      → Ready srv px g pve c
      → Spared srv px g pve p c (apply_message srv qname msg c)
  apply_message-Spared p qname none c a e r = Spared-same srv px g pve p c r
  apply_message-Spared p qname (some msg) c a e r = elim (Bool-cases (msg.rcode == 0)) [
    | inl success ↦
        rw success (apply_client-Spared srv px g pve p (normalize qname) a msg.answer c.px c e r)
    | inr failure ↦ rw failure (Spared-same srv px g pve p c r)
  ]

  -- ApplyDNS, for any part of the rules that it is not about
  pub apply_dns-Spared_part :
      (p : Rule → Bool) (qname : Text) (msg : Option Message) (c : Coordinator srv)
      → Apart p (normalize qname)
      → c.px ≡ some px
      → Ready srv px g pve c
      → Spared srv px g pve p c (apply_dns srv qname msg c)
  unfolding apply_dns
  apply_dns-Spared_part p qname msg c a e r = apply_message-Spared p qname msg c a e r

  -- Whatever a message says, ApplyDNS leaves every rule whose comment is not one of the queried
  -- name as it is, in the same order, and goes on with a cache that agrees with the guest. The
  -- coordinator has this client and works on this guest, whose API behaves as Pve says, and its
  -- cache agrees with the guest beforehand.
  pub apply_dns-Spared :
      (qname : Text) (msg : Option Message) (c : Coordinator srv)
      → c.px ≡ some px
      → Ready srv px g pve c
      → (foreign (normalize qname) (held srv px g pve (apply_dns srv qname msg c))
          ≡ foreign (normalize qname) (held srv px g pve c))
        × Ready srv px g pve (apply_dns srv qname msg c)
  apply_dns-Spared qname msg c e r =
      let fqdn = normalize qname in
      let s = apply_dns-Spared_part (is_foreign fqdn) qname msg c (foreign-Apart fqdn) e r in
      (s.kept, s.ready)
