-- ===== src/Coordinator/Dns/Denied.antt =====
-- ApplyDNS for a name that is not allowed.
use proxmox_dns_firewall_loc.Prelude.{
  Bool, false, List, [], ◌∷◌, Option, none, some, ◌==◌, Bool-cases, inl, inr, ◌≡◌, refl, sym, ap,
  subst, ◌∙◌, any,
}
use proxmox_dns_firewall_loc.Text.{Text, add_name}
use proxmox_dns_firewall_loc.Ip.{Ip, parse_ip, ip_string}
use proxmox_dns_firewall_loc.Allowlist.{normalize}
use proxmox_dns_firewall_loc.Config.{is_loaded}
use proxmox_dns_firewall_loc.Proxmox.Api.{Guest, Client, Server}
use proxmox_dns_firewall_loc.Proxmox.Rules.{Rule, ip_family_from_ip}
use proxmox_dns_firewall_loc.Proxmox.Client.{State}
use proxmox_dns_firewall_loc.Proxmox.Reconcile.{remove_dynamic_rules}
use proxmox_dns_firewall_loc.Proxmox.Reconcile.Collect.{numbered}
use proxmox_dns_firewall_loc.Proxmox.Reconcile.Model.{Pve}
use proxmox_dns_firewall_loc.Proxmox.Reconcile.Prune.{Left}
use proxmox_dns_firewall_loc.Proxmox.Reconcile.Remove.{dest_choice, remove_dynamic_rules-Left}
use proxmox_dns_firewall_loc.Coordinator.Changes.{canon_ips_unique_stable}
use proxmox_dns_firewall_loc.Coordinator.State.{
  ActivityRow, Coordinator, enter, leave, enqueue_fw_activities, finalize_view,
}
use proxmox_dns_firewall_loc.Coordinator.Firewall.{Logged, remove_address}
use proxmox_dns_firewall_loc.Coordinator.Firewall.Steps.{held, Ready}
use proxmox_dns_firewall_loc.Coordinator.Dns.{
  Answer, Message, ips_of, is_allowed, keep_rejected, note_denied, apply_address, apply_addresses,
  reconcile_answer, log_rows, apply_answer, apply_client, apply_message, apply_dns,
}

module _ (srv : Server) (px : Client) (g : Guest) (pve : Pve srv px g) (p : Rule → Bool) where
  -- If no rule of `c` has the property `p`, none of `c'` has it.
  record Narrows (c c' : Coordinator srv) : Type 0 where
    ready : Ready srv px g pve c'
    within : any p (held srv px g pve c) ≡ false → any p (held srv px g pve c') ≡ false

  Narrows-same :
      (c c' : Coordinator srv)
      → Ready srv px g pve c'
      → held srv px g pve c' ≡ held srv px g pve c
      → Narrows c c'
  Narrows-same c c' r same = record { ready = r; within = λ k. ap (any p) same ∙ k }

  Narrows-then : (c c' c'' : Coordinator srv) → Narrows c c' → Narrows c' c'' → Narrows c c''
  Narrows-then c c' c'' a b = record { ready = b.ready; within = λ k. b.within (a.within k) }

  leave-Narrows :
      {V : Type 0} (choose : Rule → Option V) (c : Coordinator srv) (s : State srv px)
      → Ready srv px g pve c
      → Left srv px g pve choose (enter srv px c) s
      → Narrows c (leave srv px s c)
  leave-Narrows choose c s r l = record {
    ready = record { on = r.on; coherent = l.coherent };
    within = l.within p;
  }

  remove_address-Narrows :
      (fqdn ip : Text) (parsed : Ip) (rows : List ActivityRow) (c : Coordinator srv)
      → parse_ip ip ≡ some parsed
      → Ready srv px g pve c
      → Narrows c (remove_address srv px fqdn ip (rows, c)).1
  remove_address-Narrows fqdn ip parsed rows c e r =
      subst
        (λ g'.
          Narrows c (leave srv px (remove_dynamic_rules srv px g' fqdn ip (enter srv px c)).1 c))
        (sym r.on)
        (leave-Narrows (dest_choice fqdn (ip_string parsed) (ip_family_from_ip parsed)) c
          (remove_dynamic_rules srv px g fqdn ip (enter srv px c)).1 r
          (remove_dynamic_rules-Left srv px g pve fqdn ip parsed (enter srv px c) e r.coherent))

  apply_address-Narrows :
      (fqdn ip : Text) (o : Option Ip) (l : Logged srv px)
      → parse_ip ip ≡ o
      → Ready srv px g pve l.1
      → Narrows l.1 (apply_address srv px false fqdn ip o l).1
  apply_address-Narrows fqdn ip none l e r = Narrows-same l.1 l.1 r refl
  apply_address-Narrows fqdn ip (some q) (rows, c) e r = remove_address-Narrows fqdn ip q rows c e r

  apply_addresses-Narrows :
      (fqdn : Text) (ips : List Text) (l : Logged srv px)
      → Ready srv px g pve l.1
      → Narrows l.1 (apply_addresses srv px false fqdn ips l).1
  unfolding apply_addresses
  apply_addresses-Narrows fqdn [] l r = Narrows-same l.1 l.1 r refl
  apply_addresses-Narrows fqdn (ip ∷ ips) l r =
      let one = apply_address-Narrows fqdn ip (parse_ip ip) l refl r in
      let l' = apply_address srv px false fqdn ip (parse_ip ip) l in
      Narrows-then l.1 l'.1 (apply_addresses srv px false fqdn ips l').1 one
        (apply_addresses-Narrows fqdn ips l' one.ready)

  reconcile_answer-Narrows :
      (fqdn : Text) (answer : List Answer) (c : Coordinator srv)
      → Ready srv px g pve c
      → Narrows c (reconcile_answer srv px false fqdn answer c).1
  unfolding reconcile_answer
  reconcile_answer-Narrows fqdn answer c r = apply_addresses-Narrows fqdn (ips_of answer) ([], c) r

  enqueue-Narrows :
      (rows : List ActivityRow) (c : Coordinator srv)
      → Ready srv px g pve c
      → Narrows c (enqueue_fw_activities srv rows c)
  unfolding enqueue_fw_activities finalize_view
  enqueue-Narrows [] c r = Narrows-same c c r refl
  enqueue-Narrows (row ∷ rows) c r =
      let moved = pve.now_held c.world in
      Narrows-same c (enqueue_fw_activities srv (row ∷ rows) c)
        (record {
          on = r.on;
          coherent = λ rules e. r.coherent rules e ∙ ap (numbered 0) (sym moved);
        })
        moved

  keep_rejected-Narrows :
      (fqdn : Text) (canon : List Text) (c : Coordinator srv)
      → Ready srv px g pve c
      → Narrows c (keep_rejected fqdn canon c)
  keep_rejected-Narrows fqdn [] c r = Narrows-same c c r refl
  keep_rejected-Narrows fqdn (ip ∷ canon) c r =
      Narrows-same c (keep_rejected fqdn (ip ∷ canon) c)
        (record { on = r.on; coherent = r.coherent }) refl

  denied-Narrows :
      (fqdn : Text) (answer : List Answer) (c : Coordinator srv)
      → Ready srv px g pve c
      → Narrows c (
          log_rows srv px
            (reconcile_answer srv px false fqdn answer (note_denied fqdn (ips_of answer) c)))
  denied-Narrows fqdn answer c r =
      let seen : Coordinator srv = record c { seen = add_name c.seen fqdn } in
      let r' : Ready srv px g pve seen = record { on = r.on; coherent = r.coherent } in
      let noted = note_denied fqdn (ips_of answer) c in
      let zero = keep_rejected-Narrows fqdn (canon_ips_unique_stable (ips_of answer)) seen r' in
      let l = reconcile_answer srv px false fqdn answer noted in
      let one = reconcile_answer-Narrows fqdn answer noted zero.ready in
      let two = enqueue-Narrows l.0 l.1 one.ready in
      Narrows-then c seen (log_rows srv px l) (Narrows-same c seen r' refl) (
        Narrows-then seen noted (log_rows srv px l) zero
          (Narrows-then noted l.1 (log_rows srv px l) one two))

  apply_answer-Narrows :
      (fqdn : Text) (answer : List Answer) (c : Coordinator srv)
      → is_allowed c.last_merged_allow_text fqdn ≡ false
      → Ready srv px g pve c
      → Narrows c (apply_answer srv fqdn answer px c)
  apply_answer-Narrows fqdn answer c denied r = rw denied (denied-Narrows fqdn answer c r)

  apply_client-Narrows :
      (fqdn : Text) (answer : List Answer) (o : Option Client) (c : Coordinator srv)
      → o ≡ some px
      → is_allowed c.last_merged_allow_text fqdn ≡ false
      → Ready srv px g pve c
      → Narrows c (apply_client srv fqdn answer o c)
  apply_client-Narrows fqdn answer o c e denied r = elim (Bool-cases (is_loaded c.settings)) [
    | inl loaded ↦ rw (e, loaded) (apply_answer-Narrows fqdn answer c denied r)
    | inr blank ↦ rw (e, blank) (Narrows-same c c r refl)
  ]

  apply_message-Narrows :
      (qname : Text) (msg : Option Message) (c : Coordinator srv)
      → c.px ≡ some px
      → is_allowed c.last_merged_allow_text (normalize qname) ≡ false
      → Ready srv px g pve c
      → Narrows c (apply_message srv qname msg c)
  apply_message-Narrows qname none c e denied r = Narrows-same c c r refl
  apply_message-Narrows qname (some msg) c e denied r = elim (Bool-cases (msg.rcode == 0)) [
    | inl success ↦ rw success (apply_client-Narrows (normalize qname) msg.answer c.px c e denied r)
    | inr failure ↦ rw failure (Narrows-same c c r refl)
  ]

  -- An answer for a name that the merged list does not allow makes no rule: whatever no rule of
  -- the guest was before, none is after, also where requests fail in between. The coordinator has
  -- this client and works on this guest, whose API behaves as Pve says, and its cache agrees with
  -- the guest beforehand.
  pub apply_dns-denied :
      (qname : Text) (msg : Option Message) (c : Coordinator srv)
      → c.px ≡ some px
      → is_allowed c.last_merged_allow_text (normalize qname) ≡ false
      → Ready srv px g pve c
      → any p (held srv px g pve c) ≡ false
      → any p (held srv px g pve (apply_dns srv qname msg c)) ≡ false
  unfolding apply_dns
  apply_dns-denied qname msg c e denied r k =
      (apply_message-Narrows qname msg c e denied r).within k
