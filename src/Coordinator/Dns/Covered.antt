-- ===== src/Coordinator/Dns/Covered.antt =====
-- The steps of ApplyDNS for an allowed name, seen from one address of the answer.
use proxmox_dns_firewall_loc.Prelude.{
  Bool, true, false, ◌||◌, List, [], ◌∷◌, ◌++◌, Option, none, some, Bool-cases, inl, inr, ◌≡◌, refl,
  sym, ap, subst, ◌∙◌, arith, any, any-append,
}
use proxmox_dns_firewall_loc.Text.{
  Text, text_eq, text_eq_iff, text_eq_refl, contains, contains-add_name,
}
use proxmox_dns_firewall_loc.Ip.{Ip, parse_ip, ip_string}
use proxmox_dns_firewall_loc.Proxmox.Api.{Guest, Result, ok, err, Client, Server}
use proxmox_dns_firewall_loc.Proxmox.Rules.{
  Rule, FirewallRule, ip_family_from_ip, canonical_ip_string, dynamic_rule_matches_dest, stale_dest,
  allow_rule,
}
use proxmox_dns_firewall_loc.Proxmox.Rules.Tags.{ColonFree, allow_rule-matches}
use proxmox_dns_firewall_loc.Proxmox.Client.{State}
use proxmox_dns_firewall_loc.Proxmox.Reconcile.{
  sync_outbound_allow, prune_stale_outbound_allows_for_fqdn,
}
use proxmox_dns_firewall_loc.Proxmox.Reconcile.Model.{Pve, rules_of, Coherent}
use proxmox_dns_firewall_loc.Proxmox.Reconcile.Prune.{prune-Left}
use proxmox_dns_firewall_loc.Proxmox.Reconcile.Sync.{
  synced, Answers, sync_outbound_allow-synced, synced-present, ip_family-is_family,
}
use proxmox_dns_firewall_loc.Coordinator.State.{ActivityRow, guest_of, enter, leave}
use proxmox_dns_firewall_loc.Coordinator.Firewall.{
  Logged, sync_rows, prune_rows, sync_address, prune_family,
}
use proxmox_dns_firewall_loc.Coordinator.Firewall.Steps.{held, Ready}
use proxmox_dns_firewall_loc.Coordinator.Dns.{add_desired, desired_from, prune_when}
use proxmox_dns_firewall_loc.Coordinator.Dns.Allowed.{wanted-fresh, any-kept}

-- a row that reports an error for an address
abbrev pub is_failed : Text → ActivityRow → Bool
is_failed ip row = elim row.err [ none ↦ false | some e ↦ text_eq row.ip ip ]

contains-add_desired :
    (wanted : Ip → Bool) (o : Option Ip) (out : List Text) (t : Text)
    → contains out t ≡ true
    → contains (add_desired wanted o out) t ≡ true
contains-add_desired wanted none out t e = e
contains-add_desired wanted (some q) out t e =
    ground (arith, e, contains-add_name out (ip_string q) t)

contains-desired_from :
    (wanted : Ip → Bool) (ips out : List Text) (t : Text)
    → contains out t ≡ true
    → contains (desired_from wanted out ips) t ≡ true
unfolding desired_from
contains-desired_from wanted [] out t e = e
contains-desired_from wanted (ip ∷ ips) out t e =
    contains-desired_from wanted ips (add_desired wanted (parse_ip ip) out) t
      (contains-add_desired wanted (parse_ip ip) out t e)

own_desired :
    (wanted : Ip → Bool) (o : Option Ip) (q : Ip) (out : List Text)
    → o ≡ some q
    → wanted q ≡ true
    → contains (add_desired wanted o out) (ip_string q) ≡ true
own_desired wanted o q out e w =
    rw (e, w)
      (contains-add_name out (ip_string q) (ip_string q)
        ∙ left_true (text_eq (ip_string q) (ip_string q)) (contains out (ip_string q))
            (text_eq_refl (ip_string q)))
  where
    left_true : (a b : Bool) → a ≡ true → (a || b) ≡ true
    left_true a b e = ground arith

pub contains-none : (n : Text) → contains [] n ≡ false
unfolding contains
contains-none n = refl

pub contains_later :
    (m : Text) (ms : List Text) (n : Text)
    → contains (m ∷ ms) n ≡ true
    → text_eq m n ≡ false
    → contains ms n ≡ true
unfolding contains
contains_later m ms n e k = ground arith

-- An address of the answer is wanted in its family.
pub desired_from-wanted :
    (wanted : Ip → Bool) (ips out : List Text) (ip : Text) (q : Ip)
    → contains ips ip ≡ true
    → parse_ip ip ≡ some q
    → wanted q ≡ true
    → contains (desired_from wanted out ips) (ip_string q) ≡ true
unfolding desired_from
desired_from-wanted wanted [] out ip q m e w = ground (arith, m, contains-none ip)
desired_from-wanted wanted (i ∷ ips) out ip q m e w = elim (Bool-cases (text_eq i ip)) [
  | inl same ↦
      contains-desired_from wanted ips (add_desired wanted (parse_ip i) out) (ip_string q)
        (own_desired wanted (parse_ip i) q out (ap parse_ip ((text_eq_iff i ip).0 same) ∙ e) w)
  | inr other ↦
      desired_from-wanted wanted ips (add_desired wanted (parse_ip i) out) ip q
        (contains_later i ips ip m other) e w
]

module _ (srv : Server) (px : Client) (g : Guest) (pve : Pve srv px g) (fqdn ip : Text) (q : Ip)
    (parsed : parse_ip ip ≡ some q) (colon : ColonFree fqdn)
    (printed : canonical_ip_string (ip_string q) ≡ ip_string q) where
  -- the rules that allow the address for the name
  abbrev pub covers : Rule → Bool
  covers r = dynamic_rule_matches_dest fqdn (ip_string q) (ip_family_from_ip q) r

  -- there is such a rule, or a row that reports an error for the address
  abbrev pub Done : Logged srv px → Type 0
  Done l = (any covers (held srv px g pve l.1) || any (is_failed ip) l.0) ≡ true

  made-covers : covers (allow_rule fqdn (ip_string q) (ip_family_from_ip q)).rule ≡ true
  made-covers =
      allow_rule-matches fqdn (ip_string q) (ip_family_from_ip q) colon
        (ip_family-is_family srv px g pve q) printed

  synced_mono :
      (r : Result Bool) (made : FirewallRule) (rs : List Rule)
      → any covers rs ≡ true
      → any covers (synced r made rs) ≡ true
  synced_mono (err e) made rs k = k
  synced_mono (ok false) made rs k = k
  synced_mono (ok true) made rs k = ground (arith, k)

  own-sync :
      (r : Result Bool) (rs : List Rule)
      → Answers r (any covers rs)
      → (any covers (synced r (allow_rule fqdn (ip_string q) (ip_family_from_ip q)) rs)
          || any (is_failed ip) (sync_rows fqdn ip r))
        ≡ true
  own-sync (err e) rs a = ground (arith, text_eq_refl ip)
  own-sync (ok b) rs a = left_true _ _ (
      synced-present srv px g pve covers (allow_rule fqdn (ip_string q) (ip_family_from_ip q)) rs b
        made-covers a)
    where
      left_true : (a b : Bool) → a ≡ true → (a || b) ≡ true
      left_true a b e = ground arith

  more_rows :
      (before after : Bool) (rows more : List ActivityRow)
      → (before ≡ true → after ≡ true)
      → (before || any (is_failed ip) rows) ≡ true
      → (after || any (is_failed ip) (rows ++ more)) ≡ true
  more_rows true after rows more f k = rw (f refl) refl
  more_rows false after rows more f k =
      right_true after (any (is_failed ip) rows) (any (is_failed ip) more) k
        (any-append (is_failed ip) rows more)
    where
      right_true : (a b c : Bool) {d : Bool} → b ≡ true → d ≡ (b || c) → (a || d) ≡ true
      right_true a b c e k = ground arith

  -- the steps on the state alone
  sync_mono :
      (text : Text) (q' : Ip) (s : State srv px)
      → parse_ip text ≡ some q'
      → Coherent srv px g pve s
      → any covers (rules_of srv px g pve s) ≡ true
      → any covers (rules_of srv px g pve (sync_outbound_allow srv px g fqdn text s).1) ≡ true
  sync_mono text q' s e h k =
      let (same, _, _) = sync_outbound_allow-synced srv px g pve fqdn text q' s e h in
      ap (any covers) same
      ∙ synced_mono (sync_outbound_allow srv px g fqdn text s).0
          (allow_rule fqdn (ip_string q') (ip_family_from_ip q')) (rules_of srv px g pve s) k

  pub sync_address-Done :
      (text : Text) (q' : Ip) (l : Logged srv px)
      → parse_ip text ≡ some q'
      → Ready srv px g pve l.1
      → Done l
      → Done (sync_address srv px fqdn text l)
  sync_address-Done text q' (rows, c) e r k =
      more_rows (any covers (held srv px g pve c))
        (any covers (held srv px g pve (sync_address srv px fqdn text (rows, c)).1)) rows
        (sync_rows fqdn text
          (sync_outbound_allow srv px (guest_of srv c) fqdn text (enter srv px c)).0)
        (λ there.
          subst
            (λ g'.
              any covers
                (rules_of srv px g pve (sync_outbound_allow srv px g' fqdn text (enter srv px c)).1)
              ≡ true)
            (sym r.on) (sync_mono text q' (enter srv px c) e r.coherent there))
        k

  pub own-Done : (l : Logged srv px) → Ready srv px g pve l.1 → Done (sync_address srv px fqdn ip l)
  own-Done (rows, c) r =
      subst
        (λ g'. Done (
          rows ++ sync_rows fqdn ip (sync_outbound_allow srv px g' fqdn ip (enter srv px c)).0,
          leave srv px (sync_outbound_allow srv px g' fqdn ip (enter srv px c)).1 c,
        ))
        (sym r.on)
        (let (same, said, _) =
            sync_outbound_allow-synced srv px g pve fqdn ip q (enter srv px c) parsed r.coherent in
          let result = (sync_outbound_allow srv px g fqdn ip (enter srv px c)).0 in
          new_rows _ rows (sync_rows fqdn ip result) _ (ap (any covers) same)
            (own-sync result (held srv px g pve c) said))
    where
      new_rows :
          (there : Bool) (rows more : List ActivityRow) (now : Bool)
          → now ≡ there
          → (there || any (is_failed ip) more) ≡ true
          → (now || any (is_failed ip) (rows ++ more)) ≡ true
      new_rows there rows more now e k = ground (arith, e, k, any-append (is_failed ip) rows more)

  pub prune_when-Done :
      (b : Bool) (family before : Text) (desired : List Text) (l : Logged srv px)
      → (ip_family_from_ip q ≡ family → contains desired (ip_string q) ≡ true)
      → Ready srv px g pve l.1
      → Done l
      → Done (prune_when srv px b fqdn family desired before l)
  prune_when-Done false family before desired l wanted r k = k
  prune_when-Done true family before desired (rows, c) wanted r k =
      more_rows (any covers (held srv px g pve c))
        (any covers
          (held srv px g pve (prune_family srv px fqdn family desired before (rows, c)).1))
        rows
        (prune_rows fqdn before
          (prune_stale_outbound_allows_for_fqdn srv px (guest_of srv c) fqdn family desired
            (enter srv px c)).0)
        (λ there.
          subst
            (λ g'.
              any covers (
                rules_of srv px g pve
                  (prune_stale_outbound_allows_for_fqdn srv px g' fqdn family desired
                    (enter srv px c)).1)
              ≡ true)
            (sym r.on)
            (any-kept (stale_dest fqdn family desired) covers
                (λ rule own.
                  wanted-fresh fqdn (ip_string q) (ip_family_from_ip q) family desired rule wanted
                    own)
                (rules_of srv px g pve
                  (prune_stale_outbound_allows_for_fqdn srv px g fqdn family desired
                    (enter srv px c)).1)
                (held srv px g pve c)
                (prune-Left srv px g pve fqdn family desired (enter srv px c) r.coherent).kept
              ∙ there))
        k
