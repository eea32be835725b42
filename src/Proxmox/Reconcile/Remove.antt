-- ===== src/Proxmox/Reconcile/Remove.antt =====
-- What RemoveDynamicRules leaves of a guest's rules.
use proxmox_dns_firewall_loc.Prelude.{
  ℕ, ◌+◌, Bool, true, ◌||◌, List, [], ◌∷◌, ◌++◌, Option, none, some, ◌≡◌, refl, sym, ap, subst, ◌∙◌,
  any, false,
}
use proxmox_dns_firewall_loc.Text.{Text}
use proxmox_dns_firewall_loc.Ip.{Ip, parse_ip, ip_string}
use proxmox_dns_firewall_loc.Proxmox.Api.{Guest, Error, Result, ok, err, Client, Server}
use proxmox_dns_firewall_loc.Proxmox.Rules.{
  Rule, RulePos, ip_family_from_ip, dynamic_rule_matches_dest,
}
use proxmox_dns_firewall_loc.Proxmox.Client.{State, cached_list}
use proxmox_dns_firewall_loc.Proxmox.Reconcile.{
  collect, when, delete_each, remove_from, remove_listed, remove_dynamic_rules,
}
use proxmox_dns_firewall_loc.Proxmox.Reconcile.Collect.{one, selected, others, collect-numbered}
use proxmox_dns_firewall_loc.Proxmox.Reconcile.Model.{
  Pve, rules_of, Coherent, Listed, cached_list-Listed,
}
use proxmox_dns_firewall_loc.Proxmox.Reconcile.Prune.{
  Whole, Outcome_failed, delete_each-collect, Left, Whole-Left,
}

-- a rule that RemoveDynamicRules looks for
abbrev pub dest_choice : Text → Text → Text → Rule → Option (Unit {0})
dest_choice fqdn canon family r = when (dynamic_rule_matches_dest fqdn canon family r)

abbrev is_cons : {A : Type 0} → List A → Bool
is_cons [] = false
is_cons (x ∷ xs) = true

module _ (p : Rule → Bool) where
  is_cons-one :
      (i : ℕ) (b : Bool) (rest : List (ℕ × Unit {0}))
      → is_cons (rest ++ one (λ r. when (p r)) i (when b)) ≡ b || is_cons rest
  is_cons-one i true [] = refl
  is_cons-one i true (x ∷ rest) = refl
  is_cons-one i false [] = refl
  is_cons-one i false (x ∷ rest) = refl

  selected-any : (i : ℕ) (rs : List Rule) → is_cons (selected (λ r. when (p r)) i rs) ≡ any p rs
  unfolding selected
  selected-any i [] = refl
  selected-any i (r ∷ rs) =
      is_cons-one i (p r) (selected (λ r. when (p r)) (i + 1) rs)
      ∙ ap (λ b. p r || b) (selected-any (i + 1) rs)

module _ (srv : Server) (c : Client) (g : Guest) (pve : Pve srv c g) where
  remove_from-delete_each :
      (todel : List (ℕ × Unit {0})) (s : State srv c)
      → remove_from srv c g todel s
        ≡ ((is_cons todel, (delete_each srv c g todel s).0.1), (delete_each srv c g todel s).1)
  unfolding delete_each
  remove_from-delete_each [] s = refl
  remove_from-delete_each (t ∷ todel) s = refl

  module _ (fqdn canon family : Text) where
    -- what RemoveDynamicRules comes to with the rules `rs`
    record Removal (rs : List Rule) (x : (Bool × Option Error) × State srv c) : Type 0 where
      deleted : List (Unit {0})
      outcome : Whole srv c g pve (dest_choice fqdn canon family) rs ((deleted, x.0.1), x.1)
      found : x.0.1 ≡ none → x.0.0 ≡ any (dynamic_rule_matches_dest fqdn canon family) rs

    remove_listed-Removal :
        (s s1 : State srv c) (r : Result (List RulePos))
        → Listed srv c g pve s r s1
        → Removal (rules_of srv c g pve s) (remove_listed srv c g fqdn canon family r s1)
    remove_listed-Removal s s1 (err e) l = record {
      deleted = [];
      outcome =
          Outcome_failed srv c g pve (dest_choice fqdn canon family) (rules_of srv c g pve s) [] e
            s1 l.same l.coherent;
      found = λ k. cc;
    }
    remove_listed-Removal s s1 (ok rules) l =
        let choose = dest_choice fqdn canon family in
        let rs = rules_of srv c g pve s in
        let todel = collect choose [] rules in
        subst (Removal rs) (sym (remove_from-delete_each todel s1)) record {
          deleted = (delete_each srv c g todel s1).0.0;
          outcome =
              delete_each-collect srv c g pve choose s1 rs rules l.same (l.listed rules refl)
                l.coherent;
          found = λ _.
              ap (λ l. is_cons (collect choose [] l)) (l.listed rules refl)
              ∙ ap is_cons (collect-numbered choose rs)
              ∙ selected-any (dynamic_rule_matches_dest fqdn canon family) 0 rs;
        }

  remove_dynamic_rules-Removal :
      (fqdn ip : Text) (parsed : Ip) (s : State srv c)
      → parse_ip ip ≡ some parsed
      → Coherent srv c g pve s
      → Removal fqdn
          (ip_string parsed)
          (ip_family_from_ip parsed)
          (rules_of srv c g pve s)
          (remove_dynamic_rules srv c g fqdn ip s)
  unfolding remove_dynamic_rules
  remove_dynamic_rules-Removal fqdn ip parsed s e h =
      let (r, s1) = cached_list srv c g s in
      rw e (
        remove_listed-Removal fqdn (ip_string parsed) (ip_family_from_ip parsed) s s1 r
          (cached_list-Listed srv c g pve s h))

  pub remove_dynamic_rules-Left :
      (fqdn ip : Text) (parsed : Ip) (s : State srv c)
      → parse_ip ip ≡ some parsed
      → Coherent srv c g pve s
      → Left srv c g pve
          (dest_choice fqdn (ip_string parsed) (ip_family_from_ip parsed))
          s
          (remove_dynamic_rules srv c g fqdn ip s).1
  remove_dynamic_rules-Left fqdn ip parsed s e h =
      let r = remove_dynamic_rules-Removal fqdn ip parsed s e h in
      let x = remove_dynamic_rules srv c g fqdn ip s in
      Whole-Left srv c g pve (dest_choice fqdn (ip_string parsed) (ip_family_from_ip parsed)) s
        ((r.deleted, x.0.1), x.1) r.outcome

  -- A removal for an address that ends without an error has removed the rules that match the name,
  -- the address and its family and no others, and says whether there was one. The text reads as an
  -- address. The API behaves as Pve says, and the cache agrees with the guest beforehand.
  pub remove_dynamic_rules-others :
      (fqdn ip : Text) (parsed : Ip) (s s' : State srv c) (found : Bool)
      → parse_ip ip ≡ some parsed
      → Coherent srv c g pve s
      → remove_dynamic_rules srv c g fqdn ip s ≡ ((found, none), s')
      → (rules_of srv c g pve s'
          ≡ others
              (dest_choice fqdn (ip_string parsed) (ip_family_from_ip parsed))
              (rules_of srv c g pve s))
        × (found
            ≡ any
                (dynamic_rule_matches_dest fqdn (ip_string parsed) (ip_family_from_ip parsed))
                (rules_of srv c g pve s))
        × Coherent srv c g pve s'
  remove_dynamic_rules-others fqdn ip parsed s s' found e h k =
      let done =
        subst (Removal fqdn (ip_string parsed) (ip_family_from_ip parsed) (rules_of srv c g pve s))
          k (remove_dynamic_rules-Removal fqdn ip parsed s e h) in
      let o = done.outcome in
      let (whole, _) = o.complete refl in (o.held_is ∙ whole, done.found refl, o.coherent)
