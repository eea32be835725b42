-- ===== src/Proxmox/Reconcile/RemoveAll.antt =====
-- What RemoveAllManagedEgressForFQDN leaves of a guest's rules.
use proxmox_dns_firewall_loc.Prelude.{
  not, ◌&&◌, ◌||◌, List, [], ◌∷◌, ◌++◌, arith, none, some, ◌≡◌, refl, sym, ap, subst, ◌∙◌,
}
use proxmox_dns_firewall_loc.Text.{
  Text, text_eq, text_eq_iff, contains, contains-append, sort_texts,
}
use proxmox_dns_firewall_loc.Text.Order.{contains-sort_texts, IsSorted, sort_texts-IsSorted}
use proxmox_dns_firewall_loc.Proxmox.Api.{Guest, Client, Server}
use proxmox_dns_firewall_loc.Proxmox.Rules.{ip_family_four, ip_family_six, stale_dest}
use proxmox_dns_firewall_loc.Proxmox.Client.{State}
use proxmox_dns_firewall_loc.Proxmox.Reconcile.{
  Deleted, prune_stale_outbound_allows_for_fqdn, remove_all_managed_egress_for_fqdn, remove_six,
  removed_all, unique_texts,
}
use proxmox_dns_firewall_loc.Proxmox.Reconcile.Collect.{others, reported}
use proxmox_dns_firewall_loc.Proxmox.Reconcile.Model.{Pve, rules_of, Coherent}
use proxmox_dns_firewall_loc.Proxmox.Reconcile.Prune.{prune-Whole}

contains-unique_texts :
    (removed ips : List Text) (t : Text)
    → contains (unique_texts removed ips) t
      ≡ (contains removed t || not (text_eq t []) && contains ips t)
unfolding unique_texts contains
contains-unique_texts removed [] t = ground arith
contains-unique_texts removed (ip ∷ ips) t = ground (
  arith,
  contains-unique_texts removed ips t,
  contains-unique_texts (removed ++ ip ∷ []) ips t,
  contains-append removed (ip ∷ []) t,
  text_eq_iff ip t,
  text_eq_iff ip [],
)

-- The texts but the empty one that stand in one of the two lists, in order.
abbrev pub Reports : List Text → List Text → List Text → Type 0
Reports removed four six =
    IsSorted removed
    × ((t : Text)
        → contains removed t ≡ (not (text_eq t []) && (contains four t || contains six t)))

sort_texts-Reports : (vs ws : List Text) → Reports (sort_texts (unique_texts [] (vs ++ ws))) vs ws
sort_texts-Reports vs ws = (
  sort_texts-IsSorted (unique_texts [] (vs ++ ws)),
  λ t.
      contains-sort_texts (unique_texts [] (vs ++ ws)) t
      ∙ contains-unique_texts [] (vs ++ ws) t
      ∙ unfold contains in ap (λ b. not (text_eq t []) && b) (contains-append vs ws t),
)

module _ (srv : Server) (c : Client) (g : Guest) (pve : Pve srv c g) where
  removed_all-none :
      (vs : List Text) (r6 : Deleted Text) (s2 s' : State srv c) (removed : List Text)
      → ◌≡◌ {A = Deleted Text × State srv c} (removed_all vs r6, s2) ((removed, none), s')
      → (r6.1 ≡ none) × (s' ≡ s2) × Reports removed vs r6.0
  removed_all-none vs (ws, some x) s2 s' removed e = cc
  removed_all-none vs (ws, none) s2 s' removed e = (
    refl,
    ap (λ (x : Deleted Text × State srv c). x.1) (sym e),
    subst (λ out. Reports out vs ws) (ap (λ (x : Deleted Text × State srv c). x.0.0) e)
        (sort_texts-Reports vs ws),
  )

  remove_six-none :
      (fqdn : Text) (r4 : Deleted Text) (s1 s' : State srv c) (removed : List Text)
      → remove_six srv c g fqdn r4 s1 ≡ ((removed, none), s')
      → (r4.1 ≡ none)
        × ((prune_stale_outbound_allows_for_fqdn srv c g fqdn ip_family_six [] s1).0.1 ≡ none)
        × (s' ≡ (prune_stale_outbound_allows_for_fqdn srv c g fqdn ip_family_six [] s1).1)
        × Reports removed r4.0
            (prune_stale_outbound_allows_for_fqdn srv c g fqdn ip_family_six [] s1).0.0
  remove_six-none fqdn (vs, some x) s1 s' removed e = cc
  remove_six-none fqdn (vs, none) s1 s' removed e =
      let (r6, s2) = prune_stale_outbound_allows_for_fqdn srv c g fqdn ip_family_six [] s1 in
      let (ended, last, sorted) = removed_all-none vs r6 s2 s' removed e in
      (refl, ended, last, sorted)

  -- RemoveAllManagedEgressForFQDN, where it ends without an error, has removed the rules that the
  -- two prunes without a desired address choose (those with a tag of the name and a destination of
  -- the tag's family), and no others. It reports, in the order of the texts, exactly the
  -- destinations of these rules, but for an empty text. The API behaves as Pve says, and the cache
  -- agrees with the guest beforehand.
  pub remove_all-others :
      (fqdn : Text) (s s' : State srv c) (removed : List Text)
      → Coherent srv c g pve s
      → remove_all_managed_egress_for_fqdn srv c g fqdn s ≡ ((removed, none), s')
      → let four = stale_dest fqdn ip_family_four [] in
        let six = stale_dest fqdn ip_family_six [] in
        let rs = rules_of srv c g pve s in
        (rules_of srv c g pve s' ≡ others six (others four rs))
        × Reports removed (reported four rs) (reported six (others four rs))
        × Coherent srv c g pve s'
  unfolding remove_all_managed_egress_for_fqdn
  remove_all-others fqdn s s' removed h e =
      let four = stale_dest fqdn ip_family_four [] in
      let six = stale_dest fqdn ip_family_six [] in
      let (r4, s1) = prune_stale_outbound_allows_for_fqdn srv c g fqdn ip_family_four [] s in
      let (ended4, ended6, last, sorted) = remove_six-none fqdn r4 s1 s' removed e in
      let o4 = prune-Whole srv c g pve fqdn ip_family_four [] s h in
      let held4 = o4.held_is ∙ (o4.complete ended4).0 in
      let o6 = prune-Whole srv c g pve fqdn ip_family_six [] s1 o4.coherent in
      let held6 = o6.held_is ∙ (o6.complete ended6).0 in
      (
        ap (rules_of srv c g pve) last ∙ held6 ∙ ap (others six) held4,
        rw (sym (o4.complete ended4).1, ap (reported six) (sym held4), sym (o6.complete ended6).1)
            sorted,
        subst (Coherent srv c g pve) (sym last) o6.coherent,
      )
