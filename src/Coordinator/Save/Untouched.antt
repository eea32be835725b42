-- ===== src/Coordinator/Save/Untouched.antt =====
-- A save, seen from the rules of the names that it does not change.
use proxmox_dns_firewall_loc.Prelude.{
  Bool, keep, true, List, [], ◌∷◌, ◌++◌, Option, some, ◌≡◌, refl, sym, ap, ◌∙◌, arith,
}
use proxmox_dns_firewall_loc.Text.{Text, text_eq_refl, contains, contains-append, split_lf}
use proxmox_dns_firewall_loc.Allowlist.{splice_block}
use proxmox_dns_firewall_loc.Proxmox.Api.{Guest, Client, Server}
use proxmox_dns_firewall_loc.Proxmox.Client.{State, put_description, send}
use proxmox_dns_firewall_loc.Proxmox.Reconcile.Model.{Pve, Coherent}
use proxmox_dns_firewall_loc.Coordinator.Changes.{normalize_allowlist_multiline}
use proxmox_dns_firewall_loc.Coordinator.State.{Coordinator, guest_of, enter, leave}
use proxmox_dns_firewall_loc.Coordinator.Firewall.Steps.{
  held, Ready, Spared, Spared-then, leave-Spared,
}
use proxmox_dns_firewall_loc.Coordinator.Save.{
  Change, change_of, saved, save_client, save_merged_list,
}
use proxmox_dns_firewall_loc.Coordinator.Save.Names.{is_unnamed, unnamed, unnamed-Apart}
use proxmox_dns_firewall_loc.Coordinator.Save.Loops.{Aparts}
use proxmox_dns_firewall_loc.Coordinator.Firewall.Foreign.{Apart, Foreign}
use proxmox_dns_firewall_loc.Proxmox.Rules.{Rule}
use proxmox_dns_firewall_loc.Proxmox.Reconcile.Collect.{numbered}
use proxmox_dns_firewall_loc.Coordinator.Save.Safety.{saved-Spared}

contains_head : (f : Text) (fs : List Text) → contains (f ∷ fs) f ≡ true
unfolding contains
contains_head f fs = rw (text_eq_refl f) refl

contains_tail :
    (f : Text) (fs : List Text) (n : Text) → contains fs n ≡ true → contains (f ∷ fs) n ≡ true
unfolding contains
contains_tail f fs n k = ground (arith, k)

pub Aparts-contained :
    (p : Rule → Bool) (fs : List Text)
    → ((n : Text) → contains fs n ≡ true → Apart p n)
    → Aparts p fs
Aparts-contained p [] h = tt
Aparts-contained p (f ∷ fs) h =
    (h f (contains_head f fs), Aparts-contained p fs (λ n k. h n (contains_tail f fs n k)))

-- the names whose rules a save may change
abbrev pub names_of : Change → List Text
names_of change = change.removed ++ (change.newly_denied ++ change.newly)

-- what a save of `text` changes in the list that was merged last
abbrev pub change_for : Text → Text → Change
change_for merged text = change_of merged (split_lf (normalize_allowlist_multiline text))

module _ (p : Rule → Bool) (change : Change)
    (apart : (n : Text) → contains (names_of change) n ≡ true → Apart p n) where
  removed-Aparts : Aparts p change.removed
  removed-Aparts = Aparts-contained p change.removed (λ n k.
      apart n
        (ground (arith, k, contains-append change.removed (change.newly_denied ++ change.newly) n)))

  denied-Aparts : Aparts p change.newly_denied
  denied-Aparts = Aparts-contained p change.newly_denied (λ n k. apart n (
      ground (
        arith,
        k,
        contains-append change.removed (change.newly_denied ++ change.newly) n,
        contains-append change.newly_denied change.newly n,
      )))

  newly-Aparts : Aparts p change.newly
  newly-Aparts = Aparts-contained p change.newly (λ n k. apart n (
      ground (
        arith,
        k,
        contains-append change.removed (change.newly_denied ++ change.newly) n,
        contains-append change.newly_denied change.newly n,
      )))

module _ (srv : Server) (px : Client) (g : Guest) (pve : Pve srv px g) where
  -- The description is written: the rules stay.
  put_description-Foreign :
      (p : Rule → Bool) (desc digest : Text) (s : State srv px)
      → Coherent srv px g pve s
      → Foreign srv px g pve p s (put_description srv px g desc digest s).1
  unfolding put_description send
  put_description-Foreign p desc digest s h = record {
    kept = ap (keep p) (pve.put_held _ s.world);
    coherent = λ rules k. h rules k ∙ ap (numbered 0) (sym (pve.put_held _ s.world));
  }

  save_client-Spared :
      (p : Rule → Bool) (text : Text) (o : Option Client) (c : Coordinator srv)
      → ((n : Text)
          → contains (names_of (change_for c.last_merged_allow_text text)) n ≡ true
          → Apart p n)
      → o ≡ some px
      → c.px ≡ some px
      → Ready srv px g pve c
      → Spared srv px g pve p c (save_client srv text o c).1
  save_client-Spared p text o c apart e f r =
      let change = change_for c.last_merged_allow_text text in
      let normalized = normalize_allowlist_multiline text in
      let desc = splice_block c.last_desc (split_lf normalized) in
      let (failed, s) =
        put_description srv px (guest_of srv c) desc c.last_config_digest (enter srv px c) in
      let put : Spared srv px g pve p c (leave srv px s c) =
        leave-Spared srv px g pve p c
          (λ g' s. (put_description srv px g' desc c.last_config_digest s).1) r
          (put_description-Foreign p desc c.last_config_digest (enter srv px c) r.coherent) in
      let done =
        saved-Spared srv px g pve p change desc normalized failed (leave srv px s c)
          (removed-Aparts p change apart) (denied-Aparts p change apart)
          (newly-Aparts p change apart) (put.client ∙ f) put.ready in
      rw e (
        Spared-then srv px g pve p c (leave srv px s c)
          (saved srv px change desc normalized failed (leave srv px s c)).1 put done)

  -- a save, for any part of the rules that it is not about
  pub save_merged_list-Spared :
      (p : Rule → Bool) (text : Text) (c : Coordinator srv)
      → ((n : Text)
          → contains (names_of (change_for c.last_merged_allow_text text)) n ≡ true
          → Apart p n)
      → c.px ≡ some px
      → Ready srv px g pve c
      → Spared srv px g pve p c (save_merged_list srv text c).1
  unfolding save_merged_list
  save_merged_list-Spared p text c apart e r = save_client-Spared p text c.px c apart e e r

  -- A save changes only rules of names that it takes off the list, denies or newly allows: all
  -- other rules stay as they are, in their order, also where requests fail, and the cache agrees
  -- with the guest afterwards. The coordinator has this client and works on this guest, whose API
  -- behaves as Pve says, and its cache agrees with the guest beforehand.
  pub save_merged_list-unnamed :
      (text : Text) (c : Coordinator srv)
      → c.px ≡ some px
      → Ready srv px g pve c
      → (unnamed
            (names_of (change_for c.last_merged_allow_text text))
            (held srv px g pve (save_merged_list srv text c).1)
          ≡ unnamed (names_of (change_for c.last_merged_allow_text text)) (held srv px g pve c))
        × Ready srv px g pve (save_merged_list srv text c).1
  save_merged_list-unnamed text c e r =
      let names = names_of (change_for c.last_merged_allow_text text) in
      let s =
        save_merged_list-Spared (is_unnamed names) text c (λ n k. unnamed-Apart names n k) e r in
      (s.kept, s.ready)
