-- ===== src/Proxmox/Reconcile/Delete.antt =====
-- Deleting rules by position, from the last to the first.
use proxmox_dns_firewall_loc.Prelude.{
  ℕ, ◌+◌, List, [], ◌∷◌, ◌++◌, Option, none, some, Option-cases, inl, inr, ◌≡◌, refl, sym, ap,
  subst, fun_ext, ◌∙◌, arith, length, length-append, append_assoc, append-nil, Bool, false, ◌||◌,
  any,
}
use proxmox_dns_firewall_loc.Proxmox.Api.{Guest, Error, Client, Server}
use proxmox_dns_firewall_loc.Proxmox.Rules.{Rule}
use proxmox_dns_firewall_loc.Proxmox.Client.{State, delete_firewall_rule, invalidate}
use proxmox_dns_firewall_loc.Proxmox.Reconcile.{Deleted, deleted_one, delete_each}
use proxmox_dns_firewall_loc.Proxmox.Reconcile.Collect.{
  remove_at, remove_at-append, one, selected, others, reported, others-none, others-some,
  others_cons, reported-none, reported-some,
}
use proxmox_dns_firewall_loc.Proxmox.Reconcile.Model.{
  Pve, rules_of, Coherent, Coherent-invalidate, delete_firewall_rule-none,
  delete_firewall_rule-some, delete_firewall_rule-Coherent,
}

or_false : (a b : Bool) → (a || b) ≡ false → (a ≡ false) × (b ≡ false)
or_false a b e = ground arith

both_false : (a b : Bool) → a ≡ false → b ≡ false → (a || b) ≡ false
both_false a b e f = ground arith

-- The deletion goes on from state `s` with `after`, unless an error has stopped it.
abbrev resume : {V S : Type 0} → Deleted V → S → (S → Deleted V × S) → Deleted V × S
resume (vs, some e) s after = ((vs, some e), s)
resume (vs, none) s after = let ((ws, e), s') = after s in ((vs ++ ws, e), s')

resume-deleted_one :
    {V S : Type 0} (v : V) (d : Deleted V) (s : S) (after : S → Deleted V × S)
    → resume (deleted_one v d) s after ≡ (deleted_one v (resume d s after).0, (resume d s after).1)
resume-deleted_one v (vs, some e) s after = refl
resume-deleted_one v (vs, none) s after = refl

module _ (srv : Server) (c : Client) (g : Guest) where
  -- one deletion, and the others if it succeeds
  abbrev delete_step :
      {V : Type 0}
      → V
      → Option Error × State srv c
      → (State srv c → Deleted V × State srv c)
      → Deleted V × State srv c
  delete_step v (some e, s1) after = (([], some e), s1)
  delete_step v (none, s1) after =
      let (d, s2) = after (invalidate srv c s1) in (deleted_one v d, s2)

  delete_each_cons :
      {V : Type 0} (p : ℕ) (v : V) (todel : List (ℕ × V)) (s : State srv c)
      → delete_each srv c g ((p, v) ∷ todel) s
        ≡ delete_step v (delete_firewall_rule srv c g p s) (delete_each srv c g todel)
  unfolding delete_each
  delete_each_cons p v todel s = elim (Option-cases (delete_firewall_rule srv c g p s).0) [
    | inl e ↦ ground arith
    | inr (x, e) ↦ ground arith
  ]

  delete_step-resume :
      {V : Type 0} (v : V) (d : Option Error × State srv c)
      (f h : State srv c → Deleted V × State srv c)
      → delete_step v d (λ s. resume (f s).0 (f s).1 h)
        ≡ resume (delete_step v d f).0 (delete_step v d f).1 h
  delete_step-resume v (some e, s1) f h = refl
  delete_step-resume v (none, s1) f h =
      let (d, s2) = f (invalidate srv c s1) in sym (resume-deleted_one v d s2 h)

  delete_each-append :
      {V : Type 0} (xs ys : List (ℕ × V)) (s : State srv c)
      → delete_each srv c g (xs ++ ys) s
        ≡ resume (delete_each srv c g xs s).0 (delete_each srv c g xs s).1 (delete_each srv c g ys)
  delete_each-append [] ys s = unfold delete_each in refl
  delete_each-append ((p, v) ∷ xs) ys s =
      let step = delete_firewall_rule srv c g p s in
      delete_each_cons p v (xs ++ ys) s
      ∙ ap (delete_step v step) (fun_ext (delete_each-append xs ys))
      ∙ delete_step-resume v step (delete_each srv c g xs) (delete_each srv c g ys)
      ∙ ap (λ (d : Deleted _ × State srv c). resume d.0 d.1 (delete_each srv c g ys))
          (sym (delete_each_cons p v xs s))

module _ (srv : Server) (c : Client) (g : Guest) (pve : Pve srv c g) {V : Type 0}
    (choose : Rule → Option V) where
  -- `d` and `s'` come of deleting the chosen ones of the rules `rs` that stand behind `pre`.
  pub record Outcome (pre rs : List Rule) (d : Deleted V) (s' : State srv c) : Type 0 where
    pub left : List Rule
    pub held_is : rules_of srv c g pve s' ≡ pre ++ left
    pub kept : others choose left ≡ others choose rs
    pub complete : d.1 ≡ none → (left ≡ others choose rs) × (d.0 ≡ reported choose rs)
    pub within : (p : Rule → Bool) → any p rs ≡ false → any p left ≡ false
    pub coherent : Coherent srv c g pve s'

  Outcome-nil :
      (pre : List Rule) (s : State srv c)
      → rules_of srv c g pve s ≡ pre ++ []
      → Coherent srv c g pve s
      → Outcome pre [] ([], none) s
  Outcome-nil pre s e h = record {
    left = [];
    held_is = e;
    kept = refl;
    complete = λ _. unfold others reported in (refl, refl);
    within = λ p k. k;
    coherent = h;
  }

  abbrev OutcomeAt : List Rule → List Rule → Deleted V × State srv c → Type 0
  OutcomeAt pre rs x = Outcome pre rs x.0 x.1

  -- a rule that stays in front of what is left
  Outcome-stays :
      (pre rs : List Rule) (r : Rule) (d : Deleted V) (s1 s2 : State srv c) (d' : Deleted V)
      → Outcome (pre ++ r ∷ []) rs d s1
      → rules_of srv c g pve s2 ≡ rules_of srv c g pve s1
      → Coherent srv c g pve s2
      → (d'.1 ≡ none
          → (r ∷ others choose rs ≡ others choose (r ∷ rs))
            × (d.1 ≡ none)
            × (d.0 ≡ reported choose rs → d'.0 ≡ reported choose (r ∷ rs)))
      → Outcome pre (r ∷ rs) d' s2
  Outcome-stays pre rs r d s1 s2 d' o same coherent finish = record {
    left = r ∷ o.left;
    held_is = same ∙ o.held_is ∙ append_assoc pre (r ∷ []) o.left;
    kept = others_cons choose r o.left rs o.kept;
    complete = λ h.
        let (keeps, ended, reports) = finish h in
        let (whole, values) = o.complete ended in (ap (◌∷◌ r) whole ∙ keeps, reports values);
    within = λ p k.
        let (front, behind) = or_false (p r) (any p rs) k in
        both_false (p r) (any p o.left) front (o.within p behind);
    coherent = coherent;
  }

  Outcome-deleted :
      (pre rs : List Rule) (r : Rule) (v : V) (vs : List V) (s1 : State srv c)
      → choose r ≡ some v
      → Outcome (pre ++ r ∷ []) rs (vs, none) s1
      → (failed : Option Error) → (delete_firewall_rule srv c g (length pre) s1).0 ≡ failed
      → OutcomeAt pre (r ∷ rs) (
          resume
            (vs, none)
            s1
            λ s.
              delete_step srv c g v
                (failed, (delete_firewall_rule srv c g (length pre) s).1)
                (delete_each srv c g []))
  unfolding delete_each
  Outcome-deleted pre rs r v vs s1 chosen o (some x) e =
      let s2 = (delete_firewall_rule srv c g (length pre) s1).1 in
      Outcome-stays pre rs r (vs, none) s1 s2 (vs ++ [], some x) o
        (delete_firewall_rule-some srv c g pve (length pre) s1 x e)
        (delete_firewall_rule-Coherent srv c g pve (length pre) s1 x e o.coherent) (λ h. cc)
  Outcome-deleted pre rs r v vs s1 chosen o none e =
      let s2 = (delete_firewall_rule srv c g (length pre) s1).1 in
      let front = o.held_is ∙ append_assoc pre (r ∷ []) o.left in
      record {
        left = o.left;
        held_is =
            delete_firewall_rule-none srv c g pve (length pre) s1 e
            ∙ ap (remove_at (length pre)) front
            ∙ remove_at-append pre r o.left;
        kept = o.kept ∙ sym (others-some choose r rs chosen);
        complete = λ h.
            let (whole, values) = o.complete refl in
            (
              whole ∙ sym (others-some choose r rs chosen),
              ap (λ (ws : List V). ws ++ v ∷ []) values ∙ sym (reported-some choose r rs chosen),
            );
        within = λ p k. o.within p (or_false (p r) (any p rs) k).1;
        coherent = Coherent-invalidate srv c g pve s2;
      }

  Outcome-cons :
      (pre rs : List Rule) (r : Rule) (d : Deleted V) (s1 : State srv c)
      → Outcome (pre ++ r ∷ []) rs d s1
      → OutcomeAt pre
          (r ∷ rs)
          (resume d s1 (delete_each srv c g (one choose (length pre) (choose r))))
  Outcome-cons pre rs r (vs, some e) s1 o =
      Outcome-stays pre rs r (vs, some e) s1 s1 (vs, some e) o refl o.coherent (λ h. cc)
  Outcome-cons pre rs r (vs, none) s1 o = elim (Option-cases (choose r)) [
    | inl e ↦
        subst
          (λ o'.
            OutcomeAt pre (r ∷ rs)
              (resume (vs, none) s1 (delete_each srv c g (one choose (length pre) o'))))
          (sym e)
          (unfold delete_each in
            Outcome-stays pre rs r (vs, none) s1 s1 (vs ++ [], none) o refl o.coherent
              (λ h. (
                sym (others-none choose r rs e),
                refl,
                λ k. append-nil vs ∙ k ∙ sym (reported-none choose r rs e),
              )))
    | inr (v, e) ↦
        let p = length pre in
        let deletion = delete_firewall_rule srv c g p s1 in
        subst
          (λ o'.
            OutcomeAt pre (r ∷ rs) (resume (vs, none) s1 (delete_each srv c g (one choose p o'))))
          (sym e)
          (subst (λ x. OutcomeAt pre (r ∷ rs) (resume (vs, none) s1 (λ s. x)))
            (sym (delete_each_cons srv c g p v [] s1))
            (Outcome-deleted pre rs r v vs s1 e o deletion.0 refl))
  ]

  -- The rules `rs` that stand behind `pre` lose the chosen ones, and nothing else.
  pub delete_each-Outcome :
      (rs pre : List Rule) (s : State srv c)
      → rules_of srv c g pve s ≡ pre ++ rs
      → Coherent srv c g pve s
      → OutcomeAt pre rs (delete_each srv c g (selected choose (length pre) rs) s)
  unfolding selected
  delete_each-Outcome [] pre s e h = unfold delete_each in Outcome-nil pre s e h
  delete_each-Outcome (r ∷ rs) pre s e h =
      let below = selected choose (length pre + 1) rs in
      let longer : length (pre ++ r ∷ []) ≡ length pre + 1 = length-append pre (r ∷ []) in
      let ih : OutcomeAt (pre ++ r ∷ []) rs (delete_each srv c g below s) =
        subst (λ n. OutcomeAt (pre ++ r ∷ []) rs (delete_each srv c g (selected choose n rs) s))
          longer
          (delete_each-Outcome rs (pre ++ r ∷ []) s (e ∙ sym (append_assoc pre (r ∷ []) rs)) h) in
      let (d, s1) = delete_each srv c g below s in
      subst (OutcomeAt pre (r ∷ rs))
        (sym (delete_each-append srv c g below (one choose (length pre) (choose r)) s))
        (Outcome-cons pre rs r d s1 ih)
