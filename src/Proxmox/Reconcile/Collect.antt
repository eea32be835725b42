-- ===== src/Proxmox/Reconcile/Collect.antt =====
-- The map `todel` and the sort of its keys: over a list in the order of its positions they give
-- the chosen rules from the last to the first.
use proxmox_dns_firewall_loc.Prelude.{
  ℕ, zero, suc, ◌+◌, ◌<◌, List, [], ◌∷◌, ◌++◌, Option, none, some, Option-cases, inl, inr, ◌≡◌,
  refl, ap, ◌∙◌, arith, length, All, append_assoc, append-nil,
}
use proxmox_dns_firewall_loc.Proxmox.Rules.{Rule, RulePos}
use proxmox_dns_firewall_loc.Proxmox.Reconcile.{put_pos, put_if, collect}

-- The rules of a guest as the API lists them.
abbrev pub numbered : ℕ → List Rule → List RulePos
numbered i [] = []
numbered i (r ∷ rs) = record { pos = i; rule = r } ∷ numbered (i + 1) rs

abbrev pub remove_at : ℕ → List Rule → List Rule
remove_at i [] = []
remove_at zero (r ∷ rs) = rs
remove_at (suc i) (r ∷ rs) = r ∷ remove_at i rs

pub remove_at-append :
    (pre : List Rule) (r : Rule) (rs : List Rule)
    → remove_at (length pre) (pre ++ r ∷ rs) ≡ pre ++ rs
remove_at-append [] r rs = refl
remove_at-append (x ∷ pre) r rs = ap (◌∷◌ x) (remove_at-append pre r rs)

module _ {V : Type 0} (choose : Rule → Option V) where
  abbrev pub one : ℕ → Option V → List (ℕ × V)
  one i none = []
  one i (some v) = (i, v) ∷ []

  -- The positions that are chosen, from the last to the first.
  unfoldable pub selected : ℕ → List Rule → List (ℕ × V)
  selected i [] = []
  selected i (r ∷ rs) = selected (i + 1) rs ++ one i (choose r)

  -- The rules that are not chosen.
  unfoldable pub others : List Rule → List Rule
  others [] = []
  others (r ∷ rs) = elim (choose r) [ none ↦ r ∷ others rs | some v ↦ others rs ]

  -- What the chosen rules report, from the last to the first.
  unfoldable pub reported : List Rule → List V
  reported [] = []
  reported (r ∷ rs) = elim (choose r) [ none ↦ reported rs | some v ↦ reported rs ++ v ∷ [] ]

  abbrev AllBelow : ℕ → List (ℕ × V) → Type 0
  AllBelow i todel = All (λ q. q.0 < i) todel

  AllBelow-suc : (i : ℕ) (todel : List (ℕ × V)) → AllBelow i todel → AllBelow (i + 1) todel
  AllBelow-suc i [] h = tt
  AllBelow-suc i (q ∷ todel) h = (omega arith, AllBelow-suc i todel h.1)

  put_pos_front :
      (i : ℕ) (v : V) (todel : List (ℕ × V)) → AllBelow i todel → put_pos i v todel ≡ (i, v) ∷ todel
  unfolding put_pos
  put_pos_front i v [] h = refl
  put_pos_front i v ((q, w) ∷ todel) h = ground arith

  collect-put_if :
      (i : ℕ) (o : Option V) (rs : List Rule) (todel : List (ℕ × V))
      → AllBelow i todel
      → ((more : List (ℕ × V))
          → AllBelow (i + 1) more
          → collect choose more (numbered (i + 1) rs) ≡ selected (i + 1) rs ++ more)
      → collect choose (put_if i o todel) (numbered (i + 1) rs)
        ≡ (selected (i + 1) rs ++ one i o) ++ todel
  collect-put_if i none rs todel h ih =
      rw (append-nil (selected (i + 1) rs)) (ih todel (AllBelow-suc i todel h))
  collect-put_if i (some v) rs todel h ih =
      rw (put_pos_front i v todel h, append_assoc (selected (i + 1) rs) ((i, v) ∷ []) todel)
        (ih ((i, v) ∷ todel) (omega arith, AllBelow-suc i todel h))

  collect-numbered_onto :
      (i : ℕ) (rs : List Rule) (todel : List (ℕ × V))
      → AllBelow i todel
      → collect choose todel (numbered i rs) ≡ selected i rs ++ todel
  unfolding collect selected
  collect-numbered_onto i [] todel h = refl
  collect-numbered_onto i (r ∷ rs) todel h =
      collect-put_if i (choose r) rs todel h (collect-numbered_onto (i + 1) rs)

  pub collect-numbered : (rs : List Rule) → collect choose [] (numbered 0 rs) ≡ selected 0 rs
  collect-numbered rs = collect-numbered_onto 0 rs [] tt ∙ append-nil (selected 0 rs)

  pub others-none : (r : Rule) (rs : List Rule) → choose r ≡ none → others (r ∷ rs) ≡ r ∷ others rs
  unfolding others
  others-none r rs e = ground arith

  pub others-some :
      (r : Rule) (rs : List Rule) {v : V} → choose r ≡ some v → others (r ∷ rs) ≡ others rs
  unfolding others
  others-some r rs e = ground arith

  pub others_cons :
      (r : Rule) (xs ys : List Rule) → others xs ≡ others ys → others (r ∷ xs) ≡ others (r ∷ ys)
  unfolding others
  others_cons r xs ys e = elim (Option-cases (choose r)) [
    | inl n ↦ ground (arith, e)
    | inr (v, y) ↦ ground (arith, e)
  ]

  pub reported-none :
      (r : Rule) (rs : List Rule) → choose r ≡ none → reported (r ∷ rs) ≡ reported rs
  unfolding reported
  reported-none r rs e = ground arith

  pub reported-some :
      (r : Rule) (rs : List Rule) {v : V}
      → choose r ≡ some v
      → reported (r ∷ rs) ≡ reported rs ++ v ∷ []
  unfolding reported
  reported-some r rs e = ground arith
