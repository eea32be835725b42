-- ===== src/Allowlist/Merge/Order.antt =====
-- MergeSuggestedLines and the order in which Go walks the map of suggestions.
use mathlib.Core.Logic.{∥∥₁_elim}
use mathlib.Core.List.{Perm, Permᴰ}
use mathlib.Core.List.Perm
use proxmox_dns_firewall_loc.Prelude.{
  Bool, true, false, ◌||◌, List, [], ◌∷◌, ◌++◌, Bool-cases, inl, inr, ◌≡◌, ◌⊎◌, refl, sym, ap,
  subst, ◌∙◌, arith, append_assoc,
}
use proxmox_dns_firewall_loc.Text.{
  Text, text_eq, text_eq_iff, trim_space, trim_right, contains, add_name, contains-add_name,
}
use proxmox_dns_firewall_loc.Text.Trim.{is_eol}
use proxmox_dns_firewall_loc.Text.Order.{sort_texts-perm}
use proxmox_dns_firewall_loc.Allowlist.{
  normalize, already_listed, Merged, add_line, add_lines, suggestion, suggest, suggest_all,
  nothing_merged, merge_suggested_lines,
}
use proxmox_dns_firewall_loc.Allowlist.Listing.{trim_space-suggestion}

-- The same lines in some order, and the same keys seen.
record Same (m m' : Merged) : Type 0 where
  lines : Perm m.out m'.out
  keys : (k : Text) → contains m.seen k ≡ contains m'.seen k

Same-refl : (m : Merged) → Same m m
Same-refl m = record { lines = Perm.refl m.out; keys = λ k. refl }

Same-trans : {m n o : Merged} → Same m n → Same n o → Same m o
Same-trans a b = record { lines = Perm.trans a.lines b.lines; keys = λ k. a.keys k ∙ b.keys k }

Same-of_eq : {m n : Merged} → m ≡ n → Same m n
Same-of_eq {m} e = subst (Same m) e (Same-refl m)

abbrev skips : Merged → Text → Bool
skips m l = text_eq (trim_space l) [] || contains m.seen (trim_space l)

abbrev with_line : Merged → Text → Merged
with_line m l = record m {
  seen = add_name m.seen (trim_space l);
  out = m.out ++ trim_right is_eol l ∷ [];
}

add_line_skip : (m : Merged) (l : Text) → skips m l ≡ true → add_line m l ≡ m
unfolding add_line
add_line_skip m l h = ground arith

add_line_new : (m : Merged) (l : Text) → skips m l ≡ false → add_line m l ≡ with_line m l
unfolding add_line
add_line_new m l h = ground arith

skips-with_line :
    (m : Merged) (a b : Text)
    → skips (with_line m a) b ≡ (skips m b || text_eq (trim_space a) (trim_space b))
skips-with_line m a b = ground (arith, contains-add_name m.seen (trim_space a) (trim_space b))

add_line-Same : {m n : Merged} (l : Text) → Same m n → Same (add_line m l) (add_line n l)
add_line-Same {m} {n} l s = elim (Bool-cases (skips m l)) [
  | inl old ↦
      subst (λ x. Same x (add_line n l)) (sym (add_line_skip m l old))
        (subst (Same m) (sym (add_line_skip n l (same ∙ old))) s)
  | inr new ↦
      subst (λ x. Same x (add_line n l)) (sym (add_line_new m l new))
        (subst (Same (with_line m l)) (sym (add_line_new n l (same ∙ new))) record {
          lines = Perm.append_right (trim_right is_eol l ∷ []) s.lines;
          keys = λ k.
              contains-add_name m.seen (trim_space l) k
              ∙ ap (λ b. text_eq (trim_space l) k || b) (s.keys k)
              ∙ sym (contains-add_name n.seen (trim_space l) k);
        })
]
  where
    same : skips n l ≡ skips m l
    same = ap (λ b. text_eq (trim_space l) [] || b) (sym (s.keys (trim_space l)))

add_line_both_new :
    (m : Merged) (a b : Text)
    → skips m a ≡ false
    → skips m b ≡ false
    → text_eq (trim_space a) (trim_space b) ≡ false
    → add_line (add_line m a) b ≡ with_line (with_line m a) b
add_line_both_new m a b ha hb ne =
    ap (λ x. add_line x b) (add_line_new m a ha)
    ∙ add_line_new (with_line m a) b (ground (arith, skips-with_line m a b))

with_line_swap :
    (m : Merged) (a b : Text) → Same (with_line (with_line m a) b) (with_line (with_line m b) a)
with_line_swap m a b = record {
  lines =
      let x = trim_right is_eol a in
      let y = trim_right is_eol b in
      rw (append_assoc m.out (x ∷ []) (y ∷ []), append_assoc m.out (y ∷ []) (x ∷ []))
        (Perm.append_left m.out (Perm.swap y x []));
  keys = λ k. ground (
    arith,
    contains-add_name m.seen (trim_space a) k,
    contains-add_name m.seen (trim_space b) k,
    contains-add_name (add_name m.seen (trim_space a)) (trim_space b) k,
    contains-add_name (add_name m.seen (trim_space b)) (trim_space a) k,
  );
}

-- A line that is skipped stays skipped when another one is added.
add_line_old :
    (m : Merged) (a b : Text)
    → skips m a ≡ true
    → add_line (add_line m a) b ≡ add_line (add_line m b) a
add_line_old m a b ha = ap (λ x. add_line x b) (add_line_skip m a ha) ∙ sym (after b)
  where
    after : (b : Text) → add_line (add_line m b) a ≡ add_line m b
    after b = elim (Bool-cases (skips m b)) [
      | inl old ↦ rw (add_line_skip m b old) (add_line_skip m a ha)
      | inr new ↦
          rw (add_line_new m b new)
            (add_line_skip (with_line m b) a (ground (arith, skips-with_line m b a)))
    ]

add_line_swap :
    (m : Merged) (a b : Text)
    → (text_eq (trim_space a) (trim_space b) ≡ true → a ≡ b)
    → Same (add_line (add_line m a) b) (add_line (add_line m b) a)
add_line_swap m a b id = elim (Bool-cases (skips m a)) [
  | inl a_old ↦ Same-of_eq (add_line_old m a b a_old)
  | inr a_new ↦ elim (Bool-cases (skips m b)) [
    | inl b_old ↦ Same-of_eq (sym (add_line_old m b a b_old))
    | inr b_new ↦ elim (Bool-cases (text_eq (trim_space a) (trim_space b))) [
      | inl same ↦ Same-of_eq (
          ap (λ x. add_line (add_line m x) b) (id same)
          ∙ ap (λ x. add_line (add_line m b) x) (sym (id same)))
      | inr other ↦
          subst (λ x. Same x (add_line (add_line m b) a))
            (sym (add_line_both_new m a b a_new b_new other))
            (subst (Same (with_line (with_line m a) b))
              (sym (add_line_both_new m b a b_new a_new (flip other))) (with_line_swap m a b))
    ]
  ]
]
  where
    flip :
        text_eq (trim_space a) (trim_space b) ≡ false
        → text_eq (trim_space b) (trim_space a) ≡ false
    flip h = ground (
      arith,
      text_eq_iff (trim_space a) (trim_space b),
      text_eq_iff (trim_space b) (trim_space a),
    )

module _ (inner : List Text) where
  -- Whether a name is suggested does not depend on what was merged before.
  suggest-cases :
      (f : Text)
      → ((m : Merged) → suggest inner m f ≡ m)
        ⊎ ((m : Merged) → suggest inner m f ≡ add_line m (suggestion (normalize f)))
  unfolding suggest
  suggest-cases f = elim (Bool-cases (already_listed inner f)) [
    | inl old ↦ inl (λ m. rw old)
    | inr new ↦ elim (Bool-cases (text_eq (normalize f) [])) [
      | inl empty ↦ inl (λ m. rw (new, empty))
      | inr full ↦ inr (λ m. rw (new, full))
    ]
  ]

  suggest-Same : {m n : Merged} (f : Text) → Same m n → Same (suggest inner m f) (suggest inner n f)
  suggest-Same {m} {n} f s = elim (suggest-cases f) [
    | inl e ↦ subst (λ x. Same x (suggest inner n f)) (sym (e m)) (subst (Same m) (sym (e n)) s)
    | inr e ↦
        subst (λ x. Same x (suggest inner n f)) (sym (e m))
          (subst (Same (add_line m (suggestion (normalize f)))) (sym (e n))
            (add_line-Same (suggestion (normalize f)) s))
  ]

  suggest_swap :
      (m : Merged) (f g : Text)
      → Same (suggest inner (suggest inner m f) g) (suggest inner (suggest inner m g) f)
  suggest_swap m f g = elim (suggest-cases f) [
    | inl ef ↦ Same-of_eq (ap (λ x. suggest inner x g) (ef m) ∙ sym (ef (suggest inner m g)))
    | inr ef ↦ elim (suggest-cases g) [
      | inl eg ↦ Same-of_eq (eg (suggest inner m f) ∙ sym (ap (λ x. suggest inner x f) (eg m)))
      | inr eg ↦
          let a = suggestion (normalize f) in
          let b = suggestion (normalize g) in
          let fg : suggest inner (suggest inner m f) g ≡ add_line (add_line m a) b =
            eg (suggest inner m f) ∙ ap (λ x. add_line x b) (ef m) in
          let gf : suggest inner (suggest inner m g) f ≡ add_line (add_line m b) a =
            ef (suggest inner m g) ∙ ap (λ x. add_line x a) (eg m) in
          subst (λ x. Same x (suggest inner (suggest inner m g) f)) (sym fg)
            (subst (Same (add_line (add_line m a) b)) (sym gf) (
              add_line_swap m a b (λ h.
                sym (trim_space-suggestion (normalize f))
                ∙ (text_eq_iff (trim_space a) (trim_space b)).0 h
                ∙ trim_space-suggestion (normalize g))))
    ]
  ]

  suggest_all-Same :
      (fs : List Text) {m n : Merged}
      → Same m n
      → Same (suggest_all inner m fs) (suggest_all inner n fs)
  unfolding suggest_all
  suggest_all-Same [] s = s
  suggest_all-Same (f ∷ fs) s = suggest_all-Same fs (suggest-Same f s)

  suggest_all-Permᴰ :
      {fs gs : List Text} (m : Merged)
      → Permᴰ fs gs
      → Same (suggest_all inner m fs) (suggest_all inner m gs)
  unfolding suggest_all
  suggest_all-Permᴰ m Permᴰ.nil = Same-refl m
  suggest_all-Permᴰ m (Permᴰ.cons {a} {b} {l₁ = fs} {l₂ = gs} e p) =
      rw e (suggest_all-Permᴰ (suggest inner m b) p)
  suggest_all-Permᴰ m (Permᴰ.swap {a} {b} {l = fs} e f) =
      rw (← e, ← f) (suggest_all-Same fs (suggest_swap m a b))
  suggest_all-Permᴰ m (Permᴰ.trans p q) = Same-trans (suggest_all-Permᴰ m p) (suggest_all-Permᴰ m q)

Lines-set : IsSet (List Text)
Lines-set = hlevel

-- The merged lines do not depend on the order in which the suggestions are met.
pub merge_suggested_lines-perm :
    (inner : List Text) {suggested suggested' : List Text}
    → Perm suggested suggested'
    → merge_suggested_lines inner suggested ≡ merge_suggested_lines inner suggested'
unfolding merge_suggested_lines
merge_suggested_lines-perm inner p =
    ∥∥₁_elim p (Lines-set _ _)
      λ d. sort_texts-perm (suggest_all-Permᴰ inner (add_lines nothing_merged inner) d).lines
