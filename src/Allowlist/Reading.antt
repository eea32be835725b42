-- ===== src/Allowlist/Reading.antt =====
-- The lines of a text that is trimmed, and of lines that are joined, as the parsers see them.
use proxmox_dns_firewall_loc.Prelude.{
  ℕ, Bool, true, false, ◌||◌, List, [], ◌∷◌, ◌==◌, if◌then◌else◌, Bool-cases, inl, inr, ◌≡◌, refl,
  sym, ap, ◌∙◌, arith, All,
}
use proxmox_dns_firewall_loc.Text.{
  Text, is_space, trim_left, trim_right, trim_space, push_kept, split_lf, push_head, join_lf, lf,
}
use proxmox_dns_firewall_loc.Text.Trim.{trim_left_drop, trim_left_keep, trim_left-trim_right}
use proxmox_dns_firewall_loc.Text.Lines.{IsLine, split_lf-line, split_lf-IsLine}
use proxmox_dns_firewall_loc.Allowlist.Listing.{any_trimmed}

-- one character in front of lines
abbrev split_step : ℕ → List Text → List Text
split_step c ls = if c == lf then [] ∷ ls else push_head c ls

lf-is_space : (c : ℕ) → (c == lf) ≡ true → is_space c ≡ true
unfolding is_space
lf-is_space c e = ground arith

trim_space_drop : (c : ℕ) (l : Text) → is_space c ≡ true → trim_space (c ∷ l) ≡ trim_space l
unfolding trim_space
trim_space_drop c l e = ap (trim_right is_space) (trim_left_drop is_space c l e)

-- Both have a first line, which is the same up to spaces at its end.
module _ (q : Text → Bool) (blank : q [] ≡ false) where
  q_blank : q (trim_space []) ≡ false
  q_blank = unfold trim_space trim_left trim_right in blank

  any-space :
      (c : ℕ) (ls : List Text)
      → is_space c ≡ true
      → any_trimmed q (split_step c ls) ≡ any_trimmed q ls
  any-space c ls e = elim (Bool-cases (c == lf)) [
    | inl ends ↦ rw (ends, q_blank) refl
    | inr inside ↦ rw inside (in_front ls)
  ]
    where
      in_front : (ls : List Text) → any_trimmed q (push_head c ls) ≡ any_trimmed q ls
      in_front [] = rw (trim_space_drop c [] e, q_blank) refl
      in_front (l ∷ ls) = rw (trim_space_drop c l e) refl

  any-trim_left :
      (s : Text) → any_trimmed q (split_lf (trim_left is_space s)) ≡ any_trimmed q (split_lf s)
  any-trim_left [] = unfold trim_left in refl
  any-trim_left (c ∷ s) = elim (Bool-cases (is_space c)) [
    | inl space ↦
        ap (λ t. any_trimmed q (split_lf t)) (trim_left_drop is_space c s space)
        ∙ any-trim_left s
        ∙ sym (unfold split_lf in any-space c (split_lf s) space)
    | inr kept ↦ ap (λ t. any_trimmed q (split_lf t)) (trim_left_keep is_space c s kept)
  ]

  abbrev Alike : List Text → List Text → Type 0
  Alike (h ∷ hs) (k ∷ ks) =
      (trim_right is_space h ≡ trim_right is_space k) × (any_trimmed q hs ≡ any_trimmed q ks)
  Alike _ _ = ⊥

  trim_space-trim_right_space : (l : Text) → trim_space (trim_right is_space l) ≡ trim_space l
  unfolding trim_space
  trim_space-trim_right_space l = trim_left-trim_right is_space is_space l (λ c h. h)

  Alike-any : (a b : List Text) → Alike a b → any_trimmed q a ≡ any_trimmed q b
  Alike-any (h ∷ hs) (k ∷ ks) (heads, tails) =
      let same : trim_space h ≡ trim_space k =
        sym (trim_space-trim_right_space h) ∙ ap trim_space heads ∙ trim_space-trim_right_space k in
      rw (same, tails) refl
  Alike-any [] b a = absurd a
  Alike-any (h ∷ hs) [] a = absurd a

  Alike-push_head : (c : ℕ) (a b : List Text) → Alike a b → Alike (push_head c a) (push_head c b)
  unfolding trim_right
  Alike-push_head c (h ∷ hs) (k ∷ ks) (heads, tails) = (ap (push_kept is_space c) heads, tails)
  Alike-push_head c [] b a = absurd a
  Alike-push_head c (h ∷ hs) [] a = absurd a

  Alike-split_step : (c : ℕ) (a b : List Text) → Alike a b → Alike (split_step c a) (split_step c b)
  Alike-split_step c a b h = elim (Bool-cases (c == lf)) [
    | inl ends ↦ rw ends (refl, Alike-any a b h)
    | inr inside ↦ rw inside (Alike-push_head c a b h)
  ]

  -- a space in front of blank lines
  Alike-blank :
      (c : ℕ) (b : List Text)
      → is_space c ≡ true
      → Alike ([] ∷ []) b
      → Alike ([] ∷ []) (split_step c b)
  unfolding trim_right
  Alike-blank c [] e h = absurd h
  Alike-blank c (k ∷ ks) e h = elim (Bool-cases (c == lf)) [
    | inl ends ↦ rw ends (refl, sym (rw q_blank refl) ∙ Alike-any ([] ∷ []) (k ∷ ks) h)
    | inr inside ↦ rw inside (blank_head ∙ ap (push_kept is_space c) h.0, h.1)
  ]
    where
      blank_head : [] ≡ push_kept is_space c []
      blank_head = rw e refl

  Alike-push_kept :
      (c : ℕ) (t s : Text)
      → Alike (split_lf t) (split_lf s)
      → Alike (split_lf (push_kept is_space c t)) (split_lf (c ∷ s))
  unfolding split_lf
  Alike-push_kept c [] s h = elim (Bool-cases (is_space c)) [
    | inl space ↦ rw space (Alike-blank c (split_lf s) space h)
    | inr kept ↦ rw kept (Alike-split_step c ([] ∷ []) (split_lf s) h)
  ]
  Alike-push_kept c (d ∷ t) s h = Alike-split_step c (split_lf (d ∷ t)) (split_lf s) h

  Alike-trim_right : (s : Text) → Alike (split_lf (trim_right is_space s)) (split_lf s)
  unfolding trim_right
  Alike-trim_right [] = unfold split_lf in (refl, refl)
  Alike-trim_right (c ∷ s) = Alike-push_kept c (trim_right is_space s) s (Alike-trim_right s)

  -- The spaces around a text make no difference to what its lines say.
  pub any-trim_space :
      (s : Text) → any_trimmed q (split_lf (trim_space s)) ≡ any_trimmed q (split_lf s)
  unfolding trim_space
  any-trim_space s =
      Alike-any (split_lf (trim_right is_space (trim_left is_space s)))
        (split_lf (trim_left is_space s)) (Alike-trim_right (trim_left is_space s))
      ∙ any-trim_left s

  -- Lines that are joined come apart again.
  pub any-join_lf :
      (ls : List Text) → All IsLine ls → any_trimmed q (split_lf (join_lf ls)) ≡ any_trimmed q ls
  unfolding join_lf
  any-join_lf [] h = unfold split_lf in rw q_blank refl
  any-join_lf (l ∷ []) h = ap (any_trimmed q) (split_lf-IsLine l h.0)
  any-join_lf (l ∷ m ∷ ls) h =
      rw (split_lf-line l (join_lf (m ∷ ls)) h.0)
        (ap (λ b. q (trim_space l) || b) (any-join_lf (m ∷ ls) h.1))
