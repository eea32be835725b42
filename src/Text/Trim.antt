-- ===== src/Text/Trim.antt =====
-- Laws of the trimming functions and of prefixes.
use proxmox_dns_firewall_loc.Prelude.{
  ℕ, Bool, true, false, ◌||◌, [], ◌∷◌, ◌++◌, ◌==◌, Bool-cases, inl, inr, ◌≡◌, refl, ap, ◌∙◌, arith,
}
use proxmox_dns_firewall_loc.Text.{
  Text, is_space, trim_left, trim_right, trim_space, push_kept, has_prefix, strip_prefix,
  trim_suffix, lf, cr,
}

push_kept-append :
    (p : ℕ → Bool) (c : ℕ) (s : Text) (d : ℕ) (t : Text)
    → push_kept p c (s ++ d ∷ t) ≡ c ∷ (s ++ d ∷ t)
push_kept-append p c [] d t = refl
push_kept-append p c (e ∷ s) d t = refl

push_kept-keep : (p : ℕ → Bool) (d : ℕ) (t : Text) → p d ≡ false → push_kept p d t ≡ d ∷ t
push_kept-keep p d [] h = rw h
push_kept-keep p d (e ∷ t) h = refl

-- What stands up to a kept character stays.
pub trim_right-append :
    (p : ℕ → Bool) (s : Text) (d : ℕ) (t : Text)
    → p d ≡ false
    → trim_right p (s ++ d ∷ t) ≡ s ++ d ∷ trim_right p t
unfolding trim_right
trim_right-append p [] d t h = push_kept-keep p d (trim_right p t) h
trim_right-append p (c ∷ s) d t h = rw (trim_right-append p s d t h) (push_kept-append p c s d _)

pub trim_right_snoc :
    (p : ℕ → Bool) (s : Text) (d : ℕ) → p d ≡ false → trim_right p (s ++ d ∷ []) ≡ s ++ d ∷ []
trim_right_snoc p s d h = trim_right-append p s d [] h ∙ (unfold trim_right in refl)

push_kept-absorb :
    (p q : ℕ → Bool) (c : ℕ) (s : Text)
    → (q c ≡ true → p c ≡ true)
    → trim_right p (push_kept q c s) ≡ push_kept p c (trim_right p s)
unfolding trim_right
push_kept-absorb p q c [] h = ground arith
push_kept-absorb p q c (d ∷ s) h = refl

-- A narrower cutset first makes no difference.
pub trim_right-trim_right :
    (p q : ℕ → Bool) (s : Text)
    → ((c : ℕ) → q c ≡ true → p c ≡ true)
    → trim_right p (trim_right q s) ≡ trim_right p s
unfolding trim_right
trim_right-trim_right p q [] h = refl
trim_right-trim_right p q (c ∷ s) h =
    push_kept-absorb p q c (trim_right q s) (h c)
    ∙ ap (push_kept p c) (trim_right-trim_right p q s h)

trim_left-cut :
    (p q : ℕ → Bool) (c : ℕ) (s : Text) → p c ≡ true → trim_left p (push_kept q c s) ≡ trim_left p s
unfolding trim_left
trim_left-cut p q c [] h = ground arith
trim_left-cut p q c (d ∷ s) h = rw h

pub trim_left_keep : (p : ℕ → Bool) (c : ℕ) (s : Text) → p c ≡ false → trim_left p (c ∷ s) ≡ c ∷ s
unfolding trim_left
trim_left_keep p c s h = rw h

pub trim_left_drop :
    (p : ℕ → Bool) (c : ℕ) (s : Text) → p c ≡ true → trim_left p (c ∷ s) ≡ trim_left p s
unfolding trim_left
trim_left_drop p c s h = rw h

trim_right_cons :
    (p : ℕ → Bool) (c : ℕ) (s : Text) → trim_right p (c ∷ s) ≡ push_kept p c (trim_right p s)
unfolding trim_right
trim_right_cons p c s = refl

pub trim_left-trim_right :
    (p q : ℕ → Bool) (s : Text)
    → ((c : ℕ) → q c ≡ true → p c ≡ true)
    → trim_right p (trim_left p (trim_right q s)) ≡ trim_right p (trim_left p s)
trim_left-trim_right p q [] h = unfold trim_left trim_right in refl
trim_left-trim_right p q (c ∷ s) h = elim (Bool-cases (p c)) [
  | inl cut ↦
      rw (trim_right_cons q c s, trim_left-cut p q c (trim_right q s) cut, trim_left_drop p c s cut)
        (trim_left-trim_right p q s h)
  | inr kept ↦ rw (
    trim_right_cons q c s,
    push_kept-keep q c (trim_right q s) (not_cut kept),
    trim_left_keep p c (trim_right q s) kept,
    trim_left_keep p c s kept,
    trim_right_cons p c (trim_right q s),
    trim_right_cons p c s,
    trim_right-trim_right p q s h,
  )
]
  where
    not_cut : p c ≡ false → q c ≡ false
    not_cut kept = elim (Bool-cases (q c)) [ inl y ↦ cc (h c y) | inr n ↦ n ]

pub trim_left_idem : (p : ℕ → Bool) (s : Text) → trim_left p (trim_left p s) ≡ trim_left p s
trim_left_idem p [] = unfold trim_left in refl
trim_left_idem p (c ∷ s) = elim (Bool-cases (p c)) [
  | inl cut ↦ rw (trim_left_drop p c s cut) (trim_left_idem p s)
  | inr kept ↦ rw (trim_left_keep p c s kept) (trim_left_keep p c s kept)
]

-- Empty, or starting with a character outside of the cutset.
abbrev pub StartsKept : (ℕ → Bool) → Text → Type 0
StartsKept p [] = Unit
StartsKept p (c ∷ s) = p c ≡ false

pub trim_left-StartsKept : (p : ℕ → Bool) (s : Text) → StartsKept p (trim_left p s)
trim_left-StartsKept p [] = unfold trim_left in tt
trim_left-StartsKept p (c ∷ s) = elim (Bool-cases (p c)) [
  | inl cut ↦ rw (trim_left_drop p c s cut) (trim_left-StartsKept p s)
  | inr kept ↦ rw (trim_left_keep p c s kept) kept
]

pub trim_left-eq_self : (p : ℕ → Bool) (s : Text) → StartsKept p s → trim_left p s ≡ s
trim_left-eq_self p [] h = unfold trim_left in refl
trim_left-eq_self p (c ∷ s) h = trim_left_keep p c s h

push_kept-StartsKept :
    (p q : ℕ → Bool) (c : ℕ) (s : Text) → p c ≡ false → StartsKept p (push_kept q c s)
push_kept-StartsKept p q c [] h = ground arith
push_kept-StartsKept p q c (d ∷ s) h = h

pub trim_right-StartsKept :
    (p q : ℕ → Bool) (s : Text) → StartsKept p s → StartsKept p (trim_right q s)
trim_right-StartsKept p q [] h = unfold trim_right in tt
trim_right-StartsKept p q (c ∷ s) h =
    rw (trim_right_cons q c s) (push_kept-StartsKept p q c (trim_right q s) h)

pub trim_suffix-StartsKept :
    (p : ℕ → Bool) (c : ℕ) (s : Text) → StartsKept p s → StartsKept p (trim_suffix c s)
unfolding trim_suffix
trim_suffix-StartsKept p c [] h = tt
trim_suffix-StartsKept p c (d ∷ []) h = ground arith
trim_suffix-StartsKept p c (d ∷ e ∷ s) h = h

pub trim_space-StartsKept : (s : Text) → StartsKept is_space (trim_space s)
unfolding trim_space
trim_space-StartsKept s =
    trim_right-StartsKept is_space is_space (trim_left is_space s) (trim_left-StartsKept is_space s)

-- The test of a cutset "\r\n".
unfoldable pub is_eol : ℕ → Bool
is_eol c = c == cr || c == lf

pub trim_space-trim_right : (s : Text) → trim_space (trim_right is_eol s) ≡ trim_space s
unfolding trim_space is_eol is_space
trim_space-trim_right s = trim_left-trim_right is_space is_eol s (λ c h. ground arith)

-- A trimmed text has no space at either end.
pub trim_space_idem : (s : Text) → trim_space (trim_space s) ≡ trim_space s
unfolding trim_space
trim_space_idem s =
    trim_left-trim_right is_space is_space (trim_left is_space s) (λ c h. h)
    ∙ ap (trim_right is_space) (trim_left_idem is_space s)

pub has_prefix-append : (p s : Text) → has_prefix (p ++ s) p ≡ true
unfolding has_prefix
has_prefix-append [] s = refl
has_prefix-append (c ∷ p) s = ground (arith, has_prefix-append p s)

pub strip_prefix-append : (p s : Text) → strip_prefix (p ++ s) p ≡ s
unfolding strip_prefix
strip_prefix-append [] s = refl
strip_prefix-append (c ∷ p) s = strip_prefix-append p s

pub has_prefix-split : (s p : Text) → has_prefix s p ≡ true → s ≡ p ++ strip_prefix s p
unfolding has_prefix strip_prefix
has_prefix-split s [] h = refl
has_prefix-split [] (d ∷ p) h = cc
has_prefix-split (c ∷ s) (d ∷ p) h = ground (arith, has_prefix-split s p)

pub trim_suffix_snoc : (c : ℕ) (s : Text) → trim_suffix c (s ++ c ∷ []) ≡ s
unfolding trim_suffix
trim_suffix_snoc c [] = ground arith
trim_suffix_snoc c (d ∷ []) = ground arith
trim_suffix_snoc c (d ∷ e ∷ s) = ap (◌∷◌ d) (trim_suffix_snoc c (e ∷ s))
