-- ===== src/Text/Lines.antt =====
-- Splitting a text at line feeds after the line ends are unified, and putting lines together.
use proxmox_dns_firewall_loc.Prelude.{
  ℕ, true, false, ◌&&◌, ◌||◌, List, [], ◌∷◌, ◌++◌, ◌==◌, if◌then◌else◌, Bool-cases, inl, inr, ◌≡◌,
  refl, ap, ◌∙◌, arith, All, All-append, append_assoc,
}
use proxmox_dns_firewall_loc.Text.{
  Text, lf, cr, replace_crlf, replace_cr, split_lf, push_head, starts_lf, join_lf,
}

-- Every line followed by "\n", as a loop of WriteString and WriteByte leaves them.
unfoldable pub unlines : List Text → Text
unlines [] = []
unlines (l ∷ ls) = l ++ lf ∷ unlines ls

-- strings.Split after both replacements of splitLines
unfoldable pub split_unified : Text → List Text
split_unified s = split_lf (replace_cr (replace_crlf s))

-- A text with no line end in it.
abbrev pub IsLine : Text → Type 0
IsLine l = All (λ c. (c == cr || c == lf) ≡ false) l

replace_crlf-append :
    (x y : Text) → (x' : Text) × (replace_crlf (x ++ lf ∷ y) ≡ x' ++ lf ∷ replace_crlf y)
unfolding replace_crlf
replace_crlf-append [] y = ([], refl)
replace_crlf-append (c ∷ x) y =
    let (x', e) = replace_crlf-append x y in
    elim (Bool-cases (c == cr && starts_lf (x ++ lf ∷ y))) [
      | inl pair ↦ (x', rw pair e)
      | inr single ↦ (c ∷ x', rw single (ap (◌∷◌ c) e))
    ]

replace_cr-append : (x y : Text) → replace_cr (x ++ lf ∷ y) ≡ replace_cr x ++ lf ∷ replace_cr y
unfolding replace_cr
replace_cr-append [] y = refl
replace_cr-append (c ∷ x) y = ap (◌∷◌ (if c == cr then lf else c)) (replace_cr-append x y)

-- A split has a first line.
pub split_lf-ne_nil : (s : Text) → (l : Text) × (ls : List Text) × (split_lf s ≡ l ∷ ls)
unfolding split_lf
split_lf-ne_nil [] = ([], [], refl)
split_lf-ne_nil (c ∷ s) =
    let (l, ls, e) = split_lf-ne_nil s in
    elim (Bool-cases (c == lf)) [
      | inl ends ↦ ([], split_lf s, rw ends)
      | inr inside ↦ (c ∷ l, ls, rw (inside, e))
    ]

push_head-append :
    (c : ℕ) (x : Text) (r : List Text)
    → push_head c (split_lf x ++ r) ≡ push_head c (split_lf x) ++ r
push_head-append c x r = let (l, ls, e) = split_lf-ne_nil x in rw e

split_lf_end : (s : Text) → split_lf (lf ∷ s) ≡ [] ∷ split_lf s
unfolding split_lf
split_lf_end s = refl

split_lf_inside :
    (c : ℕ) (s : Text) → (c == lf) ≡ false → split_lf (c ∷ s) ≡ push_head c (split_lf s)
unfolding split_lf
split_lf_inside c s h = rw h

split_lf-lf : (c : ℕ) (s : Text) → (c == lf) ≡ true → split_lf (c ∷ s) ≡ [] ∷ split_lf s
unfolding split_lf
split_lf-lf c s h = rw h

pub split_lf-append : (x y : Text) → split_lf (x ++ lf ∷ y) ≡ split_lf x ++ split_lf y
split_lf-append [] y = unfold split_lf in refl
split_lf-append (c ∷ x) y = elim (Bool-cases (c == lf)) [
  | inl ends ↦
      rw (split_lf-lf c (x ++ lf ∷ y) ends, split_lf-lf c x ends)
        (ap (◌∷◌ []) (split_lf-append x y))
  | inr inside ↦ rw (
    split_lf_inside c (x ++ lf ∷ y) inside,
    split_lf_inside c x inside,
    split_lf-append x y,
    push_head-append c x (split_lf y),
  )
]

-- Whatever stands before a line feed becomes whole lines of its own.
pub split_unified-append :
    (x y : Text) → (ls : List Text) × (split_unified (x ++ lf ∷ y) ≡ ls ++ split_unified y)
unfolding split_unified
split_unified-append x y =
    let (x', e) = replace_crlf-append x y in
    (
      split_lf (replace_cr x'),
      rw (e, replace_cr-append x' (replace_crlf y)) (split_lf-append (replace_cr x') _),
    )

replace_crlf-line : (l y : Text) → IsLine l → replace_crlf (l ++ lf ∷ y) ≡ l ++ lf ∷ replace_crlf y
unfolding replace_crlf
replace_crlf-line [] y h = refl
replace_crlf-line (c ∷ l) y h = ground (arith, replace_crlf-line l y)

replace_cr-line : (l y : Text) → IsLine l → replace_cr (l ++ lf ∷ y) ≡ l ++ lf ∷ replace_cr y
unfolding replace_cr
replace_cr-line [] y h = refl
replace_cr-line (c ∷ l) y h = ground (arith, replace_cr-line l y)

pub split_lf-line : (l y : Text) → IsLine l → split_lf (l ++ lf ∷ y) ≡ l ∷ split_lf y
split_lf-line [] y h = split_lf_end y
split_lf-line (c ∷ l) y h =
    rw (split_lf_inside c (l ++ lf ∷ y) (ground arith), split_lf-line l y h.1)

pub split_unified-line : (l y : Text) → IsLine l → split_unified (l ++ lf ∷ y) ≡ l ∷ split_unified y
unfolding split_unified
split_unified-line l y h =
    rw (replace_crlf-line l y h, replace_cr-line l (replace_crlf y) h) (split_lf-line l _ h)

-- Lines put together come apart again, before whatever follows.
pub split_unified-unlines :
    (ls : List Text) (y : Text)
    → All IsLine ls
    → split_unified (unlines ls ++ y) ≡ ls ++ split_unified y
unfolding unlines
split_unified-unlines [] y h = refl
split_unified-unlines (l ∷ ls) y h =
    rw (append_assoc l (lf ∷ unlines ls) y)
      (split_unified-line l (unlines ls ++ y) h.0 ∙ ap (◌∷◌ l) (split_unified-unlines ls y h.1))

-- A text with no line end is one line.
pub split_lf-IsLine : (l : Text) → IsLine l → split_lf l ≡ l ∷ []
split_lf-IsLine [] h = unfold split_lf in refl
split_lf-IsLine (c ∷ l) h = rw (split_lf_inside c l (ground arith), split_lf-IsLine l h.1) refl

-- a text without carriage returns
abbrev pub CrFree : Text → Type 0
CrFree s = All (λ c. (c == cr) ≡ false) s

pub replace_cr-CrFree : (s : Text) → CrFree (replace_cr s)
unfolding replace_cr
replace_cr-CrFree [] = tt
replace_cr-CrFree (c ∷ s) =
    (elim (Bool-cases (c == cr)) [ inl e ↦ rw e refl | inr e ↦ rw e e ], replace_cr-CrFree s)

pub replace_crlf-eq_self : (s : Text) → CrFree s → replace_crlf s ≡ s
unfolding replace_crlf
replace_crlf-eq_self [] h = refl
replace_crlf-eq_self (c ∷ s) h = ground (arith, replace_crlf-eq_self s h.1, h.0)

pub replace_cr-eq_self : (s : Text) → CrFree s → replace_cr s ≡ s
unfolding replace_cr
replace_cr-eq_self [] h = refl
replace_cr-eq_self (c ∷ s) h = ground (arith, replace_cr-eq_self s h.1, h.0)

pub IsLine-CrFree : (l : Text) → IsLine l → CrFree l
IsLine-CrFree [] h = tt
IsLine-CrFree (c ∷ l) h = (ground arith, IsLine-CrFree l h.1)

pub join_lf-CrFree : (ls : List Text) → All IsLine ls → CrFree (join_lf ls)
unfolding join_lf
join_lf-CrFree [] h = tt
join_lf-CrFree (l ∷ []) h = IsLine-CrFree l h.0
join_lf-CrFree (l ∷ m ∷ ls) h =
    All-append (λ c. (c == cr) ≡ false) l (lf ∷ join_lf (m ∷ ls)) (IsLine-CrFree l h.0)
      (refl, join_lf-CrFree (m ∷ ls) h.1)

push_head-IsLine :
    (c : ℕ) (ls : List Text)
    → (c == cr || c == lf) ≡ false
    → All IsLine ls
    → All IsLine (push_head c ls)
push_head-IsLine c [] e h = ((e, tt), tt)
push_head-IsLine c (l ∷ ls) e h = ((e, h.0), h.1)

-- What a text without carriage returns is split into has no line ends.
pub split_lf-AllIsLine : (s : Text) → CrFree s → All IsLine (split_lf s)
split_lf-AllIsLine [] h = unfold split_lf in (tt, tt)
split_lf-AllIsLine (c ∷ s) h = elim (Bool-cases (c == lf)) [
  | inl ends ↦ rw (split_lf-lf c s ends) (tt, split_lf-AllIsLine s h.1)
  | inr inside ↦
      rw (split_lf_inside c s inside)
        (push_head-IsLine c (split_lf s) (ground (arith, h.0)) (split_lf-AllIsLine s h.1))
]
