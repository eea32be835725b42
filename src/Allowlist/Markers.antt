-- ===== src/Allowlist/Markers.antt =====
-- The loop of ExtractBlock and SpliceBlock that looks for the last marker of each kind.
use proxmox_dns_firewall_loc.Prelude.{
  ℕ, zero, suc, ◌+◌, ◌-◌, ◌≤◌, ◌<◌, false, List, [], ◌∷◌, ◌++◌, Option, none, some, Bool-cases, inl,
  inr, ◌≡◌, ◌⊎◌, refl, sym, ap, subst, ◌∙◌, arith, length, drop, All,
}
use native.Mathlib.Decide.{dec_lt}
use proxmox_dns_firewall_loc.Text.{Text, text_run, text_eq, trim_space}
use proxmox_dns_firewall_loc.Allowlist.{begin_marker, end_marker, Found, mark_line, find_markers}

-- A line that is no marker, spaces around it aside.
abbrev pub NotMarker : Text → Type 0
NotMarker line =
    (text_eq (trim_space line) begin_marker ≡ false)
    × (text_eq (trim_space line) end_marker ≡ false)

mark_line-cases :
    (i : ℕ) (x : Text) (b e : Option ℕ)
    → (mark_line i x (b, e) ≡ (some i, e))
      ⊎ ((mark_line i x (b, e) ≡ (b, some i)) ⊎ ((mark_line i x (b, e) ≡ (b, e)) × NotMarker x))
unfolding mark_line
mark_line-cases i x b e = elim (Bool-cases (text_eq (trim_space x) begin_marker)) [
  | inl is_begin ↦ inl (rw is_begin)
  | inr nb ↦ elim (Bool-cases (text_eq (trim_space x) end_marker)) [
    | inl is_end ↦ inr (inl (rw (nb, is_end)))
    | inr ne ↦ inr (inr (rw (nb, ne), (nb, ne)))
  ]
]

find_markers_cons :
    (i : ℕ) (f : Found) (x : Text) (xs : List Text)
    → find_markers i f (x ∷ xs) ≡ find_markers (i + 1) (mark_line i x f) xs
unfolding find_markers
find_markers_cons i f x xs = refl

mark_line-begin_marker : (i : ℕ) (f : Found) → mark_line i begin_marker f ≡ (some i, f.1)
unfolding mark_line text_run
mark_line-begin_marker i f = refl

mark_line-end_marker : (i : ℕ) (f : Found) → mark_line i end_marker f ≡ (f.0, some i)
unfolding mark_line text_run
mark_line-end_marker i f = refl

pub find_markers-append :
    (i : ℕ) (f : Found) (xs ys : List Text)
    → find_markers i f (xs ++ ys) ≡ find_markers (i + length xs) (find_markers i f xs) ys
unfolding find_markers
find_markers-append i f [] ys = rw (let e : i + 0 ≡ i = omega arith in e)
find_markers-append i f (x ∷ xs) ys =
    let e : i + suc (length xs) ≡ (i + 1) + length xs = omega arith in
    rw e (find_markers-append (i + 1) (mark_line i x f) xs ys)

pub find_markers-NotMarker :
    (i : ℕ) (f : Found) (xs : List Text) → All NotMarker xs → find_markers i f xs ≡ f
unfolding find_markers mark_line
find_markers-NotMarker i f [] h = refl
find_markers-NotMarker i (b, e) (x ∷ xs) ((nb, ne), h) =
    rw (nb, ne) (find_markers-NotMarker (i + 1) (b, e) xs h)

-- Lines with one block in them, and no marker inside or behind it.
pub find_markers_block :
    (pre inner post : List Text)
    → All NotMarker inner
    → All NotMarker post
    → find_markers 0 (none, none) (pre ++ begin_marker ∷ (inner ++ end_marker ∷ post))
      ≡ (some (length pre), some (length pre + 1 + length inner))
find_markers_block pre inner post hi hp =
    let tail = inner ++ end_marker ∷ post in
    let n : ℕ = 0 + length pre in
    let en : n ≡ length pre = omega arith in
    let f = find_markers 0 (none, none) pre in
    let g : Found = (some n, f.1) in
    let m : ℕ = n + 1 + length inner in
    find_markers-append 0 (none, none) pre (begin_marker ∷ tail)
    ∙ find_markers_cons n f begin_marker tail
    ∙ ap (λ (q : Found). find_markers (n + 1) q tail) (mark_line-begin_marker n f)
    ∙ find_markers-append (n + 1) g inner (end_marker ∷ post)
    ∙ ap (λ (q : Found). find_markers m q (end_marker ∷ post))
        (find_markers-NotMarker (n + 1) g inner hi)
    ∙ find_markers_cons m g end_marker post
    ∙ ap (λ (q : Found). find_markers (m + 1) q post) (mark_line-end_marker m g)
    ∙ find_markers-NotMarker (m + 1) (some n, some m) post hp
    ∙ ap (λ (k : ℕ). (some k, some (k + 1 + length inner))) en

abbrev Above : ℕ → Option ℕ → Type 0
Above j none = ⊥
Above j (some k) = j ≤ k

find_markers-Above :
    (j i : ℕ) (b e : Option ℕ) (xs : List Text)
    → j ≤ i
    → (Above j b → Above j (find_markers i (b, e) xs).0)
      × (Above j e → Above j (find_markers i (b, e) xs).1)
unfolding find_markers
find_markers-Above j i b e [] h = (λ k. k, λ k. k)
find_markers-Above j i b e (x ∷ xs) h = elim (mark_line-cases i x b e) [
  | inl eq ↦
      let (f, g) = find_markers-Above j (i + 1) (some i) e xs (omega arith) in
      subst Kept (sym eq) (λ _. f h, g)
  | inr (inl eq) ↦
      let (f, g) = find_markers-Above j (i + 1) b (some i) xs (omega arith) in
      subst Kept (sym eq) (f, λ _. g h)
  | inr (inr (eq, _)) ↦ subst Kept (sym eq) (find_markers-Above j (i + 1) b e xs (omega arith))
]
  where
    Kept : Found → Type 0
    Kept q =
        (Above j b → Above j (find_markers (i + 1) q xs).0)
        × (Above j e → Above j (find_markers (i + 1) q xs).1)

-- Behind the last marker of each kind there is none.
find_markers_after :
    (i : ℕ) (b e : Option ℕ) (xs : List Text) {b' e' : ℕ}
    → find_markers i (b, e) xs ≡ (some b', some e')
    → b' < i
    → e' < i
    → All NotMarker xs
find_markers_after i b e [] h lb le = tt
find_markers_after i b e (x ∷ xs) {b'} {e'} h lb le = elim (mark_line-cases i x b e) [
  | inl eq ↦
      let above = (find_markers-Above i (i + 1) (some i) e xs (omega arith)).0 le_self in
      let last : (find_markers (i + 1) (some i, e) xs) ≡ (some b', some e') = rw eq at (step h) in
      absurd (not_above b' lb (rw last at above))
  | inr (inl eq) ↦
      let above = (find_markers-Above i (i + 1) b (some i) xs (omega arith)).1 le_self in
      let last : (find_markers (i + 1) (b, some i) xs) ≡ (some b', some e') = rw eq at (step h) in
      absurd (not_above e' le (rw last at above))
  | inr (inr (eq, clear)) ↦
      (clear, find_markers_after (i + 1) b e xs (rw eq at (step h)) (omega arith) (omega arith))
]
  where
    step :
        find_markers i (b, e) (x ∷ xs) ≡ (some b', some e')
        → find_markers (i + 1) (mark_line i x (b, e)) xs ≡ (some b', some e')
    step k = sym (find_markers_cons i (b, e) x xs) ∙ k

    le_self : i ≤ i
    le_self = omega arith

    not_above : (k : ℕ) → k < i → i ≤ k → ⊥
    not_above k p q = omega arith

drop_nil : (n : ℕ) → drop {A = Text} n [] ≡ []
drop_nil zero = refl
drop_nil (suc n) = refl

pub find_markers-NotMarker-drop :
    (i : ℕ) (f : Found) (xs : List Text) {b e : ℕ}
    → find_markers i f xs ≡ (some b, some e)
    → b < e
    → i ≤ e
    → All NotMarker (drop (e + 1 - i) xs)
find_markers-NotMarker-drop i f [] h lt le = rw drop_nil tt
find_markers-NotMarker-drop i f (x ∷ xs) {b} {e} h lt le =
    let h' = sym (find_markers_cons i f x xs) ∙ h in
    elim (dec_lt i e) [
      | yes more ↦
          let k : e + 1 - i ≡ suc (e + 1 - (i + 1)) = omega arith in
          rw k (find_markers-NotMarker-drop (i + 1) (mark_line i x f) xs h' lt (omega arith))
      | no stop ↦
          let k : e + 1 - i ≡ 1 = omega arith in
          let g = mark_line i x f in
          rw k (find_markers_after (i + 1) g.0 g.1 xs h' (omega arith) (omega arith))
    ]
