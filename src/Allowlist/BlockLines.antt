-- ===== src/Allowlist/BlockLines.antt =====
-- The lines of a block and of the text behind it, as SpliceBlock puts them together.
use proxmox_dns_firewall_loc.Prelude.{
  ℕ, false, ◌||◌, List, [], ◌∷◌, ◌++◌, map, ◌==◌, Bool-cases, inl, inr, ◌≡◌, ◌⊎◌, refl, ap, ◌∙◌,
  arith, All, any, append_assoc,
}
use proxmox_dns_firewall_loc.Text.{
  Text, text_run, trim_right, push_kept, lf, cr, replace_crlf, replace_cr, split_lf, push_head,
}
use proxmox_dns_firewall_loc.Text.Trim.{is_eol}
use proxmox_dns_firewall_loc.Text.Lines.{
  IsLine, unlines, split_unified, split_unified-line, split_unified-unlines,
}
use proxmox_dns_firewall_loc.Allowlist.{
  begin_marker, end_marker, trim_trailing_eol, split_lines, build_block, is_lf,
}
use proxmox_dns_firewall_loc.Allowlist.Markers.{NotMarker}

-- A line that the editor may put in the block: one line, and no marker.
abbrev pub IsInner : Text → Type 0
IsInner l = IsLine l × NotMarker l

push_kept-eol : (c : ℕ) (l : Text) → (c == cr || c == lf) ≡ false → push_kept is_eol c l ≡ c ∷ l
unfolding is_eol
push_kept-eol c [] h = ground arith
push_kept-eol c (d ∷ l) h = refl

trim_right-IsLine : (l : Text) → IsLine l → trim_right is_eol l ≡ l
unfolding trim_right is_eol
trim_right-IsLine [] h = refl
trim_right-IsLine (c ∷ l) h = ground (arith, trim_right-IsLine l h.1, push_kept-eol c l h.0)

pub map-trim_trailing_eol : (ls : List Text) → All IsLine ls → map trim_trailing_eol ls ≡ ls
unfolding trim_trailing_eol
map-trim_trailing_eol [] h = refl
map-trim_trailing_eol (l ∷ ls) h = rw (trim_right-IsLine l h.0, map-trim_trailing_eol ls h.1)

pub All-left : (ls : List Text) → All IsInner ls → All IsLine ls
All-left [] h = tt
All-left (l ∷ ls) h = (h.0.0, All-left ls h.1)

pub All-right : (ls : List Text) → All IsInner ls → All NotMarker ls
All-right [] h = tt
All-right (l ∷ ls) h = (h.0.1, All-right ls h.1)

pub IsLine-of_any : (l : Text) → any (λ c. c == cr || c == lf) l ≡ false → IsLine l
IsLine-of_any [] h = tt
IsLine-of_any (c ∷ l) h = (ground arith, IsLine-of_any l (ground arith))

begin_marker-IsLine : IsLine begin_marker
begin_marker-IsLine = IsLine-of_any begin_marker refl

end_marker-IsLine : IsLine end_marker
end_marker-IsLine = IsLine-of_any end_marker refl

pub split_unified-build_block :
    (ls : List Text) (y : Text)
    → All IsLine ls
    → split_unified (build_block ls ++ lf ∷ y) ≡ begin_marker ∷ (ls ++ end_marker ∷ split_unified y)
unfolding build_block
split_unified-build_block ls y h =
    rw (map-trim_trailing_eol ls h, append_assoc (unlines ls) end_marker (lf ∷ y))
      (split_unified-line begin_marker (unlines ls ++ (end_marker ++ lf ∷ y)) begin_marker-IsLine
        ∙ ap (◌∷◌ begin_marker) (
            split_unified-unlines ls (end_marker ++ lf ∷ y) h
            ∙ ap (◌++◌ ls) (split_unified-line end_marker y end_marker-IsLine)))

-- the lines without those at the end that are empty
abbrev pub push_line : Text → List Text → List Text
push_line l (m ∷ ms) = l ∷ m ∷ ms
push_line [] [] = []
push_line (c ∷ l) [] = (c ∷ l) ∷ []

unfoldable pub drop_blank_end : List Text → List Text
drop_blank_end [] = []
drop_blank_end (l ∷ ls) = push_line l (drop_blank_end ls)

abbrev after_line : Text → Text → Text
after_line l [] = l
after_line l (d ∷ r) = l ++ lf ∷ d ∷ r

push_kept-after_line :
    (c : ℕ) (l r : Text)
    → (c == lf) ≡ false
    → push_kept is_lf c (after_line l r) ≡ after_line (c ∷ l) r
push_kept-after_line c [] [] h = rw h
push_kept-after_line c (d ∷ l) [] h = refl
push_kept-after_line c [] (e ∷ r) h = refl
push_kept-after_line c (d ∷ l) (e ∷ r) h = refl

push_kept-lf : (r : Text) → push_kept is_lf lf r ≡ after_line [] r
push_kept-lf [] = refl
push_kept-lf (d ∷ r) = refl

trim_right-line :
    (l t : Text) → IsLine l → trim_right is_lf (l ++ lf ∷ t) ≡ after_line l (trim_right is_lf t)
unfolding trim_right
trim_right-line [] t h = push_kept-lf (trim_right is_lf t)
trim_right-line (c ∷ l) t h =
    rw (trim_right-line l t h.1) (push_kept-after_line c l (trim_right is_lf t) (ground arith))

-- What trimming leaves of whole lines: nothing, or the lines up to the last that is not empty.
abbrev Trimmed : Text → List Text → Type 0
Trimmed t kept =
    ((t ≡ []) × (kept ≡ []))
    ⊎ ((d : ℕ) × (r : Text) × (t ≡ d ∷ r)
        × (split_unified (d ∷ (r ++ lf ∷ [])) ≡ kept ++ [] ∷ [])
        × (m : Text) × (ms : List Text) × (kept ≡ m ∷ ms))

pub split_unified_nil : split_unified [] ≡ [] ∷ []
unfolding split_unified text_run
split_unified_nil = refl

Trimmed-cons_blank : (l : Text) → IsLine l → Trimmed (after_line l []) (push_line l [])
Trimmed-cons_blank [] h = inl (refl, refl)
Trimmed-cons_blank (c ∷ l) h = inr (
  c,
  l,
  refl,
  split_unified-line (c ∷ l) [] h ∙ ap (◌∷◌ (c ∷ l)) split_unified_nil,
  c ∷ l,
  [],
  refl,
)

Trimmed-cons_text :
    (l : Text) (d : ℕ) (r m : Text) (ms : List Text)
    → IsLine l
    → split_unified (d ∷ (r ++ lf ∷ [])) ≡ (m ∷ ms) ++ [] ∷ []
    → Trimmed (l ++ lf ∷ d ∷ r) (l ∷ m ∷ ms)
Trimmed-cons_text [] d r m ms h e = inr (
  lf,
  d ∷ r,
  refl,
  split_unified-line [] (d ∷ (r ++ lf ∷ [])) tt ∙ ap (◌∷◌ []) e,
  [],
  m ∷ ms,
  refl,
)
Trimmed-cons_text (c ∷ l) d r m ms h e = inr (
  c,
  l ++ lf ∷ d ∷ r,
  refl,
  rw (append_assoc l (lf ∷ d ∷ r) (lf ∷ []))
      (split_unified-line (c ∷ l) (d ∷ (r ++ lf ∷ [])) h ∙ ap (◌∷◌ (c ∷ l)) e),
  c ∷ l,
  m ∷ ms,
  refl,
)

Trimmed-cons :
    (l t : Text) (kept : List Text)
    → IsLine l
    → Trimmed t kept
    → Trimmed (after_line l t) (push_line l kept)
Trimmed-cons l t kept h (inl (e, f)) = rw (e, f) (Trimmed-cons_blank l h)
Trimmed-cons l t kept h (inr (d, r, e, g, m, ms, f)) =
    rw (e, f) (Trimmed-cons_text l d r m ms h (g ∙ ap (λ (k : List Text). k ++ [] ∷ []) f))

Trimmed-unlines :
    (ls : List Text) → All IsLine ls → Trimmed (trim_right is_lf (unlines ls)) (drop_blank_end ls)
unfolding unlines drop_blank_end
Trimmed-unlines [] h = inl (unfold trim_right in refl, refl)
Trimmed-unlines (l ∷ ls) h = rw (trim_right-line l (unlines ls) h.0) (
    Trimmed-cons l (trim_right is_lf (unlines ls)) (drop_blank_end ls) h.0 (Trimmed-unlines ls h.1))

tail_of :
    (t : Text) (kept : List Text)
    → Trimmed t kept
    → (u : Text) × (push_kept is_lf lf t ++ lf ∷ [] ≡ lf ∷ u) × (split_unified u ≡ kept ++ [] ∷ [])
tail_of t kept (inl (e, f)) = ([], rw e, rw f split_unified_nil)
tail_of t kept (inr (d, r, e, g, m, ms, f)) = (d ∷ (r ++ lf ∷ []), rw e, g)

-- The end of a spliced description, behind the end marker.
pub tail_lines :
    (ls : List Text)
    → All IsLine ls
    → (u : Text) × (trim_right is_lf (lf ∷ unlines ls) ++ lf ∷ [] ≡ lf ∷ u)
      × (split_unified u ≡ drop_blank_end ls ++ [] ∷ [])
unfolding trim_right
tail_lines ls h = tail_of (trim_right is_lf (unlines ls)) (drop_blank_end ls) (Trimmed-unlines ls h)

replace_cr-All : (s : Text) → All (λ c. (c == cr) ≡ false) (replace_cr s)
unfolding replace_cr
replace_cr-All [] = tt
replace_cr-All (c ∷ s) = (ground arith, replace_cr-All s)

push_head-IsLine :
    (c : ℕ) (ls : List Text)
    → (c == cr || c == lf) ≡ false
    → All IsLine ls
    → All IsLine (push_head c ls)
push_head-IsLine c [] h k = ((h, tt), tt)
push_head-IsLine c (l ∷ ls) h k = ((h, k.0), k.1)

split_lf-IsLine : (s : Text) → All (λ c. (c == cr) ≡ false) s → All IsLine (split_lf s)
unfolding split_lf
split_lf-IsLine [] h = (tt, tt)
split_lf-IsLine (c ∷ s) h = elim (Bool-cases (c == lf)) [
  | inl ends ↦ rw ends (tt, split_lf-IsLine s h.1)
  | inr inside ↦
      rw inside (push_head-IsLine c (split_lf s) (ground (arith, h.0)) (split_lf-IsLine s h.1))
]

-- No line of a description holds a line end.
pub split_lines-IsLine : (d : Text) → All IsLine (split_lines d)
unfolding split_lines split_unified
split_lines-IsLine [] = tt
split_lines-IsLine (c ∷ s) =
    split_lf-IsLine (replace_cr (replace_crlf (c ∷ s))) (replace_cr-All (replace_crlf (c ∷ s)))
