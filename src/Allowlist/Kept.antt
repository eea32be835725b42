-- ===== src/Allowlist/Kept.antt =====
-- Where the lines of a block and of the merged list have no line ends.
use proxmox_dns_firewall_loc.Prelude.{
  ℕ, ◌+◌, ◌-◌, Bool, false, ◌||◌, List, [], ◌∷◌, Option, none, some, ◌==◌, Bool-cases, inl, inr,
  ◌≡◌, refl, arith, All, All-append, All-take, All-drop, map, take, drop, subst,
}
use proxmox_dns_firewall_loc.Text.{
  Text, codes, text_eq, is_space, to_lower, to_lower_rune, trim_left, trim_right, trim_space,
  trim_suffix, push_kept, contains, cr, lf, replace_cr, replace_crlf,
}
use proxmox_dns_firewall_loc.Text.Trim.{is_eol}
use proxmox_dns_firewall_loc.Text.Order.{All-sort_texts}
use proxmox_dns_firewall_loc.Text.Lines.{
  IsLine, split_unified, replace_cr-CrFree, split_lf-AllIsLine,
}
use proxmox_dns_firewall_loc.Allowlist.{
  normalize, split_lines, trim_trailing_eol, inner_at, extract_block, found_in, already_listed,
  Merged, add_line, add_lines, suggestion, suggest, suggest_all, nothing_merged,
  merge_suggested_lines,
}

-- a property of characters, through the operations on texts
module _ (P : ℕ → Type 0) where
  All-push_kept : (p : ℕ → Bool) (c : ℕ) (s : Text) → P c → All P s → All P (push_kept p c s)
  All-push_kept p c [] h k = elim (Bool-cases (p c)) [ inl e ↦ rw e tt | inr e ↦ rw e (h, tt) ]
  All-push_kept p c (d ∷ s) h k = (h, k)

  pub All-trim_right : (p : ℕ → Bool) (s : Text) → All P s → All P (trim_right p s)
  unfolding trim_right
  All-trim_right p [] h = tt
  All-trim_right p (c ∷ s) h = All-push_kept p c (trim_right p s) h.0 (All-trim_right p s h.1)

  pub All-trim_left : (p : ℕ → Bool) (s : Text) → All P s → All P (trim_left p s)
  unfolding trim_left
  All-trim_left p [] h = tt
  All-trim_left p (c ∷ s) h = elim (Bool-cases (p c)) [
    | inl e ↦ rw e (All-trim_left p s h.1)
    | inr e ↦ rw e h
  ]

  All-trim_suffix : (x : ℕ) (s : Text) → All P s → All P (trim_suffix x s)
  unfolding trim_suffix
  All-trim_suffix x [] h = tt
  All-trim_suffix x (d ∷ []) h = elim (Bool-cases (d == x)) [ inl e ↦ rw e tt | inr e ↦ rw e h ]
  All-trim_suffix x (d ∷ e ∷ s) h = (h.0, All-trim_suffix x (e ∷ s) h.1)

to_lower-IsLine : (s : Text) → IsLine s → IsLine (to_lower s)
unfolding to_lower to_lower_rune
to_lower-IsLine [] h = tt
to_lower-IsLine (c ∷ s) h = (ground (arith, h.0), to_lower-IsLine s h.1)

abbrev NoEol : ℕ → Type 0
NoEol c = (c == cr || c == lf) ≡ false

normalize-IsLine : (n : Text) → IsLine n → IsLine (normalize n)
unfolding normalize trim_space
normalize-IsLine n h =
    All-trim_suffix NoEol b'.' (trim_right is_space (trim_left is_space (to_lower n))) (
      All-trim_right NoEol is_space (trim_left is_space (to_lower n))
        (All-trim_left NoEol is_space (to_lower n) (to_lower-IsLine n h)))

suggestion-IsLine : (n : Text) → IsLine n → IsLine (suggestion n)
suggestion-IsLine n h = (refl, (refl, All-append NoEol n (codes ".") h (refl, tt)))

add_line-AllIsLine :
    (m : Merged) (l : Text) → All IsLine m.out → IsLine l → All IsLine (add_line m l).out
unfolding add_line
add_line-AllIsLine m l h k = elim (Bool-cases (text_eq (trim_space l) [])) [
  | inl e ↦ rw e h
  | inr e ↦ elim (Bool-cases (contains m.seen (trim_space l))) [
    | inl old ↦ rw (e, old) h
    | inr new ↦
        rw (e, new)
          (All-append IsLine m.out (trim_right is_eol l ∷ []) h
            (All-trim_right NoEol is_eol l k, tt))
  ]
]

add_lines-AllIsLine :
    (ls : List Text) (m : Merged)
    → All IsLine m.out
    → All IsLine ls
    → All IsLine (add_lines m ls).out
unfolding add_lines
add_lines-AllIsLine [] m h k = h
add_lines-AllIsLine (l ∷ ls) m h k =
    add_lines-AllIsLine ls (add_line m l) (add_line-AllIsLine m l h k.0) k.1

suggest-AllIsLine :
    (inner : List Text) (m : Merged) (f : Text)
    → All IsLine m.out
    → IsLine f
    → All IsLine (suggest inner m f).out
unfolding suggest
suggest-AllIsLine inner m f h k = elim (Bool-cases (already_listed inner f)) [
  | inl old ↦ rw old h
  | inr new ↦ elim (Bool-cases (text_eq (normalize f) [])) [
    | inl empty ↦ rw (new, empty) h
    | inr full ↦
        rw (new, full)
          (add_line-AllIsLine m (suggestion (normalize f)) h
            (suggestion-IsLine (normalize f) (normalize-IsLine f k)))
  ]
]

suggest_all-AllIsLine :
    (inner : List Text) (fs : List Text) (m : Merged)
    → All IsLine m.out
    → All IsLine fs
    → All IsLine (suggest_all inner m fs).out
unfolding suggest_all
suggest_all-AllIsLine inner [] m h k = h
suggest_all-AllIsLine inner (f ∷ fs) m h k =
    suggest_all-AllIsLine inner fs (suggest inner m f) (suggest-AllIsLine inner m f h k.0) k.1

pub merge_suggested_lines-AllIsLine :
    (inner suggested : List Text)
    → All IsLine inner
    → All IsLine suggested
    → All IsLine (merge_suggested_lines inner suggested)
unfolding merge_suggested_lines
merge_suggested_lines-AllIsLine inner suggested h k =
    let m = add_lines nothing_merged inner in
    All-sort_texts IsLine (suggest_all inner m suggested).out
      (suggest_all-AllIsLine inner suggested m (add_lines-AllIsLine inner nothing_merged tt h) k)

split_lines-AllIsLine : (s : Text) → All IsLine (split_lines s)
unfolding split_lines split_unified
split_lines-AllIsLine [] = tt
split_lines-AllIsLine (c ∷ s) =
    split_lf-AllIsLine (replace_cr (replace_crlf (c ∷ s)))
      (replace_cr-CrFree (replace_crlf (c ∷ s)))

map-AllIsLine : (ls : List Text) → All IsLine ls → All IsLine (map trim_trailing_eol ls)
unfolding trim_trailing_eol
map-AllIsLine [] h = tt
map-AllIsLine (l ∷ ls) h = (All-trim_right NoEol is_eol l h.0, map-AllIsLine ls h.1)

inner_at-AllIsLine :
    (lines : List Text) (found : Option (ℕ × ℕ)) (inner : List Text)
    → All IsLine lines
    → inner_at lines found ≡ some inner
    → All IsLine inner
unfolding inner_at
inner_at-AllIsLine lines none inner h e = cc
inner_at-AllIsLine lines (some (b, e)) inner h k =
    let cut = take (e - (b + 1)) (drop (b + 1) lines) in
    let same : map trim_trailing_eol cut ≡ inner = cc in
    subst (All IsLine) same (
      map-AllIsLine cut
        (All-take IsLine (e - (b + 1)) (drop (b + 1) lines) (All-drop IsLine (b + 1) lines h)))

-- The lines of a block have no line ends.
pub extract_block-AllIsLine :
    (description : Text) (inner : List Text)
    → extract_block description ≡ some inner
    → All IsLine inner
unfolding extract_block
extract_block-AllIsLine description inner e =
    inner_at-AllIsLine (split_lines description) (found_in (split_lines description)) inner
      (split_lines-AllIsLine description) e
