-- ===== src/Allowlist/Block.antt =====
-- SpliceBlock and ExtractBlock together.
use proxmox_dns_firewall_loc.Prelude.{
  ℕ, ◌+◌, ◌-◌, ◌<◌, List, [], ◌∷◌, ◌++◌, map, none, some, Option-cases, inl, inr, ◌≡◌, refl, sym,
  ap, ◌∙◌, arith, length, length-append, take, drop, All, All-append, All-take, All-drop,
  append_assoc, drop-length_append, take-length_append,
}
use proxmox_dns_firewall_loc.Text.{Text, text_run, codes, trim_right, lf}
use proxmox_dns_firewall_loc.Text.Trim.{trim_right-append}
use proxmox_dns_firewall_loc.Text.Lines.{
  IsLine, unlines, split_unified, split_unified-append, split_unified-line, split_unified-unlines,
}
use proxmox_dns_firewall_loc.Allowlist.{
  begin_marker, end_marker, Found, trim_trailing_eol, split_lines, find_markers, block_bounds,
  found_in, inner_at, extract_block, build_block, is_lf, appended, splice_at, splice_block,
}
use proxmox_dns_firewall_loc.Allowlist.Markers.{
  NotMarker, find_markers_block, find_markers-NotMarker-drop,
}
use proxmox_dns_firewall_loc.Allowlist.BlockLines.{
  IsInner, All-left, All-right, map-trim_trailing_eol, split_unified-build_block, drop_blank_end,
  push_line, split_unified_nil, tail_lines, split_lines-IsLine,
}

build_block_snoc : (ls : List Text) → (x : Text) × (build_block ls ≡ x ++ b'D' ∷ [])
unfolding build_block
build_block_snoc ls =
    let inner = unlines (map trim_trailing_eol ls) in
    (
      begin_marker ++ lf ∷ (inner ++ codes "PROXMOX_DNS_LOCKDOWN_EN"),
      ap (λ t. begin_marker ++ lf ∷ t)
          (sym (append_assoc inner (codes "PROXMOX_DNS_LOCKDOWN_EN") (b'D' ∷ []))),
    )

-- The final trim does not reach the block.
trim_right-block :
    (a x t : Text)
    → trim_right is_lf (a ++ ((x ++ b'D' ∷ []) ++ lf ∷ t)) ++ lf ∷ []
      ≡ a ++ ((x ++ b'D' ∷ []) ++ (trim_right is_lf (lf ∷ t) ++ lf ∷ []))
trim_right-block a x t =
    let e : a ++ ((x ++ b'D' ∷ []) ++ lf ∷ t) ≡ (a ++ x) ++ b'D' ∷ lf ∷ t = simp append_assoc in
    rw (e, trim_right-append is_lf (a ++ x) b'D' (lf ∷ t) refl) (simp append_assoc)

splice_text :
    (ls after : List Text) (a : Text)
    → trim_right is_lf (a ++ (build_block ls ++ lf ∷ unlines after)) ++ lf ∷ []
      ≡ a ++ (build_block ls ++ (trim_right is_lf (lf ∷ unlines after) ++ lf ∷ []))
splice_text ls after a =
    let (x, e) = build_block_snoc ls in rw e (trim_right-block a x (unlines after))

split_lines_ne :
    (a : Text) (c : ℕ) (s : Text) → split_lines (a ++ c ∷ s) ≡ split_unified (a ++ c ∷ s)
unfolding split_lines
split_lines_ne [] c s = refl
split_lines_ne (d ∷ a) c s = refl

split_lines-block :
    (a : Text) (ls : List Text) (u : Text)
    → split_lines (a ++ (build_block ls ++ lf ∷ u))
      ≡ split_unified (a ++ (build_block ls ++ lf ∷ u))
unfolding build_block
split_lines-block a ls u = split_lines_ne a _ _

splice_block_lem :
    (d : Text) (ls : List Text)
    → splice_block d ls ≡ splice_at d (split_lines d) (build_block ls) (found_in (split_lines d))
unfolding splice_block
splice_block_lem d ls = refl

splice_at-some :
    (d : Text) (lines : List Text) (block : Text) (b e : ℕ)
    → splice_at d lines block (some (b, e))
      ≡ trim_right is_lf (unlines (take b lines) ++ (block ++ lf ∷ unlines (drop (e + 1) lines)))
        ++ lf ∷ []
unfolding splice_at
splice_at-some d lines block b e = refl

-- Where the description has a block, its place, the lines before it and the lines behind it stay
-- (but for empty lines at the very end), and the block holds the new lines.
pub split_lines-splice_block :
    (d : Text) (ls : List Text) (b e : ℕ)
    → found_in (split_lines d) ≡ some (b, e)
    → All IsLine ls
    → split_lines (splice_block d ls)
      ≡ take b (split_lines d)
        ++ begin_marker
          ∷ (ls ++ end_marker ∷ (drop_blank_end (drop (e + 1) (split_lines d)) ++ [] ∷ []))
split_lines-splice_block d ls b e found h =
    let lines = split_lines d in
    let before = take b lines in
    let after = drop (e + 1) lines in
    let block = build_block ls in
    let lines-IsLine = split_lines-IsLine d in
    let (u, tail, rest) = tail_lines after (All-drop IsLine (e + 1) lines lines-IsLine) in
    let text : splice_block d ls ≡ unlines before ++ (block ++ lf ∷ u) =
      splice_block_lem d ls
      ∙ ap (splice_at d lines block) found
      ∙ splice_at-some d lines block b e
      ∙ splice_text ls after (unlines before)
      ∙ ap (λ (t : Text). unlines before ++ (block ++ t)) tail in
    ap split_lines text
    ∙ split_lines-block (unlines before) ls u
    ∙ split_unified-unlines before (block ++ lf ∷ u) (All-take IsLine b lines lines-IsLine)
    ∙ ap (◌++◌ before) (
        split_unified-build_block ls u h
        ∙ ap (λ (t : List Text). begin_marker ∷ (ls ++ end_marker ∷ t)) rest)

appended_lines :
    (t : Text) (ls : List Text)
    → All IsLine ls
    → (pre : List Text) × (split_lines (appended t (build_block ls))
        ≡ pre ++ begin_marker ∷ (ls ++ end_marker ∷ [] ∷ []))
unfolding appended
appended_lines [] ls h = (
  [],
  split_lines-block [] ls []
      ∙ split_unified-build_block ls [] h
      ∙ ap (λ (t : List Text). begin_marker ∷ (ls ++ end_marker ∷ t)) split_unified_nil,
)
appended_lines (c ∷ t) ls h =
    let block = build_block ls ++ lf ∷ [] in
    let (pre, e) = split_unified-append (c ∷ t) (lf ∷ block) in
    (
      pre ++ [] ∷ [],
      split_lines_ne [] c (t ++ lf ∷ lf ∷ block)
          ∙ e
          ∙ ap (◌++◌ pre) (
              split_unified-line [] block tt
              ∙ ap (◌∷◌ []) (
                  split_unified-build_block ls [] h
                  ∙ ap (λ (t : List Text). begin_marker ∷ (ls ++ end_marker ∷ t))
                      split_unified_nil))
          ∙ sym (append_assoc pre ([] ∷ []) (begin_marker ∷ (ls ++ end_marker ∷ [] ∷ []))),
    )

splice_at-none :
    (d : Text) (lines : List Text) (block : Text)
    → splice_at d lines block none ≡ appended (trim_right is_lf d) block
unfolding splice_at
splice_at-none d lines block = refl

block_bounds-lt :
    (f : Found) (b e : ℕ) → block_bounds f ≡ some (b, e) → (f ≡ (some b, some e)) × (b < e)
unfolding block_bounds
block_bounds-lt (none, y) b e h = cc
block_bounds-lt (some x, none) b e h = cc
block_bounds-lt (some x, some y) b e h = ground arith

All-drop_blank_end : (P : Text → Type 0) (ls : List Text) → All P ls → All P (drop_blank_end ls)
unfolding drop_blank_end
All-drop_blank_end P [] h = tt
All-drop_blank_end P (l ∷ ls) h = push P l (drop_blank_end ls) h.0 (All-drop_blank_end P ls h.1)
  where
    push : (P : Text → Type 0) (l : Text) (ms : List Text) → P l → All P ms → All P (push_line l ms)
    push P l (m ∷ ms) hl hm = (hl, hm)
    push P [] [] hl hm = tt
    push P (c ∷ l) [] hl hm = (hl, tt)

nil-NotMarker : NotMarker []
nil-NotMarker = unfold text_run in (refl, refl)

-- After a splice the block stands in the lines, and no marker stands behind it.
spliced :
    (d : Text) (ls : List Text)
    → All IsLine ls
    → (pre post : List Text) × (split_lines (splice_block d ls)
        ≡ pre ++ begin_marker ∷ (ls ++ end_marker ∷ post))
      × All NotMarker post
spliced d ls h = elim (Option-cases (found_in (split_lines d))) [
  | inl absent ↦
      let (pre, e) = appended_lines (trim_right is_lf d) ls h in
      (
        pre,
        [] ∷ [],
        ap split_lines (
              splice_block_lem d ls
              ∙ ap (splice_at d (split_lines d) (build_block ls)) absent
              ∙ splice_at-none d (split_lines d) (build_block ls))
            ∙ e,
        (nil-NotMarker, tt),
      )
  | inr ((b, e), found) ↦
      let lines = split_lines d in
      let (at, lt) = block_bounds-lt (find_markers 0 (none, none) lines) b e found in
      let after = drop (e + 1) lines in
      let same : e + 1 - 0 ≡ e + 1 = omega arith in
      (
        take b lines,
        drop_blank_end after ++ [] ∷ [],
        split_lines-splice_block d ls b e found h,
        All-append NotMarker (drop_blank_end after) ([] ∷ [])
            (All-drop_blank_end NotMarker after
              (rw same at (find_markers-NotMarker-drop 0 (none, none) lines at lt (omega arith))))
            (nil-NotMarker, tt),
      )
]

extract_block_lem :
    (d : Text) → extract_block d ≡ inner_at (split_lines d) (found_in (split_lines d))
unfolding extract_block
extract_block_lem d = refl

inner_at_block :
    (pre ls post : List Text)
    → All IsLine ls
    → inner_at
        (pre ++ begin_marker ∷ (ls ++ end_marker ∷ post))
        (some (length pre, length pre + 1 + length ls))
      ≡ some ls
unfolding inner_at
inner_at_block pre ls post h =
    let p = length pre in
    let rest = ls ++ end_marker ∷ post in
    let taken : p + 1 + length ls - (p + 1) ≡ length ls = omega arith in
    let at : p + 1 ≡ length (pre ++ begin_marker ∷ []) =
      omega (arith, length-append pre (begin_marker ∷ [])) in
    let dropped : drop (p + 1) (pre ++ begin_marker ∷ rest) ≡ rest =
      rw (at, ← append_assoc pre (begin_marker ∷ []) rest)
        (drop-length_append (pre ++ begin_marker ∷ []) rest) in
    ap some
      (rw (taken, dropped, take-length_append ls (end_marker ∷ post)) (map-trim_trailing_eol ls h))

block_bounds_inner : (p n : ℕ) → block_bounds (some p, some (p + 1 + n)) ≡ some (p, p + 1 + n)
unfolding block_bounds
block_bounds_inner p n = ground arith

-- Whatever the description was, the lines that are written into the block are the lines that are
-- read back from it, provided that each is one line and none is a marker.
pub extract_block-splice_block :
    (description : Text) (inner_lines : List Text)
    → All IsInner inner_lines
    → extract_block (splice_block description inner_lines) ≡ some inner_lines
extract_block-splice_block d ls h =
    let is_line = All-left ls h in
    let (pre, post, e, clear) = spliced d ls is_line in
    extract_block_lem (splice_block d ls)
    ∙ rw
        (
          e,
          find_markers_block pre ls post (All-right ls h) clear,
          block_bounds_inner (length pre) (length ls),
        )
        (inner_at_block pre ls post is_line)
