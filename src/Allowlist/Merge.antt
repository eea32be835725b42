-- ===== src/Allowlist/Merge.antt =====
-- MergeSuggestedLines: what the merged text allows and lists, its order, and its independence of
-- the order in which the map of suggestions is walked.
mod Order
pub use Order.{merge_suggested_lines-perm}
use proxmox_dns_firewall_loc.Prelude.{
  ℕ, Bool, true, false, not, ◌&&◌, ◌||◌, List, [], ◌∷◌, ◌++◌, if◌then◌else◌, Bool-cases, inl, inr,
  ◌≡◌, ◌≢◌, refl, sym, ap, ◌∙◌, arith, any, any-append,
}
use proxmox_dns_firewall_loc.Text.{
  Text, text_eq, text_eq_iff, trim_space, trim_right, contains, add_name, contains-add_name,
  sort_texts,
}
use proxmox_dns_firewall_loc.Text.Trim.{is_eol, trim_space-trim_right}
use proxmox_dns_firewall_loc.Text.Order.{any-sort_texts, IsSorted, sort_texts-IsSorted}
use proxmox_dns_firewall_loc.Allowlist.{
  normalize, parse_allowed, parse_listed, listed_name, already_listed, Merged, add_line, add_lines,
  suggestion, suggest, suggest_all, nothing_merged, merge_suggested_lines,
}
use proxmox_dns_firewall_loc.Allowlist.Listing.{
  allows, lists, any_trimmed, contains-parse_allowed, contains-parse_listed, already_listed-lists,
  allows-suggestion, listed_name-suggestion, trim_space-suggestion,
}

-- `seen` holds the trimmed lines of `out`.
abbrev SeenIsOut : Merged → Type 0
SeenIsOut m = (k : Text) → contains m.seen k ≡ any_trimmed (λ t. text_eq t k) m.out

any_of_key :
    (q : Text → Bool) (k : Text) (out : List Text)
    → any_trimmed (λ t. text_eq t k) out ≡ true
    → q k ≡ true
    → any_trimmed q out ≡ true
any_of_key q k [] h hk = h
any_of_key q k (l ∷ out) h hk = elim (Bool-cases (text_eq (trim_space l) k)) [
  | inl same ↦ ground (arith, ap q ((text_eq_iff (trim_space l) k).0 same), hk)
  | inr other ↦ ground (arith, any_of_key q k out, h, other, hk)
]

abbrev appended_line : List Text → Text → List Text
appended_line out line = out ++ trim_right is_eol line ∷ []

any-appended_line :
    (q : Text → Bool) (out : List Text) (line : Text)
    → any_trimmed q (appended_line out line) ≡ (any_trimmed q out || q (trim_space line))
any-appended_line q out line = ground (
  arith,
  any-append (λ l. q (trim_space l)) out (trim_right is_eol line ∷ []),
  ap q (trim_space-trim_right line),
)

add_line-SeenIsOut : (m : Merged) (line : Text) → SeenIsOut m → SeenIsOut (add_line m line)
unfolding add_line
add_line-SeenIsOut m line inv k =
    let t = trim_space line in
    ground
      (arith, inv k, contains-add_name m.seen t k, any-appended_line (λ u. text_eq u k) m.out line)

-- A line is kept, or stands in `out` already, unless it is blank.
any-add_line :
    (q : Text → Bool) (m : Merged) (line : Text)
    → SeenIsOut m
    → q [] ≡ false
    → any_trimmed q (add_line m line).out ≡ (any_trimmed q m.out || q (trim_space line))
unfolding add_line
any-add_line q m line inv blank =
    let t = trim_space line in
    elim (Bool-cases (text_eq t [])) [
      | inl empty ↦ rw empty (ground (arith, blank, ap q ((text_eq_iff t []).0 empty)))
      | inr full ↦ elim (Bool-cases (contains m.seen t)) [
        | inl old ↦ rw (full, old) (ground (arith, inv t, any_of_key q t m.out))
        | inr new ↦ rw (full, new) (any-appended_line q m.out line)
      ]
    ]

add_lines-SeenIsOut : (ls : List Text) (m : Merged) → SeenIsOut m → SeenIsOut (add_lines m ls)
unfolding add_lines
add_lines-SeenIsOut [] m inv = inv
add_lines-SeenIsOut (l ∷ ls) m inv =
    add_lines-SeenIsOut ls (add_line m l) (add_line-SeenIsOut m l inv)

any-add_lines :
    (q : Text → Bool) (ls : List Text) (m : Merged)
    → SeenIsOut m
    → q [] ≡ false
    → any_trimmed q (add_lines m ls).out ≡ (any_trimmed q m.out || any_trimmed q ls)
unfolding add_lines
any-add_lines q [] m inv blank = ground arith
any-add_lines q (l ∷ ls) m inv blank = ground (
  arith,
  any-add_line q m l inv blank,
  any-add_lines q ls (add_line m l) (add_line-SeenIsOut m l inv) blank,
)

suggest-SeenIsOut :
    (inner : List Text) (m : Merged) (f : Text) → SeenIsOut m → SeenIsOut (suggest inner m f)
unfolding suggest
suggest-SeenIsOut inner m f inv = elim (Bool-cases (already_listed inner f)) [
  | inl old ↦ rw old inv
  | inr new ↦ elim (Bool-cases (text_eq (normalize f) [])) [
    | inl empty ↦ rw (new, empty) inv
    | inr full ↦ rw (new, full) (add_line-SeenIsOut m (suggestion (normalize f)) inv)
  ]
]

module _ (inner : List Text) (n : Text) where
  allows-blank : allows n [] ≡ false
  allows-blank = unfold text_eq in refl

  lists-blank : lists n [] ≡ false
  lists-blank = unfold text_eq in refl

  allows-suggest :
      (m : Merged) (f : Text)
      → SeenIsOut m
      → any_trimmed (allows n) (suggest inner m f).out ≡ any_trimmed (allows n) m.out
  unfolding suggest
  allows-suggest m f inv = ground (
    arith,
    any-add_line (allows n) m (suggestion (normalize f)) inv allows-blank,
    allows-suggestion (normalize f) n,
    ap (allows n) (trim_space-suggestion (normalize f)),
  )

  allows-suggest_all :
      (fs : List Text) (m : Merged)
      → SeenIsOut m
      → any_trimmed (allows n) (suggest_all inner m fs).out ≡ any_trimmed (allows n) m.out
  unfolding suggest_all
  allows-suggest_all [] m inv = refl
  allows-suggest_all (f ∷ fs) m inv =
      allows-suggest_all fs (suggest inner m f) (suggest-SeenIsOut inner m f inv)
      ∙ allows-suggest m f inv

  lists-suggestion :
      (f : Text)
      → lists n (suggestion (normalize f))
        ≡ (not (text_eq (normalize f) []) && text_eq (normalize f) n)
  lists-suggestion f = rw (listed_name-suggestion f) (unfold text_eq in refl)

  -- A suggestion lists its name, or the name is listed already.
  lists-suggest :
      (m : Merged) (f : Text)
      → SeenIsOut m
      → n ≢ []
      → (any_trimmed (lists n) inner ≡ true → any_trimmed (lists n) m.out ≡ true)
      → any_trimmed (lists n) (suggest inner m f).out
        ≡ (any_trimmed (lists n) m.out || text_eq (normalize f) n)
  unfolding suggest
  lists-suggest m f inv ne has = ground (
    arith,
    ne,
    has,
    text_eq_iff (normalize f) n,
    text_eq_iff (normalize f) [],
    already_listed-lists inner f,
    ap (λ k. any_trimmed (lists k) inner) {x = normalize f} {y = n},
    any-add_line (lists n) m (suggestion (normalize f)) inv lists-blank,
    ap (lists n) (trim_space-suggestion (normalize f)),
    lists-suggestion f,
  )

  lists-suggest_all :
      (fs : List Text) (m : Merged)
      → SeenIsOut m
      → n ≢ []
      → (any_trimmed (lists n) inner ≡ true → any_trimmed (lists n) m.out ≡ true)
      → any_trimmed (lists n) (suggest_all inner m fs).out
        ≡ (any_trimmed (lists n) m.out || any (λ f. text_eq (normalize f) n) fs)
  unfolding suggest_all
  lists-suggest_all [] m inv ne has = ground arith
  lists-suggest_all (f ∷ fs) m inv ne has =
      let m' = suggest inner m f in
      let one = lists-suggest m f inv ne has in
      let has' : any_trimmed (lists n) inner ≡ true → any_trimmed (lists n) m'.out ≡ true =
        λ h. ground (arith, one, has h) in
      ground (arith, one, lists-suggest_all fs m' (suggest-SeenIsOut inner m f inv) ne has')

SeenIsOut-nothing : SeenIsOut nothing_merged
SeenIsOut-nothing k = unfold contains in refl

merged_inner-SeenIsOut : (inner : List Text) → SeenIsOut (add_lines nothing_merged inner)
merged_inner-SeenIsOut inner = add_lines-SeenIsOut inner nothing_merged SeenIsOut-nothing

-- Merging names seen by DNS into the list never allows a name and never takes an allowed one away.
pub parse_allowed-merge_suggested_lines :
    (inner suggested : List Text) (n : Text)
    → contains (parse_allowed (merge_suggested_lines inner suggested)) n
      ≡ contains (parse_allowed inner) n
unfolding merge_suggested_lines
parse_allowed-merge_suggested_lines inner suggested n =
    let m = add_lines nothing_merged inner in
    contains-parse_allowed (sort_texts (suggest_all inner m suggested).out) n
    ∙ any-sort_texts (λ l. allows n (trim_space l)) (suggest_all inner m suggested).out
    ∙ allows-suggest_all inner n suggested m (merged_inner-SeenIsOut inner)
    ∙ any-add_lines (allows n) inner nothing_merged SeenIsOut-nothing (allows-blank inner n)
    ∙ sym (contains-parse_allowed inner n)

-- After the merge the names that are listed, as allowed or not, are exactly those that were listed
-- before and those that were suggested, the empty name aside.
pub parse_listed-merge_suggested_lines :
    (inner suggested : List Text) (n : Text)
    → n ≢ []
    → contains (parse_listed (merge_suggested_lines inner suggested)) n
      ≡ (contains (parse_listed inner) n || any (λ f. text_eq (normalize f) n) suggested)
unfolding merge_suggested_lines
parse_listed-merge_suggested_lines inner suggested n ne =
    let m = add_lines nothing_merged inner in
    let kept : any_trimmed (lists n) m.out ≡ any_trimmed (lists n) inner =
      any-add_lines (lists n) inner nothing_merged SeenIsOut-nothing (lists-blank inner n) in
    contains-parse_listed (sort_texts (suggest_all inner m suggested).out) n
    ∙ any-sort_texts (λ l. lists n (trim_space l)) (suggest_all inner m suggested).out
    ∙ lists-suggest_all inner n suggested m (merged_inner-SeenIsOut inner) ne (λ h. kept ∙ h)
    ∙ rw (kept, contains-parse_listed inner n)
