-- ===== src/Allowlist.antt =====
-- internal/allowlist/allowlist.go: the lines of the allow list, the block that holds them in a
-- guest's description, and the merge of names seen by DNS.
pub mod Markers
pub mod BlockLines
pub mod Block
pub mod Listing
pub mod Reading
pub mod Kept
pub mod Merge
pub mod Tests
use proxmox_dns_firewall_loc.Prelude.{
  ℕ, zero, suc, ◌+◌, ◌-◌, Bool, true, false, not, ◌&&◌, ◌||◌, List, [], ◌∷◌, ◌++◌, map, Option,
  none, some, ltb, leb, ◌==◌, if◌then◌else◌, take, drop,
}
use proxmox_dns_firewall_loc.Text.{
  Text, codes, text_eq, to_lower, trim_space, trim_right, trim_suffix, has_prefix, replace_crlf,
  replace_cr, split_lf, contains, add_name, sort_texts, lf, text_run,
}
use proxmox_dns_firewall_loc.Text.Trim.{is_eol}
use proxmox_dns_firewall_loc.Text.Lines.{unlines, split_unified}

abbrev pub begin_marker : Text
begin_marker = codes "PROXMOX_DNS_LOCKDOWN_BEGIN"

abbrev pub end_marker : Text
end_marker = codes "PROXMOX_DNS_LOCKDOWN_END"

abbrev pub hash : Text
hash = codes "#"

unfoldable pub normalize : Text → Text
normalize name = trim_suffix b'.' (trim_space (to_lower name))

-- s[1:] of a text that starts with "#"
abbrev pub after_hash : Text → Text
after_hash [] = []
after_hash (c ∷ s) = s

-- the name that a trimmed line lists, allowed or commented out
unfoldable pub listed_name : Text → Text
listed_name line = normalize (if has_prefix line hash then trim_space (after_hash line) else line)

-- one round of the loop of ParseListed, on a trimmed line
unfoldable pub listed_line : List Text → Text → List Text
listed_line out line =
    let n = listed_name line in
    if text_eq line [] then out else if text_eq n [] then out else add_name out n

unfoldable pub parse_listed_from : List Text → List Text → List Text
parse_listed_from out [] = out
parse_listed_from out (line ∷ lines) = parse_listed_from (listed_line out (trim_space line)) lines

unfoldable pub parse_listed : List Text → List Text
parse_listed lines = parse_listed_from [] lines

-- one round of the loop of ParseAllowed, on a trimmed line
unfoldable pub allowed_line : List Text → Text → List Text
allowed_line out line =
    if text_eq line [] || has_prefix line hash then out else add_name out (normalize line)

unfoldable pub parse_allowed_from : List Text → List Text → List Text
parse_allowed_from out [] = out
parse_allowed_from out (line ∷ lines) =
    parse_allowed_from (allowed_line out (trim_space line)) lines

unfoldable pub parse_allowed : List Text → List Text
parse_allowed inner_lines = parse_allowed_from [] inner_lines

unfoldable pub split_lines : Text → List Text
split_lines [] = []
split_lines (c ∷ s) = split_unified (c ∷ s)

unfoldable pub trim_trailing_eol : Text → Text
trim_trailing_eol s = trim_right is_eol s

-- `begin` and `end` of the loop over the lines; `none` is -1
abbrev pub Found : Type 0
Found = Option ℕ × Option ℕ

unfoldable pub mark_line : ℕ → Text → Found → Found
mark_line i line (begin, end) =
    if text_eq (trim_space line) begin_marker
    then (some i, end)
    else if text_eq (trim_space line) end_marker
    then (begin, some i)
    else (begin, end)

unfoldable pub find_markers : ℕ → Found → List Text → Found
find_markers i found [] = found
find_markers i found (line ∷ lines) = find_markers (i + 1) (mark_line i line found) lines

-- the two places where a block stands, unless begin < 0 || end < 0 || end <= begin
unfoldable pub block_bounds : Found → Option (ℕ × ℕ)
block_bounds (none, end) = none
block_bounds (some b, none) = none
block_bounds (some b, some e) = if leb e b then none else some (b, e)

abbrev pub found_in : List Text → Option (ℕ × ℕ)
found_in lines = block_bounds (find_markers 0 (none, none) lines)

unfoldable pub inner_at : List Text → Option (ℕ × ℕ) → Option (List Text)
inner_at lines none = none
inner_at lines (some (b, e)) =
    some (map trim_trailing_eol (take (e - (b + 1)) (drop (b + 1) lines)))

unfoldable pub extract_block : Text → Option (List Text)
extract_block description = let lines = split_lines description in inner_at lines (found_in lines)

unfoldable pub build_block : List Text → Text
build_block inner_lines =
    begin_marker ++ lf ∷ (unlines (map trim_trailing_eol inner_lines) ++ end_marker)

abbrev pub is_lf : ℕ → Bool
is_lf c = c == lf

unfoldable pub appended : Text → Text → Text
appended [] block = block ++ lf ∷ []
appended (c ∷ d) block = (c ∷ d) ++ lf ∷ lf ∷ (block ++ lf ∷ [])

unfoldable pub splice_at : Text → List Text → Text → Option (ℕ × ℕ) → Text
splice_at description lines block none = appended (trim_right is_lf description) block
splice_at description lines block (some (b, e)) =
    trim_right is_lf (unlines (take b lines) ++ (block ++ lf ∷ unlines (drop (e + 1) lines)))
    ++ lf ∷ []

-- SpliceBlock; its error is always nil
unfoldable pub splice_block : Text → List Text → Text
splice_block description inner_lines =
    let lines = split_lines description in
    splice_at description lines (build_block inner_lines) (found_in lines)

unfoldable pub already_listed : List Text → Text → Bool
already_listed [] fqdn = false
already_listed (l ∷ inner) fqdn =
    let ls = trim_space l in
    (not (text_eq ls []) && text_eq (listed_name ls) (normalize fqdn)) || already_listed inner fqdn

-- the variables `seen` and `out` of MergeSuggestedLines
pub record Merged : Type 0 where
  pub seen : List Text
  pub out : List Text

-- the closure `add`
unfoldable pub add_line : Merged → Text → Merged
add_line m line =
    let k = trim_space line in
    if text_eq k []
    then m
    else if contains m.seen k
    then m
    else record m { seen = add_name m.seen k; out = m.out ++ trim_right is_eol line ∷ [] }

unfoldable pub add_lines : Merged → List Text → Merged
add_lines m [] = m
add_lines m (l ∷ ls) = add_lines (add_line m l) ls

-- fmt.Sprintf("# %s.", n)
abbrev pub suggestion : Text → Text
suggestion n = codes "# " ++ (n ++ codes ".")

unfoldable pub suggest : List Text → Merged → Text → Merged
suggest inner m fqdn =
    if already_listed inner fqdn
    then m
    else if text_eq (normalize fqdn) []
    then m
    else add_line m (suggestion (normalize fqdn))

unfoldable pub suggest_all : List Text → Merged → List Text → Merged
suggest_all inner m [] = m
suggest_all inner m (fqdn ∷ suggested) = suggest_all inner (suggest inner m fqdn) suggested

abbrev pub nothing_merged : Merged
nothing_merged = record { seen = []; out = [] }

-- MergeSuggestedLines; `suggested` lists the keys of the map in the order of its iteration
unfoldable pub merge_suggested_lines : List Text → List Text → List Text
merge_suggested_lines inner suggested =
    sort_texts (suggest_all inner (add_lines nothing_merged inner) suggested).out

-- Opens every operation of this file, for evaluation.
unfoldable pub allowlist_run : Unit {0}
unfolding text_run is_eol unlines split_unified normalize listed_name listed_line parse_listed_from
    parse_listed allowed_line parse_allowed_from parse_allowed split_lines trim_trailing_eol
    mark_line find_markers block_bounds inner_at extract_block build_block appended splice_at
    splice_block already_listed add_line add_lines suggest suggest_all merge_suggested_lines
allowlist_run = tt
