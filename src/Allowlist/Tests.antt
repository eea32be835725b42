-- ===== src/Allowlist/Tests.antt =====
-- Runs of the allow list at concrete texts, and the theorems at inputs that meet their hypotheses.
use mathlib.Core.List.Perm
use proxmox_dns_firewall_loc.Prelude.{
  List, [], ◌∷◌, ◌++◌, ◌||◌, any, some, ◌≡◌, refl, take, drop, ◌+◌, All,
}
use proxmox_dns_firewall_loc.Text.{Text, codes, text_eq, contains}
use proxmox_dns_firewall_loc.Text.Lines.{IsLine}
use proxmox_dns_firewall_loc.Allowlist.{
  allowlist_run, normalize, parse_allowed, parse_listed, extract_block, splice_block, split_lines,
  found_in, begin_marker, end_marker, merge_suggested_lines,
}
use proxmox_dns_firewall_loc.Allowlist.BlockLines.{IsInner, IsLine-of_any, drop_blank_end}
use proxmox_dns_firewall_loc.Allowlist.Block.{extract_block-splice_block, split_lines-splice_block}
use proxmox_dns_firewall_loc.Allowlist.Merge.{
  parse_allowed-merge_suggested_lines, parse_listed-merge_suggested_lines,
  merge_suggested_lines-perm,
}

abbrev raw : Text
raw = codes "before\nPROXMOX_DNS_LOCKDOWN_BEGIN\n#x\ny\nPROXMOX_DNS_LOCKDOWN_END\nafter\n"

abbrev inner_lines : List Text
inner_lines = codes "#off.example" ∷ codes "on." ∷ []

-- TestSplicePreservesOutside
splice_raw :
    splice_block raw (codes "allowed.example" ∷ [])
    ≡ codes "before\nPROXMOX_DNS_LOCKDOWN_BEGIN\nallowed.example\nPROXMOX_DNS_LOCKDOWN_END\nafter\n"
unfolding allowlist_run
splice_raw = refl

-- TestParseListedIncludesBlocked
listed_lines :
    parse_listed (codes "#off.example" ∷ codes "on." ∷ codes "" ∷ codes "  # also.example.  " ∷ [])
    ≡ codes "off.example" ∷ codes "on" ∷ codes "also.example" ∷ []
unfolding allowlist_run
listed_lines = refl

-- TestParseAllowedSkipsHashes
allowed_lines : parse_allowed inner_lines ≡ codes "on" ∷ []
unfolding allowlist_run
allowed_lines = refl

-- TestMergeSuggestedComments
merged_lines :
    merge_suggested_lines (codes "alpha." ∷ []) (codes "beta" ∷ [])
    ≡ codes "# beta." ∷ codes "alpha." ∷ []
unfolding allowlist_run
merged_lines = refl

inner_lines-IsInner : All IsInner inner_lines
unfolding allowlist_run
inner_lines-IsInner = (
  (IsLine-of_any (codes "#off.example") refl, (refl, refl)),
  ((IsLine-of_any (codes "on.") refl, (refl, refl)), tt),
)

extract_block-splice_block_example : extract_block (splice_block raw inner_lines) ≡ some inner_lines
extract_block-splice_block_example = extract_block-splice_block raw inner_lines inner_lines-IsInner

inner_lines-IsLine : All IsLine inner_lines
inner_lines-IsLine =
    (IsLine-of_any (codes "#off.example") refl, (IsLine-of_any (codes "on.") refl, tt))

raw_bounds : found_in (split_lines raw) ≡ some (1, 4)
unfolding allowlist_run
raw_bounds = refl

split_lines-splice_block_example :
    split_lines (splice_block raw inner_lines)
    ≡ take 1 (split_lines raw)
      ++ begin_marker
        ∷ (inner_lines ++ end_marker ∷ (drop_blank_end (drop (4 + 1) (split_lines raw)) ++ [] ∷ []))
split_lines-splice_block_example =
    split_lines-splice_block raw inner_lines 1 4 raw_bounds inner_lines-IsLine

parse_allowed-merge_suggested_lines_example :
    contains (parse_allowed (merge_suggested_lines inner_lines (codes "b.c" ∷ []))) (codes "b.c")
    ≡ contains (parse_allowed inner_lines) (codes "b.c")
parse_allowed-merge_suggested_lines_example =
    parse_allowed-merge_suggested_lines inner_lines (codes "b.c" ∷ []) (codes "b.c")

parse_listed-merge_suggested_lines_example :
    contains (parse_listed (merge_suggested_lines inner_lines (codes "b.c" ∷ []))) (codes "b.c") ≡ (
      contains (parse_listed inner_lines) (codes "b.c")
      || any (λ f. text_eq (normalize f) (codes "b.c")) (codes "b.c" ∷ []))
parse_listed-merge_suggested_lines_example =
    parse_listed-merge_suggested_lines inner_lines (codes "b.c" ∷ []) (codes "b.c") (λ e. cc)

merge_suggested_lines-perm_example :
    merge_suggested_lines inner_lines (codes "b" ∷ codes "a" ∷ [])
    ≡ merge_suggested_lines inner_lines (codes "a" ∷ codes "b" ∷ [])
merge_suggested_lines-perm_example =
    merge_suggested_lines-perm inner_lines (Perm.swap (codes "a") (codes "b") [])
