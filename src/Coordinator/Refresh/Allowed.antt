-- ===== src/Coordinator/Refresh/Allowed.antt =====
-- What a refresh lets ApplyDNS allow.
use proxmox_dns_firewall_loc.Prelude.{
  ◌==◌, false, List, [], Option, none, some, if◌then◌else◌, Bool-cases, inl, inr, ◌≡◌, refl, sym,
  ap, ◌∙◌, All,
}
use proxmox_dns_firewall_loc.Text.{
  Text, codes, text_eq, text_eq_iff, cr, is_space, trim_left, trim_space, replace_cr, replace_crlf,
  split_lf, join_lf, contains,
}
use proxmox_dns_firewall_loc.Text.Trim.{trim_space_idem}
use proxmox_dns_firewall_loc.Text.Newlines.{replace_cr-trim_space}
use proxmox_dns_firewall_loc.Text.Lines.{
  IsLine, CrFree, replace_cr-eq_self, replace_crlf-eq_self, replace_cr-CrFree, split_lf-AllIsLine,
  join_lf-CrFree,
}
use proxmox_dns_firewall_loc.Allowlist.{parse_allowed, extract_block, merge_suggested_lines}
use proxmox_dns_firewall_loc.Allowlist.Listing.{allows, any_trimmed, contains-parse_allowed}
use proxmox_dns_firewall_loc.Allowlist.Reading.{any-trim_space, any-join_lf}
use proxmox_dns_firewall_loc.Allowlist.Kept.{
  All-trim_left, All-trim_right, merge_suggested_lines-AllIsLine, extract_block-AllIsLine,
}
use proxmox_dns_firewall_loc.Allowlist.Merge.{parse_allowed-merge_suggested_lines}
use proxmox_dns_firewall_loc.Proxmox.Api.{Row, ok, Client, Server}
use proxmox_dns_firewall_loc.Proxmox.Display.{string_field}
use proxmox_dns_firewall_loc.Coordinator.Changes.{normalize_allowlist_multiline, split_allow_lines}
use proxmox_dns_firewall_loc.Coordinator.State.{Coordinator}
use proxmox_dns_firewall_loc.Coordinator.Refresh.{inner_of, merged_text, refresh}
use proxmox_dns_firewall_loc.Coordinator.Refresh.Laws.{Basis, config_of, refresh-merged}
use proxmox_dns_firewall_loc.Coordinator.Dns.{is_allowed}

normalize-CrFree : (t : Text) → CrFree t → normalize_allowlist_multiline t ≡ trim_space t
unfolding normalize_allowlist_multiline
normalize-CrFree t h =
    ap (λ s. trim_space (replace_cr (trim_space s))) (replace_crlf-eq_self t h)
    ∙ ap trim_space (replace_cr-trim_space t)
    ∙ ap (λ s. trim_space (trim_space s)) (replace_cr-eq_self t h)
    ∙ trim_space_idem t

module _ (n : Text) where
  allows_blank : allows n [] ≡ false
  allows_blank = unfold text_eq in refl

  -- the empty text has no line that allows a name
  any-lines_of :
      (t : Text)
      → any_trimmed (allows n) (if text_eq t [] then [] else split_lf t)
        ≡ any_trimmed (allows n) (split_lf t)
  unfolding join_lf
  any-lines_of t = elim (Bool-cases (text_eq t [])) [
    | inl empty ↦ rw empty (
        sym (
          ap (λ t. any_trimmed (allows n) (split_lf t)) ((text_eq_iff t []).0 empty)
          ∙ any-join_lf (allows n) allows_blank [] tt))
    | inr given ↦ rw given refl
  ]

  any-split_allow_lines :
      (t : Text)
      → CrFree t
      → any_trimmed (allows n) (split_allow_lines t) ≡ any_trimmed (allows n) (split_lf t)
  unfolding split_allow_lines
  any-split_allow_lines t h =
      ap (λ s. any_trimmed (allows n) (if text_eq s [] then [] else split_lf s))
        (normalize-CrFree t h)
      ∙ any-lines_of (trim_space t)
      ∙ any-trim_space (allows n) allows_blank t

  -- a list of lines, shown as one text and read back
  is_allowed-join_lf :
      (lines : List Text)
      → All IsLine lines
      → is_allowed (join_lf lines) n ≡ contains (parse_allowed lines) n
  is_allowed-join_lf lines h =
      contains-parse_allowed (split_allow_lines (join_lf lines)) n
      ∙ any-split_allow_lines (join_lf lines) (join_lf-CrFree lines h)
      ∙ any-join_lf (allows n) allows_blank lines h
      ∙ sym (contains-parse_allowed lines n)

normalized-CrFree : (text : Text) → CrFree (normalize_allowlist_multiline text)
unfolding normalize_allowlist_multiline trim_space
normalized-CrFree text =
    let t = replace_cr (trim_space (replace_crlf text)) in
    All-trim_right (λ c. (c == cr) ≡ false) is_space (trim_left is_space t)
      (All-trim_left (λ c. (c == cr) ≡ false) is_space t
        (replace_cr-CrFree (trim_space (replace_crlf text))))

-- a text that is normalized allows what its lines allow
pub is_allowed-normalized :
    (text : Text) (n : Text)
    → is_allowed (normalize_allowlist_multiline text) n
      ≡ contains (parse_allowed (split_lf (normalize_allowlist_multiline text))) n
is_allowed-normalized text n =
    let t = normalize_allowlist_multiline text in
    contains-parse_allowed (split_allow_lines t) n
    ∙ any-split_allow_lines n t (normalized-CrFree text)
    ∙ sym (contains-parse_allowed (split_lf t) n)

pub normalized-AllIsLine :
    (text : Text) → All IsLine (split_lf (normalize_allowlist_multiline text))
normalized-AllIsLine text =
    split_lf-AllIsLine (normalize_allowlist_multiline text) (normalized-CrFree text)

inner_of-AllIsLine : (desc : Text) → All IsLine (inner_of desc)
inner_of-AllIsLine desc =
    by_block (extract_block desc) (λ inner e. extract_block-AllIsLine desc inner e)
  where
    by_block :
        (o : Option (List Text))
        → ((inner : List Text) → o ≡ some inner → All IsLine inner)
        → All IsLine (elim o [ none ↦ [] | some inner ↦ inner ])
    by_block none h = tt
    by_block (some inner) h = h inner refl

pub is_allowed-merged_text :
    (desc : Text) (seen : List Text) (n : Text)
    → All IsLine seen
    → is_allowed (merged_text desc seen) n ≡ contains (parse_allowed (inner_of desc)) n
unfolding merged_text
is_allowed-merged_text desc seen n h =
    is_allowed-join_lf n (merge_suggested_lines (inner_of desc) seen)
      (merge_suggested_lines-AllIsLine (inner_of desc) seen (inner_of-AllIsLine desc) h)
    ∙ parse_allowed-merge_suggested_lines (inner_of desc) seen n

module _ (srv : Server) where
  -- After a refresh that has read the guest's configuration, ApplyDNS allows exactly the names that
  -- the block of the guest's description allows: the names that were seen meanwhile, the sorting,
  -- and the way of the list through one text and back change nothing of it. The names seen have no
  -- line ends.
  pub refresh-is_allowed :
      (px : Client) (cfg : Row) (c : Coordinator srv) (n : Text)
      → c.px ≡ some px
      → config_of srv px c ≡ ok cfg
      → All IsLine c.seen
      → is_allowed (refresh srv c).last_merged_allow_text n
        ≡ contains (parse_allowed (inner_of (string_field (codes "description") cfg))) n
  refresh-is_allowed px cfg c n set read h =
      let desc = string_field (codes "description") cfg in
      let (same, _, _) = refresh-merged srv px cfg c set read in
      ap (λ (b : Basis). is_allowed b.2 n) same ∙ is_allowed-merged_text desc c.seen n h
