-- ===== src/Text/Quote.antt =====
-- strings.Contains, and fmt's verb %q (strconv.Quote).
use proxmox_dns_firewall_loc.Prelude.{
  ℕ, ◌+◌, ◌-◌, ◌/◌, ◌%◌, Bool, ◌||◌, [], ◌∷◌, ◌++◌, ltb, ◌==◌, if◌then◌else◌,
}
use proxmox_dns_firewall_loc.Text.{Text, codes, has_prefix, text_run}

-- strings.Contains(s, t)
unfoldable pub has_substring : Text → Text → Bool
has_substring [] t = has_prefix [] t
has_substring (c ∷ s) t = has_prefix (c ∷ s) t || has_substring s t

abbrev hex : ℕ → ℕ
hex d = if ltb d 10 then b'0' + d else b'a' + (d - 10)

abbrev escaped : ℕ → Text
escaped c = b'\\' ∷ c ∷ []

-- What is written for one character; those from 0x80 on are taken to be printable.
abbrev quote_rune : ℕ → Text
quote_rune c =
    if c == b'"' || c == b'\\'
    then escaped c
    else if c == 7
    then escaped b'a'
    else if c == 8
    then escaped b'b'
    else if c == 9
    then escaped b't'
    else if c == 10
    then escaped b'n'
    else if c == 11
    then escaped b'v'
    else if c == 12
    then escaped b'f'
    else if c == 13
    then escaped b'r'
    else if ltb c 32 || c == 127
    then codes "\\x" ++ hex (c / 16) ∷ hex (c % 16) ∷ []
    else c ∷ []

unfoldable pub quote_runes : Text → Text
quote_runes [] = []
quote_runes (c ∷ s) = quote_rune c ++ quote_runes s

unfoldable pub quote : Text → Text
quote s = b'"' ∷ (quote_runes s ++ b'"' ∷ [])

-- Opens every operation of this file, for evaluation.
unfoldable pub quote_run : Unit {0}
unfolding text_run has_substring quote_runes quote
quote_run = tt
