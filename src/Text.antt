-- ===== src/Text.antt =====
-- Go strings as the program uses them, over lists of code points (valid UTF-8): the operations of
-- the packages `strings` and `sort` that internal/allowlist/allowlist.go and its clients call.
pub mod Trim
pub mod Lines
pub mod Order
pub mod Quote
pub mod Newlines
use Prim.Native.Char.{code}
use Prim.Native.String.{String}
use proxmox_dns_firewall_loc.Prelude.{
  ℕ, ◌+◌, ◌-◌, Bool, true, false, not, ◌&&◌, ◌||◌, List, [], ◌∷◌, ◌++◌, map, ltb, leb, ◌==◌,
  if◌then◌else◌, ◌≡◌, ◌↔◌, refl, arith, ap, append_assoc,
}

abbrev pub Text : Type 0
Text = List ℕ

abbrev pub codes : String → Text
codes String.[] = []
codes (String.◌∷◌ c s) = code c ∷ codes s

-- s == t
unfoldable pub text_eq : Text → Text → Bool
text_eq [] [] = true
text_eq (c ∷ s) (d ∷ t) = c == d && text_eq s t
text_eq _ _ = false

-- unicode.IsSpace
unfoldable pub is_space : ℕ → Bool
is_space c =
    (leb 9 c && leb c 13)
    || c == 32
    || c == 0x85
    || c == 0xa0
    || c == 0x1680
    || (leb 0x2000 c && leb c 0x200a)
    || c == 0x2028
    || c == 0x2029
    || c == 0x202f
    || c == 0x205f
    || c == 0x3000

unfoldable pub to_lower_rune : ℕ → ℕ
to_lower_rune c = if leb b'A' c && leb c b'Z' then c + 32 else c

-- strings.ToLower, on text whose cased letters are ASCII
unfoldable pub to_lower : Text → Text
to_lower s = map to_lower_rune s

unfoldable pub to_upper_rune : ℕ → ℕ
to_upper_rune c = if leb b'a' c && leb c b'z' then c - 32 else c

-- strings.ToUpper, on text whose cased letters are ASCII
unfoldable pub to_upper : Text → Text
to_upper s = map to_upper_rune s

-- strings.EqualFold, on ASCII text
unfoldable pub equal_fold : Text → Text → Bool
equal_fold s t = text_eq (to_lower s) (to_lower t)

unfoldable pub trim_left : (ℕ → Bool) → Text → Text
trim_left p [] = []
trim_left p (c ∷ s) = let rest = trim_left p s in if p c then rest else c ∷ s

-- one more character in front of a text that is already trimmed on the right
abbrev pub push_kept : (ℕ → Bool) → ℕ → Text → Text
push_kept p c [] = if p c then [] else c ∷ []
push_kept p c (d ∷ s) = c ∷ d ∷ s

-- strings.TrimRight with the cutset given by a test
unfoldable pub trim_right : (ℕ → Bool) → Text → Text
trim_right p [] = []
trim_right p (c ∷ s) = push_kept p c (trim_right p s)

-- strings.TrimSpace
unfoldable pub trim_space : Text → Text
trim_space s = trim_right is_space (trim_left is_space s)

-- strings.HasPrefix
unfoldable pub has_prefix : Text → Text → Bool
has_prefix s [] = true
has_prefix [] (d ∷ t) = false
has_prefix (c ∷ s) (d ∷ t) = c == d && has_prefix s t

-- strings.TrimPrefix for a prefix that is there: what follows it
unfoldable pub strip_prefix : Text → Text → Text
strip_prefix s [] = s
strip_prefix [] (d ∷ t) = []
strip_prefix (c ∷ s) (d ∷ t) = strip_prefix s t

-- strings.TrimSuffix(s, string(c)): one final `c` goes
unfoldable pub trim_suffix : ℕ → Text → Text
trim_suffix c [] = []
trim_suffix c (d ∷ []) = if d == c then [] else d ∷ []
trim_suffix c (d ∷ e ∷ s) = d ∷ trim_suffix c (e ∷ s)

abbrev pub lf : ℕ
lf = 10

abbrev pub cr : ℕ
cr = 13

abbrev pub starts_lf : Text → Bool
starts_lf [] = false
starts_lf (c ∷ s) = c == lf

-- strings.ReplaceAll(s, "\r\n", "\n")
unfoldable pub replace_crlf : Text → Text
replace_crlf [] = []
replace_crlf (c ∷ s) =
    let rest = replace_crlf s in if c == cr && starts_lf s then rest else c ∷ rest

-- strings.ReplaceAll(s, "\r", "\n")
unfoldable pub replace_cr : Text → Text
replace_cr [] = []
replace_cr (c ∷ s) = (if c == cr then lf else c) ∷ replace_cr s

abbrev pub push_head : ℕ → List Text → List Text
push_head c [] = (c ∷ []) ∷ []
push_head c (l ∷ ls) = (c ∷ l) ∷ ls

-- strings.Split(s, "\n")
unfoldable pub split_lf : Text → List Text
split_lf [] = [] ∷ []
split_lf (c ∷ s) = let rest = split_lf s in if c == lf then [] ∷ rest else push_head c rest

-- strings.Join(lines, "\n")
unfoldable pub join_lf : List Text → Text
join_lf [] = []
join_lf (l ∷ []) = l
join_lf (l ∷ m ∷ ls) = l ++ lf ∷ join_lf (m ∷ ls)

-- the order of `<` on strings: UTF-8 keeps the order of code points
unfoldable pub text_le : Text → Text → Bool
text_le [] t = true
text_le (c ∷ s) [] = false
text_le (c ∷ s) (d ∷ t) = ltb c d || (c == d && text_le s t)

unfoldable pub insert_text : Text → List Text → List Text
insert_text x [] = x ∷ []
insert_text x (y ∷ ys) = if text_le x y then x ∷ y ∷ ys else y ∷ insert_text x ys

-- sort.Strings
unfoldable pub sort_texts : List Text → List Text
sort_texts [] = []
sort_texts (x ∷ xs) = insert_text x (sort_texts xs)

-- membership in a map[string]struct{}, held as the list of its keys
unfoldable pub contains : List Text → Text → Bool
contains [] n = false
contains (m ∷ s) n = text_eq m n || contains s n

-- set[name] = struct{}{}
unfoldable pub add_name : List Text → Text → List Text
add_name s n = if contains s n then s else s ++ n ∷ []

-- delete(set, name)
unfoldable pub delete_name : List Text → Text → List Text
delete_name [] n = []
delete_name (m ∷ s) n = let rest = delete_name s n in if text_eq m n then rest else m ∷ rest

-- Opens every operation of this file, for evaluation.
unfoldable pub text_run : Unit {0}
unfolding text_eq is_space to_lower_rune to_lower to_upper_rune to_upper equal_fold trim_left
    trim_right trim_space has_prefix strip_prefix trim_suffix replace_crlf replace_cr split_lf
    join_lf text_le insert_text sort_texts contains add_name delete_name
text_run = tt

pub text_eq_iff : (s t : Text) → (text_eq s t ≡ true) ↔ (s ≡ t)
unfolding text_eq
text_eq_iff [] [] = ground arith
text_eq_iff (c ∷ s) (d ∷ t) = ground (arith, text_eq_iff s t)
text_eq_iff _ _ = ground arith

pub text_eq_refl : (s : Text) → text_eq s s ≡ true
text_eq_refl s = (text_eq_iff s s).1 refl

pub contains-append :
    (s t : List Text) (n : Text) → contains (s ++ t) n ≡ (contains s n || contains t n)
unfolding contains
contains-append [] t n = refl
contains-append (m ∷ s) t n = ground (arith, contains-append s t n)

contains_one : (m n : Text) → contains (m ∷ []) n ≡ text_eq m n
unfolding contains
contains_one m n = ground arith

pub contains-add_name :
    (s : List Text) (m n : Text) → contains (add_name s m) n ≡ (text_eq m n || contains s n)
unfolding add_name
contains-add_name s m n =
    ground (arith, contains-append s (m ∷ []) n, contains_one m n, text_eq_iff m n)

pub contains-delete_name :
    (s : List Text) (m n : Text)
    → contains (delete_name s m) n ≡ (not (text_eq m n) && contains s n)
unfolding contains delete_name
contains-delete_name [] m n = ground arith
contains-delete_name (x ∷ s) m n =
    ground (arith, contains-delete_name s m n, text_eq_iff x m, text_eq_iff x n, text_eq_iff m n)
