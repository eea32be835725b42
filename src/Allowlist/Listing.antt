-- ===== src/Allowlist/Listing.antt =====
-- What ParseAllowed, ParseListed and alreadyListed answer, line by line, and normalized names.
use proxmox_dns_firewall_loc.Prelude.{
  ℕ, Bool, true, false, not, ◌&&◌, ◌||◌, List, [], ◌∷◌, ◌++◌, ◌==◌, Bool-cases, inl, inr, ◌≡◌, ◌≢◌,
  refl, sym, ap, ◌∙◌, arith, All, any,
}
use proxmox_dns_firewall_loc.Text.{
  Text, text_eq, text_eq_iff, is_space, to_lower, to_lower_rune, trim_space, trim_left, trim_right,
  trim_suffix, push_kept, has_prefix, contains, contains-add_name,
}
use proxmox_dns_firewall_loc.Text.Trim.{
  StartsKept, trim_left-eq_self, trim_right_snoc, trim_space-StartsKept, trim_suffix-StartsKept,
  trim_suffix_snoc, trim_left_drop,
}
use proxmox_dns_firewall_loc.Allowlist.{
  hash, normalize, listed_name, listed_line, parse_listed_from, parse_listed, allowed_line,
  parse_allowed_from, parse_allowed, already_listed, suggestion,
}

-- Does a trimmed line allow the name `n`?
abbrev pub allows : Text → Text → Bool
allows n line = not (text_eq line [] || has_prefix line hash) && text_eq (normalize line) n

-- Does a trimmed line list the name `n`, allowed or commented out?
abbrev pub lists : Text → Text → Bool
lists n line =
    not (text_eq line []) && (not (text_eq (listed_name line) []) && text_eq (listed_name line) n)

abbrev pub any_trimmed : (Text → Bool) → List Text → Bool
any_trimmed q lines = any (λ line. q (trim_space line)) lines

contains_nil : (n : Text) → contains [] n ≡ false
unfolding contains
contains_nil n = refl

contains-allowed_line :
    (out : List Text) (line n : Text)
    → contains (allowed_line out line) n ≡ (contains out n || allows n line)
unfolding allowed_line
contains-allowed_line out line n = ground (arith, contains-add_name out (normalize line) n)

contains-parse_allowed_from :
    (lines out : List Text) (n : Text)
    → contains (parse_allowed_from out lines) n ≡ (contains out n || any_trimmed (allows n) lines)
unfolding parse_allowed_from
contains-parse_allowed_from [] out n = ground arith
contains-parse_allowed_from (line ∷ lines) out n =
    let l = trim_space line in
    ground (
      arith,
      contains-allowed_line out l n,
      contains-parse_allowed_from lines (allowed_line out l) n,
    )

-- A name is allowed exactly if some line allows it.
pub contains-parse_allowed :
    (lines : List Text) (n : Text) → contains (parse_allowed lines) n ≡ any_trimmed (allows n) lines
unfolding parse_allowed
contains-parse_allowed lines n =
    ground (arith, contains-parse_allowed_from lines [] n, contains_nil n)

contains-listed_line :
    (out : List Text) (line n : Text)
    → contains (listed_line out line) n ≡ (contains out n || lists n line)
unfolding listed_line
contains-listed_line out line n = ground (arith, contains-add_name out (listed_name line) n)

contains-parse_listed_from :
    (lines out : List Text) (n : Text)
    → contains (parse_listed_from out lines) n ≡ (contains out n || any_trimmed (lists n) lines)
unfolding parse_listed_from
contains-parse_listed_from [] out n = ground arith
contains-parse_listed_from (line ∷ lines) out n =
    let l = trim_space line in
    ground
      (arith, contains-listed_line out l n, contains-parse_listed_from lines (listed_line out l) n)

-- A name is listed exactly if some line lists it.
pub contains-parse_listed :
    (lines : List Text) (n : Text) → contains (parse_listed lines) n ≡ any_trimmed (lists n) lines
unfolding parse_listed
contains-parse_listed lines n =
    ground (arith, contains-parse_listed_from lines [] n, contains_nil n)

allows-lists : (n line : Text) → n ≢ [] → allows n line ≡ true → lists n line ≡ true
unfolding listed_name
allows-lists n line ne h =
    ground (arith, ne, text_eq_iff (normalize line) n, text_eq_iff (normalize line) [])

any-allows :
    (n : Text) (lines : List Text)
    → n ≢ []
    → any_trimmed (allows n) lines ≡ true
    → any_trimmed (lists n) lines ≡ true
any-allows n [] ne h = h
any-allows n (line ∷ lines) ne h =
    ground (arith, allows-lists n (trim_space line) ne, any-allows n lines ne)

-- Every allowed name other than the empty one is listed.
pub parse_allowed-parse_listed :
    (lines : List Text) (n : Text)
    → n ≢ []
    → contains (parse_allowed lines) n ≡ true
    → contains (parse_listed lines) n ≡ true
parse_allowed-parse_listed lines n ne h =
    contains-parse_listed lines n ∙ any-allows n lines ne (sym (contains-parse_allowed lines n) ∙ h)

-- alreadyListed finds a name exactly if a line lists it; the name is not empty.
pub already_listed-lists :
    (inner : List Text) (fqdn : Text)
    → normalize fqdn ≢ []
    → already_listed inner fqdn ≡ any_trimmed (lists (normalize fqdn)) inner
unfolding already_listed
already_listed-lists [] fqdn ne = refl
already_listed-lists (l ∷ inner) fqdn ne = ground (
  arith,
  ne,
  already_listed-lists inner fqdn ne,
  text_eq_iff (listed_name (trim_space l)) [],
  text_eq_iff (listed_name (trim_space l)) (normalize fqdn),
)

abbrev IsLower : Text → Type 0
IsLower s = All (λ c. to_lower_rune c ≡ c) s

to_lower-IsLower : (s : Text) → IsLower (to_lower s)
unfolding to_lower to_lower_rune
to_lower-IsLower [] = tt
to_lower-IsLower (c ∷ s) = (ground arith, to_lower-IsLower s)

trim_left-IsLower : (p : ℕ → Bool) (s : Text) → IsLower s → IsLower (trim_left p s)
unfolding trim_left
trim_left-IsLower p [] h = tt
trim_left-IsLower p (c ∷ s) h = elim (Bool-cases (p c)) [
  | inl cut ↦ rw cut (trim_left-IsLower p s h.1)
  | inr kept ↦ rw kept h
]

push_kept-IsLower :
    (p : ℕ → Bool) (c : ℕ) (s : Text) → to_lower_rune c ≡ c → IsLower s → IsLower (push_kept p c s)
push_kept-IsLower p c [] h k = elim (Bool-cases (p c)) [
  | inl cut ↦ rw cut tt
  | inr kept ↦ rw kept (h, tt)
]
push_kept-IsLower p c (d ∷ s) h k = (h, k)

trim_right-IsLower : (p : ℕ → Bool) (s : Text) → IsLower s → IsLower (trim_right p s)
unfolding trim_right
trim_right-IsLower p [] h = tt
trim_right-IsLower p (c ∷ s) h =
    push_kept-IsLower p c (trim_right p s) h.0 (trim_right-IsLower p s h.1)

trim_suffix-IsLower : (d : ℕ) (s : Text) → IsLower s → IsLower (trim_suffix d s)
unfolding trim_suffix
trim_suffix-IsLower d [] h = tt
trim_suffix-IsLower d (c ∷ []) h = elim (Bool-cases (c == d)) [
  | inl cut ↦ rw cut tt
  | inr kept ↦ rw kept h
]
trim_suffix-IsLower d (c ∷ e ∷ s) h = (h.0, trim_suffix-IsLower d (e ∷ s) h.1)

to_lower-eq_self : (s : Text) → IsLower s → to_lower s ≡ s
unfolding to_lower
to_lower-eq_self [] h = refl
to_lower-eq_self (c ∷ s) h = cc (h.0, to_lower-eq_self s h.1)

normalize-IsLower : (f : Text) → IsLower (normalize f)
unfolding normalize trim_space
normalize-IsLower f =
    let s = to_lower f in
    trim_suffix-IsLower b'.' (trim_right is_space (trim_left is_space s)) (
      trim_right-IsLower is_space (trim_left is_space s)
        (trim_left-IsLower is_space s (to_lower-IsLower f)))

normalize-StartsKept : (f : Text) → StartsKept is_space (normalize f)
unfolding normalize
normalize-StartsKept f =
    trim_suffix-StartsKept is_space b'.' (trim_space (to_lower f))
      (trim_space-StartsKept (to_lower f))

IsLower-snoc : (s : Text) → IsLower s → IsLower (s ++ b'.' ∷ [])
IsLower-snoc [] h = unfold to_lower_rune in (refl, tt)
IsLower-snoc (c ∷ s) h = (h.0, IsLower-snoc s h.1)

StartsKept-snoc : (s : Text) → StartsKept is_space s → StartsKept is_space (s ++ b'.' ∷ [])
StartsKept-snoc [] h = unfold is_space in refl
StartsKept-snoc (c ∷ s) h = h

trim_space_dot : (s : Text) → StartsKept is_space s → trim_space (s ++ b'.' ∷ []) ≡ s ++ b'.' ∷ []
unfolding trim_space
trim_space_dot s h =
    ap (trim_right is_space) (trim_left-eq_self is_space (s ++ b'.' ∷ []) (StartsKept-snoc s h))
    ∙ trim_right_snoc is_space s b'.' (unfold is_space in refl)

-- A normalized name with a final dot normalizes to itself.
pub normalize_dot : (f : Text) → normalize (normalize f ++ b'.' ∷ []) ≡ normalize f
normalize_dot f =
    let n = normalize f in
    let lower = to_lower-eq_self (n ++ b'.' ∷ []) (IsLower-snoc n (normalize-IsLower f)) in
    (unfold normalize in
      ap (λ t. trim_suffix b'.' (trim_space t)) lower
      ∙ ap (trim_suffix b'.') (trim_space_dot n (normalize-StartsKept f))
      ∙ trim_suffix_snoc b'.' n)

pub trim_space-suggestion : (n : Text) → trim_space (suggestion n) ≡ suggestion n
trim_space-suggestion n = trim_space_dot (b'#' ∷ b' ' ∷ n) (unfold is_space in refl)

has_prefix-suggestion : (n : Text) → has_prefix (suggestion n) hash ≡ true
unfolding has_prefix
has_prefix-suggestion n = refl

-- A suggestion allows nothing.
pub allows-suggestion : (f n : Text) → allows n (suggestion f) ≡ false
allows-suggestion f n = ground (arith, has_prefix-suggestion f)

after_space :
    (s : Text) → StartsKept is_space s → trim_space (b' ' ∷ (s ++ b'.' ∷ [])) ≡ s ++ b'.' ∷ []
unfolding trim_space
after_space s h =
    ap (trim_right is_space)
      (trim_left_drop is_space b' ' (s ++ b'.' ∷ []) (unfold is_space in refl))
    ∙ ap (trim_right is_space) (trim_left-eq_self is_space (s ++ b'.' ∷ []) (StartsKept-snoc s h))
    ∙ trim_right_snoc is_space s b'.' (unfold is_space in refl)

-- A suggestion lists the name that it was made for.
pub listed_name-suggestion : (f : Text) → listed_name (suggestion (normalize f)) ≡ normalize f
unfolding listed_name
listed_name-suggestion f =
    rw (has_prefix-suggestion (normalize f), after_space (normalize f) (normalize-StartsKept f))
      (normalize_dot f)
