-- ===== src/Ip.antt =====
-- net.ParseIP, IP.To4 and IP.String, as internal/proxmox/client.go and
-- internal/coordinator/coordinator.go use them. An address is its eight 16-bit groups; an IPv4
-- address is held in the form ::ffff:a.b.c.d, as ParseIP returns it.
pub mod Tests
use proxmox_dns_firewall_loc.Prelude.{
  ℕ, zero, suc, ◌+◌, ◌-◌, ◌*◌, ◌/◌, ◌%◌, Bool, true, false, not, ◌&&◌, ◌||◌, List, [], ◌∷◌, ◌++◌,
  Option, none, some, ltb, leb, ◌==◌, if◌then◌else◌, length, take, drop,
}
use proxmox_dns_firewall_loc.Text.{Text, codes, text_eq, text_run}

abbrev pub Ip : Type 0
Ip = List ℕ

-- the digits of `n` in base 10 or 16; the fuel is one more than `n`
unfoldable pub digits_in : ℕ → ℕ → ℕ → Text
digits_in base zero n = []
digits_in base (suc f) n =
    let more = digits_in base f (n / base) in
    let d = n % base in
    let last = if ltb d 10 then b'0' + d else b'a' + (d - 10) in
    if ltb n base then last ∷ [] else more ++ last ∷ []

-- fmt "%d" of a number that is not negative
unfoldable pub decimal : ℕ → Text
decimal n = digits_in 10 (suc n) n

unfoldable pub hexadecimal : ℕ → Text
hexadecimal n = digits_in 16 (suc n) n

abbrev pub is_digit : ℕ → Bool
is_digit c = leb b'0' c && leb c b'9'

-- parseIPv4Fields: `val` is the octet being read, of `len` digits; `fields` are those before it
unfoldable pub octets : ℕ → ℕ → List ℕ → Text → Option (List ℕ)
octets val len fields [] = if length fields == 3 then some (fields ++ val ∷ []) else none
octets val len fields (c ∷ s) =
    let digit = val * 10 + (c - b'0') in
    let next = octets digit (len + 1) fields s in
    let field = octets 0 0 (fields ++ val ∷ []) s in
    if is_digit c
    then (if (len == 1 && val == 0) || ltb 255 digit then none else next)
    else if c == b'.'
    then (if len == 0 || text_eq s [] || length fields == 3 then none else field)
    else none

abbrev pub four_groups : List ℕ → Option (List ℕ)
four_groups (a ∷ b ∷ c ∷ d ∷ []) = some ((a * 256 + b) ∷ (c * 256 + d) ∷ [])
four_groups _ = none

-- the last two groups of an address that ends in a dotted quad
unfoldable pub parse_quad : Text → Option (List ℕ)
parse_quad s = elim (octets 0 0 [] s) [ none ↦ none | some o ↦ four_groups o ]

abbrev pub four_prefix : List ℕ
four_prefix = 0 ∷ 0 ∷ 0 ∷ 0 ∷ 0 ∷ 0xffff ∷ []

unfoldable pub parse_four : Text → Option Ip
parse_four s = elim (parse_quad s) [ none ↦ none | some g ↦ some (four_prefix ++ g) ]

abbrev pub hex_digit : ℕ → Option ℕ
hex_digit c =
    if is_digit c
    then some (c - b'0')
    else if leb b'a' c && leb c b'f'
    then some (c - b'a' + 10)
    else if leb b'A' c && leb c b'F'
    then some (c - b'A' + 10)
    else none

-- one group: its value, the number of its digits and the rest; more than four digits are an error
unfoldable pub hex_group : ℕ → ℕ → Text → Option (ℕ × ℕ × Text)
hex_group off acc [] = some (acc, off, [])
hex_group off acc (c ∷ s) = elim (hex_digit c) [
  | none ↦ some (acc, off, c ∷ s)
  | some d ↦ if ltb 3 off then none else hex_group (off + 1) (acc * 16 + d) s
]

abbrev pub replicate_zero : ℕ → List ℕ
replicate_zero zero = []
replicate_zero (suc n) = 0 ∷ replicate_zero n

-- what follows the loop of parseIPv6: nothing may be left, and "::" fills up
unfoldable pub finish_six : List ℕ → Option ℕ → Text → Option Ip
finish_six groups ellipsis (c ∷ s) = none
finish_six groups none [] = if length groups == 8 then some groups else none
finish_six groups (some k) [] =
    if leb 8 (length groups)
    then none
    else some (take k groups ++ (replicate_zero (8 - length groups) ++ drop k groups))

abbrev pub starts_with_code : ℕ → Text → Bool
starts_with_code c [] = false
starts_with_code c (d ∷ s) = d == c

abbrev pub rest_of : Text → Text
rest_of [] = []
rest_of (c ∷ s) = s

abbrev pub is_none {ℓ} : {A : Type ℓ} → Option A → Bool
is_none none = true
is_none (some a) = false

-- the loop of parseIPv6; each of its rounds reads a group, so eight rounds are all it makes
unfoldable pub groups_six : ℕ → List ℕ → Option ℕ → Text → Option Ip
groups_six zero groups ellipsis s = finish_six groups ellipsis s
groups_six (suc f) groups ellipsis s = elim (hex_group 0 0 s) [
  | none ↦ none
  | some (acc, off, r) ↦
      let i = length groups in
      let groups' = groups ++ acc ∷ [] in
      let go_on = groups_six f groups' ellipsis (rest_of r) in
      let at_ellipsis = groups_six f groups' (some (i + 1)) (rest_of (rest_of r)) in
      if off == 0
      then none
      else if starts_with_code b'.' r
      then (if (is_none ellipsis && not (i == 6)) || ltb 6 i
          then none
          else elim (parse_quad s) [ none ↦ none | some g ↦ finish_six (groups ++ g) ellipsis [] ])
      else if text_eq r []
      then finish_six groups' ellipsis []
      else if not (starts_with_code b':' r) || text_eq (rest_of r) []
      then none
      else if starts_with_code b':' (rest_of r)
      then (if not (is_none ellipsis)
          then none
          else if text_eq (rest_of (rest_of r)) []
          then finish_six groups' (some (i + 1)) []
          else at_ellipsis)
      else go_on
]

unfoldable pub parse_six : Text → Option Ip
parse_six s =
    if starts_with_code b':' s && starts_with_code b':' (rest_of s)
    then (if text_eq (rest_of (rest_of s)) []
        then some (replicate_zero 8)
        else groups_six 8 [] (some 0) (rest_of (rest_of s)))
    else groups_six 8 [] none s

abbrev pub has_code : ℕ → Text → Bool
has_code c [] = false
has_code c (d ∷ s) = d == c || has_code c s

-- the first of `.`, `:` and `%` says which form it is; a zone is refused
unfoldable pub parse_by : Text → Text → Option Ip
parse_by all [] = none
parse_by all (c ∷ s) =
    let further = parse_by all s in
    if c == b'.'
    then parse_four all
    else if c == b':'
    then (if has_code b'%' all then none else parse_six all)
    else if c == b'%'
    then none
    else further

-- net.ParseIP; `none` is nil
unfoldable pub parse_ip : Text → Option Ip
parse_ip s = parse_by s s

-- ip.To4() != nil
unfoldable pub is_four : Ip → Bool
is_four ip = text_eq (take 6 ip) four_prefix

abbrev pub dotted : Text → Text → Text
dotted s t = s ++ b'.' ∷ t

abbrev pub octet_texts : ℕ → Text
octet_texts g = dotted (decimal (g / 256)) (decimal (g % 256))

unfoldable pub join_groups : List ℕ → Text
join_groups [] = []
join_groups (g ∷ []) = hexadecimal g
join_groups (g ∷ h ∷ gs) = hexadecimal g ++ b':' ∷ join_groups (h ∷ gs)

abbrev pub zero_run : List ℕ → ℕ
zero_run [] = 0
zero_run (g ∷ gs) = if g == 0 then suc (zero_run gs) else 0

-- the first longest run of two zero groups or more: where it starts and how long it is
unfoldable pub best_run : ℕ → ℕ × ℕ → List ℕ → ℕ × ℕ
best_run i best [] = best
best_run i best (g ∷ gs) =
    let l = zero_run (g ∷ gs) in
    best_run (i + 1) (if leb 2 l && ltb best.1 l then (i, l) else best) gs

abbrev six_string_at : Ip → ℕ × ℕ → Text
six_string_at ip (start, l) =
    if l == 0
    then join_groups ip
    else join_groups (take start ip) ++ b':' ∷ b':' ∷ join_groups (drop (start + l) ip)

abbrev four_string : List ℕ → Text
four_string (g ∷ h ∷ gs) = dotted (octet_texts g) (octet_texts h)
four_string _ = []

-- IP.String
unfoldable pub ip_string : Ip → Text
ip_string ip =
    if is_four ip then four_string (drop 6 ip) else six_string_at ip (best_run 0 (0, 0) ip)

-- Opens every operation of this file, for evaluation.
unfoldable pub ip_run : Unit {0}
unfolding text_run digits_in decimal hexadecimal octets parse_quad parse_four hex_group finish_six
    groups_six parse_six parse_by parse_ip is_four join_groups best_run ip_string
ip_run = tt
