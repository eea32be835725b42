-- ===== src/Proxmox/Row.antt =====
-- asString, intFromAny and the reading of a map[string]any.
use proxmox_dns_firewall_loc.Prelude.{
  ℕ, zero, suc, ◌+◌, ◌-◌, ◌*◌, Bool, true, false, [], ◌∷◌, Option, none, some, ltb, ◌==◌,
  if◌then◌else◌, ℤ, pos, negsuc,
}
use proxmox_dns_firewall_loc.Text.{Text, codes, text_eq, is_space, lf}
use proxmox_dns_firewall_loc.Ip.{decimal, is_digit, ip_run}
use proxmox_dns_firewall_loc.Proxmox.Api.{Value, null, bool, num, str, Row}

-- fmt "%d"
unfoldable pub int_text : ℤ → Text
int_text (pos n) = decimal n
int_text (negsuc n) = b'-' ∷ decimal (suc n)

abbrev last_field : Option Value → Bool → Value → Option Value
last_field (some w) same v = some w
last_field none true v = some v
last_field none false v = none

-- m[key]; a key that an object holds twice keeps its last value, and a missing one reads as nil
unfoldable pub field? : Text → Row → Option Value
field? key [] = none
field? key ((k, v) ∷ row) = last_field (field? key row) (text_eq k key) v

abbrev pub or_null : Option Value → Value
or_null none = null
or_null (some v) = v

unfoldable pub as_string : Value → Text
as_string null = []
as_string (str t) = t
as_string (num z) = int_text z
as_string (bool true) = codes "true"
as_string (bool false) = codes "false"

unfoldable pub text_field : Text → Row → Text
text_field key row = as_string (or_null (field? key row))

-- the digits at the front of a text
unfoldable pub scan_digits : ℕ → Text → ℕ
scan_digits acc [] = acc
scan_digits acc (c ∷ s) =
    let further = scan_digits (acc * 10 + (c - b'0')) s in if is_digit c then further else acc

abbrev int64_limit : ℕ
int64_limit = 0x8000_0000_0000_0000

-- a number that int64 does not hold is an error, which leaves 0
abbrev in_int64 : Bool → ℕ → ℤ
in_int64 false n = if ltb n int64_limit then pos n else pos 0
in_int64 true zero = pos 0
in_int64 true (suc n) = if ltb n int64_limit then negsuc n else pos 0

abbrev scan_sign : Text → ℤ
scan_sign [] = pos 0
scan_sign (c ∷ s) =
    if c == b'-'
    then in_int64 true (scan_digits 0 s)
    else if c == b'+'
    then in_int64 false (scan_digits 0 s)
    else in_int64 false (scan_digits 0 (c ∷ s))

-- fmt.Sscanf(t, "%d", &n): spaces, a sign and digits; a line feed is an error, which leaves 0
unfoldable pub scan_int : Text → ℤ
scan_int [] = pos 0
scan_int (c ∷ s) =
    let further = scan_int s in
    if c == lf then pos 0 else if is_space c then further else scan_sign (c ∷ s)

unfoldable pub int_from_any : Value → ℤ
int_from_any (num z) = z
int_from_any (str t) = scan_int t
int_from_any _ = pos 0

-- Opens every operation of this file, for evaluation.
unfoldable pub row_run : Unit {0}
unfolding ip_run field? as_string text_field scan_digits int_from_any
row_run = tt
