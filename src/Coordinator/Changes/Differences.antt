-- ===== src/Coordinator/Changes/Differences.antt =====
-- The differences of two lists of names, and the addresses that are kept for a denied name.
use proxmox_dns_firewall_loc.Prelude.{
  Bool, true, false, not, ◌&&◌, ◌||◌, List, [], ◌∷◌, ◌++◌, Option, none, some, Bool-cases, inl, inr,
  ◌≡◌, refl, sym, ap, ◌∙◌, arith, any,
}
use proxmox_dns_firewall_loc.Text.{
  Text, text_eq, text_eq_iff, contains, contains-append, sort_texts, trim_space,
}
use proxmox_dns_firewall_loc.Text.Order.{contains-sort_texts, IsSorted, sort_texts-IsSorted}
use proxmox_dns_firewall_loc.Ip.{Ip, parse_ip, ip_string}
use proxmox_dns_firewall_loc.Coordinator.Changes.{
  absent_names, add_canonical, canon_ips_from, canon_ips_unique_stable,
}

contains-absent_names :
    (known names : List Text) (n : Text)
    → contains (absent_names known names) n ≡ (contains names n && not (contains known n))
unfolding contains absent_names
contains-absent_names known [] n = refl
contains-absent_names known (m ∷ names) n =
    ground (arith, contains-absent_names known names n, text_eq_iff m n)

abbrev pub IsDifference : List Text → List Text → List Text → Type 0
IsDifference out keys known =
    IsSorted out × ((n : Text) → contains out n ≡ (contains keys n && not (contains known n)))

pub sort_texts-IsDifference :
    (keys known : List Text) → IsDifference (sort_texts (absent_names known keys)) keys known
sort_texts-IsDifference keys known = (
  sort_texts-IsSorted (absent_names known keys),
  λ n. contains-sort_texts (absent_names known keys) n ∙ contains-absent_names known keys n,
)

-- No text stands twice.
abbrev pub IsUnique : List Text → Type 0
IsUnique [] = Unit
IsUnique (x ∷ xs) = (contains xs x ≡ false) × IsUnique xs

IsUnique-snoc :
    (xs : List Text) (x : Text) → contains xs x ≡ false → IsUnique xs → IsUnique (xs ++ x ∷ [])
unfolding contains
IsUnique-snoc [] x e u = (refl, tt)
IsUnique-snoc (y ∷ xs) x e u = (
  ground (arith, contains-append xs (x ∷ []) y, text_eq_iff x y, text_eq_iff y x, e, u),
  IsUnique-snoc xs x (ground (arith, e)) u.1,
)

add_canonical-IsUnique :
    (out : List Text) (o : Option Ip) → IsUnique out → IsUnique (add_canonical out o)
add_canonical-IsUnique out none u = u
add_canonical-IsUnique out (some p) u = elim (Bool-cases (contains out (ip_string p))) [
  | inl e ↦ rw e u
  | inr e ↦ rw e (IsUnique-snoc out (ip_string p) e u)
]

canon_ips_from-IsUnique : (ips out : List Text) → IsUnique out → IsUnique (canon_ips_from out ips)
unfolding canon_ips_from
canon_ips_from-IsUnique [] out u = u
canon_ips_from-IsUnique (raw ∷ ips) out u =
    canon_ips_from-IsUnique ips (add_canonical out (parse_ip (trim_space raw)))
      (add_canonical-IsUnique out (parse_ip (trim_space raw)) u)

-- one of the texts reads as an address that is printed as `t`
abbrev prints : Text → Option Ip → Bool
prints t none = false
prints t (some p) = text_eq (ip_string p) t

abbrev pub is_canonical_of : Text → Text → Bool
is_canonical_of t raw = prints t (parse_ip (trim_space raw))

contains-single : (s t : Text) → contains (s ∷ []) t ≡ text_eq s t
unfolding contains
contains-single s t = ground arith

contains-add_canonical :
    (out : List Text) (o : Option Ip) (t : Text)
    → contains (add_canonical out o) t ≡ (contains out t || prints t o)
contains-add_canonical out none t = ground arith
contains-add_canonical out (some p) t = elim (Bool-cases (contains out (ip_string p))) [
  | inl e ↦ rw e (known e)
  | inr e ↦ rw e (contains-append out (ip_string p ∷ []) t ∙ ap (λ b. contains out t || b) last)
]
  where
    last : contains (ip_string p ∷ []) t ≡ text_eq (ip_string p) t
    last = contains-single (ip_string p) t

    known :
        contains out (ip_string p) ≡ true
        → contains out t ≡ (contains out t || text_eq (ip_string p) t)
    known e = elim (Bool-cases (text_eq (ip_string p) t)) [
      | inl same ↦
          let there : contains out t ≡ true =
            ap (contains out) (sym ((text_eq_iff (ip_string p) t).0 same)) ∙ e in
          ground arith
      | inr other ↦ ground arith
    ]

or_assoc : (a b c : Bool) → ((a || b) || c) ≡ (a || (b || c))
or_assoc a b c = ground arith

contains-canon_ips_from :
    (ips out : List Text) (t : Text)
    → contains (canon_ips_from out ips) t ≡ (contains out t || any (is_canonical_of t) ips)
unfolding canon_ips_from
contains-canon_ips_from [] out t = ground arith
contains-canon_ips_from (raw ∷ ips) out t =
    let o = parse_ip (trim_space raw) in
    contains-canon_ips_from ips (add_canonical out o) t
    ∙ ap (λ b. b || any (is_canonical_of t) ips) (contains-add_canonical out o t)
    ∙ or_assoc (contains out t) (prints t o) (any (is_canonical_of t) ips)

-- The addresses that are kept for a name: no text twice, and exactly the texts that an address of
-- the list is printed as.
pub canon_ips_unique_stable-canonical :
    (ips : List Text) (t : Text)
    → IsUnique (canon_ips_unique_stable ips)
      × (contains (canon_ips_unique_stable ips) t ≡ any (is_canonical_of t) ips)
unfolding canon_ips_unique_stable
canon_ips_unique_stable-canonical ips t = (
  canon_ips_from-IsUnique ips [] tt,
  contains-canon_ips_from ips [] t ∙ (unfold contains in refl),
)
