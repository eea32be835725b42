-- ===== src/Text/Newlines.antt =====
-- The two replacements that unify line ends, and what they do to trimming.
use proxmox_dns_firewall_loc.Prelude.{
  ℕ, [], ◌∷◌, ◌==◌, if◌then◌else◌, Bool-cases, inl, inr, ◌≡◌, refl, sym, ap, ◌∙◌, arith,
}
use proxmox_dns_firewall_loc.Text.{
  Text, is_space, trim_left, trim_right, trim_space, push_kept, replace_crlf, replace_cr, lf, cr,
}

abbrev as_lf : ℕ → ℕ
as_lf c = if c == cr then lf else c

is_space-as_lf : (c : ℕ) → is_space (as_lf c) ≡ is_space c
unfolding is_space
is_space-as_lf c = ground arith

-- A line end is a space whichever character it is.
replace_cr-trim_left :
    (s : Text) → replace_cr (trim_left is_space s) ≡ trim_left is_space (replace_cr s)
unfolding trim_left replace_cr
replace_cr-trim_left [] = refl
replace_cr-trim_left (c ∷ s) = elim (Bool-cases (is_space c)) [
  | inl e ↦ rw (e, is_space-as_lf c, e) (replace_cr-trim_left s)
  | inr e ↦ rw (e, is_space-as_lf c, e) refl
]

replace_cr-push_kept :
    (c : ℕ) (s : Text)
    → replace_cr (push_kept is_space c s) ≡ push_kept is_space (as_lf c) (replace_cr s)
unfolding replace_cr
replace_cr-push_kept c [] = elim (Bool-cases (is_space c)) [
  | inl e ↦ rw (e, is_space-as_lf c, e) refl
  | inr e ↦ rw (e, is_space-as_lf c, e) refl
]
replace_cr-push_kept c (d ∷ s) = refl

replace_cr-trim_right :
    (s : Text) → replace_cr (trim_right is_space s) ≡ trim_right is_space (replace_cr s)
unfolding trim_right replace_cr
replace_cr-trim_right [] = refl
replace_cr-trim_right (c ∷ s) =
    replace_cr-push_kept c (trim_right is_space s)
    ∙ ap (push_kept is_space (as_lf c)) (replace_cr-trim_right s)

pub replace_cr-trim_space : (s : Text) → replace_cr (trim_space s) ≡ trim_space (replace_cr s)
unfolding trim_space
replace_cr-trim_space s =
    replace_cr-trim_right (trim_left is_space s) ∙ ap (trim_right is_space) (replace_cr-trim_left s)

-- After the second replacement there is nothing left for the two to do.
replace_crlf-replace_cr : (s : Text) → replace_crlf (replace_cr s) ≡ replace_cr s
unfolding replace_crlf replace_cr
replace_crlf-replace_cr [] = refl
replace_crlf-replace_cr (c ∷ s) = ground (arith, replace_crlf-replace_cr s)

replace_cr_idem : (s : Text) → replace_cr (replace_cr s) ≡ replace_cr s
unfolding replace_cr
replace_cr_idem [] = refl
replace_cr_idem (c ∷ s) = ground (arith, replace_cr_idem s)

-- Unified line ends make no difference to a text that is unified and trimmed.
pub unify_trim_idem :
    (s : Text)
    → trim_space (replace_cr (trim_space (replace_crlf (replace_cr s))))
      ≡ trim_space (replace_cr (trim_space s))
unify_trim_idem s =
    ap (λ t. trim_space (replace_cr (trim_space t))) (replace_crlf-replace_cr s)
    ∙ ap trim_space (replace_cr-trim_space (replace_cr s))
    ∙ ap (λ t. trim_space (trim_space t)) (replace_cr_idem s)
    ∙ ap trim_space (sym (replace_cr-trim_space s))
