-- ===== src/Text/Order.antt =====
-- sort.Strings: order, membership, and permutations.
use mathlib.Core.Logic.{∥∥₁_elim}
use mathlib.Core.List.{Perm, Permᴰ}
use mathlib.Core.Path.{ap₂}
use proxmox_dns_firewall_loc.Prelude.{
  Bool, true, false, ◌||◌, List, [], ◌∷◌, Bool-cases, inl, inr, ◌≡◌, refl, sym, ap, ◌∙◌, arith, All,
  any,
}
use proxmox_dns_firewall_loc.Text.{Text, text_eq, text_le, insert_text, sort_texts, contains}

text_le_total : (s t : Text) → text_le s t ≡ false → text_le t s ≡ true
unfolding text_le
text_le_total [] t h = cc
text_le_total (c ∷ s) [] h = refl
text_le_total (c ∷ s) (d ∷ t) h = ground (arith, text_le_total s t)

pub text_le_antisym : (s t : Text) → text_le s t ≡ true → text_le t s ≡ true → s ≡ t
unfolding text_le
text_le_antisym [] [] h k = refl
text_le_antisym [] (d ∷ t) h k = cc
text_le_antisym (c ∷ s) [] h k = cc
text_le_antisym (c ∷ s) (d ∷ t) h k = ground (arith, text_le_antisym s t)

text_le_trans : (s t u : Text) → text_le s t ≡ true → text_le t u ≡ true → text_le s u ≡ true
unfolding text_le
text_le_trans [] t u h k = refl
text_le_trans (c ∷ s) [] u h k = cc
text_le_trans (c ∷ s) (d ∷ t) [] h k = cc
text_le_trans (c ∷ s) (d ∷ t) (e ∷ u) h k = ground (arith, text_le_trans s t u)

pub any-insert_text :
    (p : Text → Bool) (x : Text) (ys : List Text) → any p (insert_text x ys) ≡ (p x || any p ys)
unfolding insert_text
any-insert_text p x [] = refl
any-insert_text p x (y ∷ ys) = ground (arith, any-insert_text p x ys)

-- Whatever some line satisfies is satisfied after the sort, and nothing else.
pub any-sort_texts : (p : Text → Bool) (xs : List Text) → any p (sort_texts xs) ≡ any p xs
unfolding sort_texts
any-sort_texts p [] = refl
any-sort_texts p (x ∷ xs) =
    any-insert_text p x (sort_texts xs) ∙ ap (λ b. p x || b) (any-sort_texts p xs)

contains-any : (s : List Text) (n : Text) → contains s n ≡ any (λ m. text_eq m n) s
unfolding contains
contains-any [] n = refl
contains-any (m ∷ s) n = ap (λ b. text_eq m n || b) (contains-any s n)

pub contains-sort_texts : (s : List Text) (n : Text) → contains (sort_texts s) n ≡ contains s n
contains-sort_texts s n =
    contains-any (sort_texts s) n ∙ any-sort_texts (λ m. text_eq m n) s ∙ sym (contains-any s n)

abbrev pub IsSorted : List Text → Type 0
IsSorted [] = Unit
IsSorted (x ∷ xs) = All (λ y. text_le x y ≡ true) xs × IsSorted xs

All-insert_text :
    (P : Text → Type 0) (x : Text) (ys : List Text) → P x → All P ys → All P (insert_text x ys)
unfolding insert_text
All-insert_text P x [] px h = (px, tt)
All-insert_text P x (y ∷ ys) px h = elim (Bool-cases (text_le x y)) [
  | inl le ↦ rw le (px, h)
  | inr gt ↦ rw gt (h.0, All-insert_text P x ys px h.1)
]

All-text_le :
    (x y : Text) (ys : List Text)
    → text_le x y ≡ true
    → All (λ z. text_le y z ≡ true) ys
    → All (λ z. text_le x z ≡ true) ys
All-text_le x y [] h k = tt
All-text_le x y (z ∷ ys) h k = (text_le_trans x y z h k.0, All-text_le x y ys h k.1)

insert_text-IsSorted : (x : Text) (ys : List Text) → IsSorted ys → IsSorted (insert_text x ys)
unfolding insert_text
insert_text-IsSorted x [] h = (tt, tt)
insert_text-IsSorted x (y ∷ ys) h = elim (Bool-cases (text_le x y)) [
  | inl le ↦ rw le ((le, All-text_le x y ys le h.0), h)
  | inr gt ↦ rw gt (
    All-insert_text (λ z. text_le y z ≡ true) x ys (text_le_total x y gt) h.0,
    insert_text-IsSorted x ys h.1,
  )
]

pub sort_texts-IsSorted : (xs : List Text) → IsSorted (sort_texts xs)
unfolding sort_texts
sort_texts-IsSorted [] = tt
sort_texts-IsSorted (x ∷ xs) = insert_text-IsSorted x (sort_texts xs) (sort_texts-IsSorted xs)

insert_text_le :
    (x y : Text) (ys : List Text) → text_le x y ≡ true → insert_text x (y ∷ ys) ≡ x ∷ y ∷ ys
unfolding insert_text
insert_text_le x y ys h = rw h

insert_text_gt :
    (x y : Text) (ys : List Text)
    → text_le x y ≡ false
    → insert_text x (y ∷ ys) ≡ y ∷ insert_text x ys
unfolding insert_text
insert_text_gt x y ys h = rw h

insert_text_swap :
    (x y : Text) (l : List Text)
    → text_le x y ≡ true
    → insert_text x (insert_text y l) ≡ insert_text y (insert_text x l)
unfolding insert_text
insert_text_swap x y [] h = ground (arith, text_le_antisym x y)
insert_text_swap x y (z ∷ l) h =
    ground (arith, text_le_antisym x y, text_le_trans x y z, insert_text_swap x y l)

-- The order in which two keys are met makes no difference.
insert_text_comm :
    (x y : Text) (l : List Text) → insert_text x (insert_text y l) ≡ insert_text y (insert_text x l)
insert_text_comm x y l = elim (Bool-cases (text_le x y)) [
  | inl le ↦ insert_text_swap x y l le
  | inr gt ↦ sym (insert_text_swap y x l (text_le_total x y gt))
]

sort_texts-Permᴰ : {xs ys : List Text} → Permᴰ xs ys → sort_texts xs ≡ sort_texts ys
unfolding sort_texts
sort_texts-Permᴰ Permᴰ.nil = refl
sort_texts-Permᴰ (Permᴰ.cons e p) = ap₂ insert_text e (sort_texts-Permᴰ p)
sort_texts-Permᴰ (Permᴰ.swap {a} {b} {l = l} e f) =
    rw (← e, ← f) (insert_text_comm a b (sort_texts l))
sort_texts-Permᴰ (Permᴰ.trans p q) = sort_texts-Permᴰ p ∙ sort_texts-Permᴰ q

Texts-set : IsSet (List Text)
Texts-set = hlevel

-- A map's keys come out of the sort the same, whatever order the map was walked in.
pub sort_texts-perm : {xs ys : List Text} → Perm xs ys → sort_texts xs ≡ sort_texts ys
sort_texts-perm {xs} {ys} p =
    ∥∥₁_elim p (Texts-set (sort_texts xs) (sort_texts ys)) sort_texts-Permᴰ

pub All-sort_texts : (P : Text → Type 0) (xs : List Text) → All P xs → All P (sort_texts xs)
unfolding sort_texts
All-sort_texts P [] h = tt
All-sort_texts P (x ∷ xs) h = All-insert_text P x (sort_texts xs) h.0 (All-sort_texts P xs h.1)
