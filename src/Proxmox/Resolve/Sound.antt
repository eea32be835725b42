-- ===== src/Proxmox/Resolve/Sound.antt =====
-- ResolveGuestByVMID: the rows of a VMID and the guest that is resolved.
use proxmox_dns_firewall_loc.Prelude.{
  true, List, [], ◌∷◌, ◌++◌, Option, none, some, Bool-cases, inl, inr, ◌≡◌, ◌≢◌, ◌⊎◌, refl, sym,
  subst, ◌∙◌, arith, ℤ, int_eq, int_eq_sound, false, All, All-append, any, any-append,
}
use proxmox_dns_firewall_loc.Text.{
  Text, codes, text_eq, text_eq_iff, trim_space, contains, contains-add_name,
}
use proxmox_dns_firewall_loc.Proxmox.Api.{Row, ok}
use proxmox_dns_firewall_loc.Proxmox.Row.{text_field}
use proxmox_dns_firewall_loc.Proxmox.Resolve.{
  lxc_text, qemu_text, guest_kind_from_cluster_row, vmid_from_cluster_row, Hit, row_hit, hit_key,
  Hits, add_hit, add_rows, no_hits, choose, resolve_rows,
}

abbrev pub IsKind : Text → Type 0
IsKind t = (t ≡ lxc_text) ⊎ (t ≡ qemu_text)

row_hit-IsKind : (vmid : ℤ) (row : Row) (h : Hit) → row_hit vmid row ≡ some h → IsKind h.typ
unfolding row_hit
row_hit-IsKind vmid row h e =
    let kind = guest_kind_from_cluster_row row in
    ground (arith, e, text_eq_iff kind lxc_text, text_eq_iff kind qemu_text)

key_parts : (s t m n : Text) → IsKind s → IsKind t → s ++ 0 ∷ m ≡ t ++ 0 ∷ n → (s ≡ t) × (m ≡ n)
key_parts s t m n (inl a) (inl b) e = (a ∙ sym b, ground (arith, rw (a, b) at e))
key_parts s t m n (inl a) (inr b) e = cc (rw (a, b) at e)
key_parts s t m n (inr a) (inl b) e = cc (rw (a, b) at e)
key_parts s t m n (inr a) (inr b) e = (a ∙ sym b, ground (arith, rw (a, b) at e))

-- Two guests with one key are one guest.
hit_key-injective : (h k : Hit) → IsKind h.typ → IsKind k.typ → hit_key h ≡ hit_key k → h ≡ k
hit_key-injective h k a b e =
    let (t, n) = key_parts h.typ k.typ h.node k.node a b e in λ i. record { node = n i; typ = t i }

-- A row of the list names the guest `h`.
abbrev pub Names : ℤ → List Row → Hit → Type 0
Names vmid [] h = ⊥
Names vmid (row ∷ rows) h = (row_hit vmid row ≡ some h) ⊎ Names vmid rows h

Names-IsKind : (vmid : ℤ) (rows : List Row) (h : Hit) → Names vmid rows h → IsKind h.typ
Names-IsKind vmid [] h m = absurd m
Names-IsKind vmid (row ∷ rows) h (inl e) = row_hit-IsKind vmid row h e
Names-IsKind vmid (row ∷ rows) h (inr m) = Names-IsKind vmid rows h m

abbrev SeenIsHits : Hits → Type 0
SeenIsHits s = (k : Text) → contains s.seen k ≡ any (λ h. text_eq (hit_key h) k) s.hits

add_hit-SeenIsHits : (s : Hits) (o : Option Hit) → SeenIsHits s → SeenIsHits (add_hit s o)
unfolding add_hit
add_hit-SeenIsHits s none inv k = inv k
add_hit-SeenIsHits s (some h) inv k = ground (
  arith,
  inv k,
  contains-add_name s.seen (hit_key h) k,
  any-append (λ g. text_eq (hit_key g) k) s.hits (h ∷ []),
)

add_rows-SeenIsHits :
    (vmid : ℤ) (rows : List Row) (s : Hits) → SeenIsHits s → SeenIsHits (add_rows vmid s rows)
unfolding add_rows
add_rows-SeenIsHits vmid [] s inv = inv
add_rows-SeenIsHits vmid (row ∷ rows) s inv =
    add_rows-SeenIsHits vmid rows (add_hit s (row_hit vmid row))
      (add_hit-SeenIsHits s (row_hit vmid row) inv)

add_hit_mono :
    (s : Hits) (o : Option Hit) (k : Text)
    → contains s.seen k ≡ true
    → contains (add_hit s o).seen k ≡ true
unfolding add_hit
add_hit_mono s none k h = h
add_hit_mono s (some g) k h = ground (arith, h, contains-add_name s.seen (hit_key g) k)

add_rows_mono :
    (vmid : ℤ) (rows : List Row) (s : Hits) (k : Text)
    → contains s.seen k ≡ true
    → contains (add_rows vmid s rows).seen k ≡ true
unfolding add_rows
add_rows_mono vmid [] s k h = h
add_rows_mono vmid (row ∷ rows) s k h =
    add_rows_mono vmid rows (add_hit s (row_hit vmid row)) k (add_hit_mono s (row_hit vmid row) k h)

add_hit_self : (s : Hits) (h : Hit) → contains (add_hit s (some h)).seen (hit_key h) ≡ true
unfolding add_hit
add_hit_self s h =
    ground
      (arith, contains-add_name s.seen (hit_key h) (hit_key h), text_eq_iff (hit_key h) (hit_key h))

-- Every row that names a guest leaves its key.
add_rows_seen :
    (vmid : ℤ) (rows : List Row) (s : Hits)
    → All
        (λ row.
          (k : Hit)
          → row_hit vmid row ≡ some k
          → contains (add_rows vmid s rows).seen (hit_key k) ≡ true)
        rows
unfolding add_rows
add_rows_seen vmid [] s = tt
add_rows_seen vmid (row ∷ rows) s = (
  λ k e.
      let s' = add_hit s (row_hit vmid row) in
      add_rows_mono vmid rows s' (hit_key k)
        (subst (λ o. contains (add_hit s o).seen (hit_key k) ≡ true) (sym e) (add_hit_self s k)),
  add_rows_seen vmid rows (add_hit s (row_hit vmid row)),
)

module _ (P : Hit → Type 0) (vmid : ℤ) where
  add_hit-All :
      (s : Hits) (o : Option Hit)
      → ((h : Hit) → o ≡ some h → P h)
      → All P s.hits
      → All P (add_hit s o).hits
  unfolding add_hit
  add_hit-All s none f a = a
  add_hit-All s (some h) f a = elim (Bool-cases (contains s.seen (hit_key h))) [
    | inl old ↦ rw old a
    | inr new ↦ rw new (All-append P s.hits (h ∷ []) a (f h refl, tt))
  ]

  add_rows-All :
      (rows : List Row) (s : Hits)
      → ((h : Hit) → Names vmid rows h → P h)
      → All P s.hits
      → All P (add_rows vmid s rows).hits
  unfolding add_rows
  add_rows-All [] s f a = a
  add_rows-All (row ∷ rows) s f a =
      add_rows-All rows (add_hit s (row_hit vmid row)) (λ h m. f h (inr m))
        (add_hit-All s (row_hit vmid row) (λ h e. f h (inl e)) a)

choose-ok : (vmid : ℤ) (hits : List Hit) (h : Hit) → choose vmid hits ≡ ok h → hits ≡ h ∷ []
unfolding choose
choose-ok vmid [] h e = cc
choose-ok vmid (g ∷ []) h e = cc
choose-ok vmid (g ∷ k ∷ hits) h e = cc

All-map :
    (P Q : Row → Type 0) (rows : List Row) → ((row : Row) → P row → Q row) → All P rows → All Q rows
All-map P Q [] f a = tt
All-map P Q (row ∷ rows) f a = (f row a.0, All-map P Q rows f a.1)

resolve_rows-ok :
    (vmid : ℤ) (rows : List Row) (h : Hit)
    → resolve_rows vmid rows ≡ ok h
    → Names vmid rows h × All (λ row. (k : Hit) → row_hit vmid row ≡ some k → k ≡ h) rows
unfolding resolve_rows
resolve_rows-ok vmid rows h e =
    let s = add_rows vmid no_hits rows in
    let one : s.hits ≡ h ∷ [] = choose-ok vmid s.hits h e in
    let from = add_rows-All (Names vmid rows) vmid rows no_hits (λ g m. m) tt in
    let named : Names vmid rows h = (rw one at from).0 in
    let inv = add_rows-SeenIsHits vmid rows no_hits (λ k. unfold contains in refl) in
    (
      named,
      All-map (λ row. (k : Hit) → row_hit vmid row ≡ some k → contains s.seen (hit_key k) ≡ true)
          (λ row. (k : Hit) → row_hit vmid row ≡ some k → k ≡ h) rows
          (λ row seen k is_k.
            let only : text_eq (hit_key h) (hit_key k) ≡ true =
              ground (arith, seen k is_k, inv (hit_key k), one) in
            sym (
              hit_key-injective h k (Names-IsKind vmid rows h named)
                (row_hit-IsKind vmid row k is_k) ((text_eq_iff (hit_key h) (hit_key k)).0 only)))
          (add_rows_seen vmid rows no_hits),
    )

-- The row has the VMID, and the kind and the node of the guest.
abbrev pub Describes : ℤ → Hit → Row → Type 0
Describes vmid h row =
    (vmid_from_cluster_row row ≡ vmid)
    × (guest_kind_from_cluster_row row ≡ h.typ)
    × (trim_space (text_field (codes "node") row) ≡ h.node)
    × (h.node ≢ [])

abbrev pub SomeRow : (Row → Type 0) → List Row → Type 0
SomeRow P [] = ⊥
SomeRow P (row ∷ rows) = P row ⊎ SomeRow P rows

row_hit-Describes :
    (vmid : ℤ) (row : Row) (h : Hit) → row_hit vmid row ≡ some h → Describes vmid h row
unfolding row_hit
row_hit-Describes vmid row h e =
    let node = trim_space (text_field (codes "node") row) in
    let same : int_eq (vmid_from_cluster_row row) vmid ≡ true = ground (arith, e) in
    let named : text_eq node [] ≡ false = ground (arith, e) in
    let typ : guest_kind_from_cluster_row row ≡ h.typ = ground (arith, e) in
    let on : node ≡ h.node = ground (arith, e) in
    (
      int_eq_sound (vmid_from_cluster_row row) vmid same,
      typ,
      on,
      λ empty. ground (arith, named, on, empty, text_eq_iff node []),
    )

Names-Describes :
    (vmid : ℤ) (rows : List Row) (h : Hit) → Names vmid rows h → SomeRow (Describes vmid h) rows
Names-Describes vmid [] h m = m
Names-Describes vmid (row ∷ rows) h (inl e) = inl (row_hit-Describes vmid row h e)
Names-Describes vmid (row ∷ rows) h (inr m) = inr (Names-Describes vmid rows h m)

-- A guest that is resolved is a container or a virtual machine on a node with a name, and some row
-- of the list has the VMID that was asked for, this kind and this node.
pub resolve_rows-Describes :
    (vmid : ℤ) (rows : List Row) (h : Hit)
    → resolve_rows vmid rows ≡ ok h
    → IsKind h.typ × SomeRow (Describes vmid h) rows
resolve_rows-Describes vmid rows h e =
    let named = (resolve_rows-ok vmid rows h e).0 in
    (Names-IsKind vmid rows h named, Names-Describes vmid rows h named)

Names-elim :
    (vmid : ℤ) (rows : List Row) (h k : Hit)
    → All (λ row. (k : Hit) → row_hit vmid row ≡ some k → k ≡ h) rows
    → Names vmid rows k
    → k ≡ h
Names-elim vmid [] h k a m = absurd m
Names-elim vmid (row ∷ rows) h k a (inl e) = a.0 k e
Names-elim vmid (row ∷ rows) h k a (inr m) = Names-elim vmid rows h k a.1 m

-- Where a guest is resolved, every row of the VMID that names a guest names that one: two guests
-- with one VMID are never resolved to one of them.
pub resolve_rows-only :
    (vmid : ℤ) (rows : List Row) (h k : Hit)
    → resolve_rows vmid rows ≡ ok h
    → Names vmid rows k
    → k ≡ h
resolve_rows-only vmid rows h k e m = Names-elim vmid rows h k (resolve_rows-ok vmid rows h e).1 m
