-- ===== src/Config/Laws.antt =====
-- What Load reads after Save.
use proxmox_dns_firewall_loc.Prelude.{
  ℕ, Bool, true, false, none, some, ◌⊎◌, ◌&&◌, [], ◌∷◌, ◌++◌, if◌then◌else◌, Bool-cases, inl, inr,
  ◌≡◌, refl, ap, ◌∙◌, arith,
}
use proxmox_dns_firewall_loc.Text.{Text, codes, text_eq, text_eq_refl}
use proxmox_dns_firewall_loc.Config.{
  Settings, cleaned, decoded, store, save_at, load_file, missing, garbage, File, json,
  loaded_settings, path_or_default, SaveError, chmod_error, Outcomes, tmp_of, load, save,
}

text_eq-longer : (s : Text) (c : ℕ) (t : Text) → text_eq s (s ++ c ∷ t) ≡ false
unfolding text_eq
text_eq-longer [] c t = refl
text_eq-longer (d ∷ s) c t = ground (arith, text_eq-longer s c t)

text_eq-tmp : (p : Text) → text_eq p (tmp_of p) ≡ false
text_eq-tmp p = text_eq-longer p b'.' (codes "tmp")

store-same : (p : Text) (file : File) (disk : Text → File) → store p file disk p ≡ file
store-same p file disk = rw (text_eq_refl p) refl

store-other :
    (p q : Text) (file : File) (disk : Text → File)
    → text_eq q p ≡ false
    → store p file disk q ≡ disk q
store-other p q file disk e = rw e refl

tmp-other : (p : Text) (file : File) (disk : Text → File) → store (tmp_of p) file disk p ≡ disk p
tmp-other p file disk = store-other (tmp_of p) p file disk (text_eq-tmp p)

-- The file that stands at the path after a save.
save_at-file :
    (p : Text) (s : Settings) (done : Outcomes) (disk : Text → File)
    → (save_at p s done disk).1 p
      ≡ (if done.written && done.renamed then json (decoded s) else disk p)
save_at-file p s done disk = elim (Bool-cases done.written) [
  | inr w ↦ rw w (tmp-other p garbage disk)
  | inl w ↦ elim (Bool-cases done.renamed) [
    | inr r ↦ rw (w, r) (tmp-other p missing disk)
    | inl r ↦
        rw (w, r)
          (tmp-other p missing (store p (json (decoded s)) disk)
            ∙ store-same p (json (decoded s)) disk)
  ]
]

-- After a save, whatever its outcome, a load of the same path gives the settings that were saved,
-- cleaned, if they were written and renamed, and what it gave before if not: a save that fails in
-- between does not harm the file.
pub load-save :
    (path : Text) (s : Settings) (done : Outcomes) (disk : Text → File)
    → load path (save path s done disk).1 ≡ (
        if done.written && done.renamed
        then loaded_settings (cleaned (path_or_default path) s)
        else load path disk)
unfolding load save cleaned
load-save path s done disk =
    let p = path_or_default path in
    ap (load_file p) (save_at-file p s done disk)
    ∙ elim (Bool-cases (done.written && done.renamed)) [ inl e ↦ rw e refl | inr e ↦ rw e refl ]

-- a save that reports no error has put the settings in place
pub save-none :
    (path : Text) (s : Settings) (done : Outcomes) (disk : Text → File)
    → (save path s done disk).0 ≡ none
    → done.written && done.renamed ≡ true
unfolding save
save-none path s done disk e = outcome done.written done.renamed done.changed_mode e
  where
    outcome :
        (written renamed changed_mode : Bool)
        → (save_at
            (path_or_default path)
            s
            (record { written = written; renamed = renamed; changed_mode = changed_mode })
            disk).0
          ≡ none
        → written && renamed ≡ true
    outcome false renamed changed_mode e = cc
    outcome true false changed_mode e = cc
    outcome true true changed_mode e = refl

-- one that reports an error has not, unless the error is the last one
pub save-some :
    (path : Text) (s : Settings) (done : Outcomes) (disk : Text → File) (x : SaveError)
    → (save path s done disk).0 ≡ some x
    → (done.written && done.renamed ≡ false) ⊎ (x ≡ chmod_error)
unfolding save
save-some path s done disk x e = outcome done.written done.renamed done.changed_mode e
  where
    outcome :
        (written renamed changed_mode : Bool)
        → (save_at
            (path_or_default path)
            s
            (record { written = written; renamed = renamed; changed_mode = changed_mode })
            disk).0
          ≡ some x
        → (written && renamed ≡ false) ⊎ (x ≡ chmod_error)
    outcome false renamed changed_mode e = inl refl
    outcome true false changed_mode e = inl refl
    outcome true true false e = inr cc
    outcome true true true e = cc
