-- ===== src/Fantasy/Storage/Folders/Files.antt =====
-- Files that are loaded as they were saved: the loop of loadTeams and loadTrades of TPE1/src/IO/io.c.
use so_tpe.Prelude.{
  ℕ, ◌+◌, ◌<◌, ◌≡◌, refl, sym, ap, ◌∙◌, true, false, some, List, [], ◌∷◌, ◌++◌, append_assoc,
  append-nil, map, ltb, arith, All, length, ◌==◌,
}
use so_tpe.Fantasy.Game.Names.{Distinct}
use so_tpe.Fantasy.Storage.{Reads, buffer_size}
use so_tpe.Fantasy.Storage.Objects.{reverse}
use so_tpe.Fantasy.Storage.Roundtrip.{Loads}
use so_tpe.Fantasy.Storage.Folders.{
  is_dismissed, ends_in, is_ext, create_file_path, open_file, load_entry, load_entries,
}
use so_tpe.Fantasy.Storage.Folders.Listing.{shuffle, shuffle-map, shuffle-All}
use so_tpe.Fantasy.Storage.Folders.Saved.{Document, entry, save_files}

reverse-append : (s t : List ℕ) → reverse (s ++ t) ≡ reverse t ++ reverse s
unfolding reverse
reverse-append [] t = sym (append-nil (reverse t))
reverse-append (c ∷ s) t =
    ap (λ r. r ++ c ∷ []) (reverse-append s t) ∙ append_assoc (reverse t) (reverse s) (c ∷ [])

ends_in-append : (e s : List ℕ) → ends_in e (e ++ s) ≡ some true
ends_in-append [] s = refl
ends_in-append (c ∷ e) s =
    let same : (c == c) ≡ true = ground arith in rw (same, ends_in-append e s) refl

-- A name has the extension that it was given.
pub is_ext-append : (name ext : List ℕ) → is_ext (name ++ ext) ext ≡ some true
unfolding is_ext
is_ext-append name ext =
    ap (ends_in (reverse ext)) (reverse-append name ext)
    ∙ ends_in-append (reverse ext) (reverse name)

pub create_file_path-fits :
    (n : ℕ) (name : List ℕ)
    → n + length name < buffer_size
    → create_file_path n name ≡ some (n + length name)
unfolding create_file_path
create_file_path-fits n name h =
    let e : ltb (n + length name) buffer_size ≡ true = ground arith in rw e refl

pub open_file-Loads :
    {A : Type 0} (m : Reads A) (bytes : List ℕ) (a : A)
    → Loads m bytes a
    → open_file m bytes ≡ some a
unfolding open_file
open_file-Loads m bytes a (r, e) = rw e refl

-- A document that is loaded from its file, in a folder with a path of `n` bytes.
pub record Restores {A : Type 0} (ext : List ℕ) (load : Reads A) (n : ℕ) (d : Document) (a : A)
    : Type 0 where
  pub shown : is_dismissed d.name ≡ false
  pub short : n + length d.name < buffer_size
  pub named : is_ext d.name ext ≡ some true
  pub loads : Loads load d.bytes a

pub save_files-Distinct :
    (ds : List Document) → Distinct (map (λ d. d.name) ds) → save_files ds ≡ map entry ds
unfolding save_files
save_files-Distinct [] h = refl
save_files-Distinct (d ∷ ds) (h, hs) = rw (h, save_files-Distinct ds hs) refl

module _ {A : Type 0} (ext : List ℕ) (load : Reads A) (n : ℕ) (save : A → Document) where
  load_entry-entry :
      (a : A)
      → Restores ext load n (save a) a
      → load_entry ext load n (entry (save a)) ≡ some (a ∷ [])
  unfolding load_entry
  load_entry-entry a r =
      rw
        (
          r.shown,
          create_file_path-fits n (save a).name r.short,
          r.named,
          open_file-Loads load (save a).bytes a r.loads,
        )
        refl

  load_entries-entries :
      (xs : List A)
      → All (λ a. Restores ext load n (save a) a) xs
      → load_entries ext load n (map (λ a. entry (save a)) xs) ≡ some xs
  unfolding load_entries
  load_entries-entries [] h = refl
  load_entries-entries (a ∷ xs) (h, hs) = rw (load_entry-entry a h, load_entries-entries xs hs) refl

  pub map_entries : (xs : List A) → map entry (map save xs) ≡ map (λ a. entry (save a)) xs
  map_entries [] = refl
  map_entries (a ∷ xs) = ap (λ es. entry (save a) ∷ es) (map_entries xs)

  -- Documents of different names are loaded as they were saved, in the order of the listing.
  pub load_entries-save_files :
      (order : List ℕ) (xs : List A)
      → Distinct (map (λ d. d.name) (map save xs))
      → All (λ a. Restores ext load n (save a) a) xs
      → load_entries ext load n (shuffle order (save_files (map save xs))) ≡ some (shuffle order xs)
  load_entries-save_files order xs h r =
      ap (λ es. load_entries ext load n (shuffle order es))
        (save_files-Distinct (map save xs) h ∙ map_entries xs)
      ∙ ap (load_entries ext load n) (shuffle-map (λ a. entry (save a)) order xs)
      ∙ load_entries-entries (shuffle order xs)
          (shuffle-All (λ a. Restores ext load n (save a) a) order xs r)
