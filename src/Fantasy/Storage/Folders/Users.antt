-- ===== src/Fantasy/Storage/Folders/Users.antt =====
-- The folder of the users, saved and loaded: saveUser and loadUsers of TPE1/src/IO/io.c.
use so_tpe.Prelude.{
  ℕ, ◌+◌, ◌<◌, ◌≡◌, refl, ap, ◌∙◌, false, some, List, [], ◌∷◌, ◌++◌, map, All, length,
}
use so_tpe.Fantasy.Game.{User}
use so_tpe.Fantasy.Game.Names.{Distinct}
use so_tpe.Fantasy.Game.Text.{codes}
use so_tpe.Fantasy.Storage.{buffer_size}
use so_tpe.Fantasy.Storage.Objects.{load_user}
use so_tpe.Fantasy.Storage.Roundtrip.Users.{
  IsStorableUser, user_text, user_to_string-user_text, load_user-user_text,
}
use so_tpe.Fantasy.Storage.Folders.{is_dismissed}
use so_tpe.Fantasy.Storage.Folders.Games.{load_user_entry, load_users}
use so_tpe.Fantasy.Storage.Folders.Listing.{shuffle, shuffle-map, shuffle-All}
use so_tpe.Fantasy.Storage.Folders.Saved.{Document, entry, save_files, save_user, save_users}
use so_tpe.Fantasy.Storage.Folders.Files.{
  create_file_path-fits, open_file-Loads, save_files-Distinct, map_entries,
}

-- The name of a user's file.
abbrev pub user_file : User → List ℕ
user_file u = u.user ++ codes ".user"

-- A user whose file has a name that is loaded, and that fits behind a path of `n` bytes.
pub record IsRestorableUser (n : ℕ) (u : User) : Type 0 where
  pub storable : IsStorableUser u
  pub shown : is_dismissed (user_file u) ≡ false
  pub short : n + length (user_file u) < buffer_size

abbrev pub document : User → Document
document u = record { name = user_file u; bytes = user_text u }

save_users-document :
    (n : ℕ) (us : List User) → All (IsRestorableUser n) us → save_users us ≡ some (map document us)
unfolding save_users save_user
save_users-document n [] h = refl
save_users-document n (u ∷ us) (h, hs) =
    rw (user_to_string-user_text u h.storable, save_users-document n us hs) refl

load_users-document :
    (n : ℕ) (us : List User)
    → All (IsRestorableUser n) us
    → load_users n (map (λ u. entry (document u)) us) ≡ some us
unfolding load_users load_user_entry
load_users-document n [] h = refl
load_users-document n (u ∷ us) (h, hs) =
    rw
      (
        h.shown,
        create_file_path-fits n (user_file u) h.short,
        open_file-Loads load_user (user_text u) u (load_user-user_text u h.storable),
        load_users-document n us hs,
      )
      refl

-- The users are all saved, without an overflow, and loaded again, in the order in which readdir lists
-- their files. This holds for users with names and passwords that fit a line, with their numbers of
-- leagues, and with league ids of at most nine digits, if their files have different names that fit
-- the buffer behind the path, none of which begins with '.'.
pub load_users-save_users :
    (n : ℕ) (us : List User) (order : List ℕ)
    → All (IsRestorableUser n) us
    → Distinct (map (λ d. d.name) (map document us))
    → (docs : List Document) × (save_users us ≡ some docs)
      × (load_users n (shuffle order (save_files docs)) ≡ some (shuffle order us))
load_users-save_users n us order h d = (
  map document us,
  save_users-document n us h,
  ap (λ es. load_users n (shuffle order es))
        (save_files-Distinct (map document us) d
          ∙ map_entries (codes "user") load_user n document us)
      ∙ ap (load_users n) (shuffle-map (λ u. entry (document u)) order us)
      ∙ load_users-document n (shuffle order us) (shuffle-All (IsRestorableUser n) order us h),
)
