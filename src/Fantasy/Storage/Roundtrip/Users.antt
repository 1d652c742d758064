-- ===== src/Fantasy/Storage/Roundtrip/Users.antt =====
-- Users and the ids of their leagues: userToString and loadUser of TPE1/src/IO/io.c.
use so_tpe.Prelude.{
  ℕ, zero, suc, ◌+◌, ◌%◌, ◌^◌, ◌*◌, ◌/◌, ◌≤◌, ◌<◌, ◌≡◌, refl, inl, inr, true, false, Option, some,
  List, [], ◌∷◌, ◌++◌, ltb, leb, arith, All, length, Bool-cases,
}
use so_tpe.Fantasy.Game.{User}
use so_tpe.Fantasy.Game.Answer.{digits, decimal}
use native.Mathlib.Nat.{pow-suc}
use so_tpe.Fantasy.Storage.{newline, Reader}
use so_tpe.Fantasy.Storage.Objects.{
  rounds, read_ids, load_user, line, itoa, ids_text, ids_size, user_to_string,
}
use so_tpe.Fantasy.Storage.Lines.{Fits, reader}
use so_tpe.Fantasy.Storage.Numbers.{itoa-decimal}
use so_tpe.Fantasy.Storage.Roundtrip.{
  Loads, run, read_text_step, read_int_step, read_int_last_step, rounds-small,
}

read_ids-ids_text :
    (ids : List ℕ) (aux : Option (List ℕ))
    → All (λ id. id < 2 ^ 32) ids
    → (r : Reader) × (read_ids (length ids) (reader aux (ids_text ids)) ≡ some (ids, r))
unfolding read_ids ids_text
read_ids-ids_text [] aux f = (reader aux [], refl)
read_ids-ids_text (id ∷ []) aux (f, g) =
    (reader (some (decimal id)) [], rw (itoa-decimal id f) (read_int_last_step _ _ id f refl))
read_ids-ids_text (id ∷ id' ∷ ids) aux (f, g) =
    let (r, e) = read_ids-ids_text (id' ∷ ids) (some (decimal id ++ newline ∷ [])) g in
    (
      r,
      rw (itoa-decimal id f)
          (read_int_step _ _ id f (run (read_ids (length (id' ∷ ids))) _ e refl)),
    )

-- A number below `10 ^ k` has `k` digits at most.
length-digits :
    (fuel k n : ℕ) (acc : List ℕ) → n < 10 ^ suc k → length (digits fuel n acc) ≤ suc k + length acc
unfolding digits
length-digits zero k n acc h = omega arith
length-digits (suc fuel) zero n acc h = let e : ltb n 10 ≡ true = ground arith in rw e (omega arith)
length-digits (suc fuel) (suc k) n acc h = elim (Bool-cases (ltb n 10)) [
  | inl e ↦ rw e (omega arith)
  | inr e ↦
      let p : 10 ^ suc (suc k) ≡ 10 ^ suc k * 10 = pow-suc 10 (suc k) in
      let less : n / 10 < 10 ^ suc k = omega arith in
      let d = length-digits fuel k (n / 10) ((48 + n % 10) ∷ acc) less in rw e (omega arith)
]

length-itoa : (id : ℕ) → id < 10 ^ 9 → length (itoa id) ≤ 9
unfolding decimal
length-itoa id h =
    let e : leb (2 ^ 31) id ≡ false = ground arith in
    let d = length-digits 10 8 id [] h in rw (itoa-decimal id (omega arith)) (rw e (omega arith))

ids_size-le : (ids : List ℕ) → All (λ id. id < 10 ^ 9) ids → ids_size ids ≤ 10 * length ids
unfolding ids_size
ids_size-le [] f = omega arith
ids_size-le (id ∷ ids) (f, g) = let a = length-itoa id f in let b = ids_size-le ids g in omega arith

words : (ids : List ℕ) → All (λ id. id < 10 ^ 9) ids → All (λ id. id < 2 ^ 32) ids
words [] f = tt
words (id ∷ ids) (f, g) = (omega arith, words ids g)

-- A user whose name and password fit a line, with its number of leagues, whose ids have at most nine
-- digits.
pub record IsStorableUser (u : User) : Type 0 where
  pub user : Fits u.user
  pub pass : Fits u.pass
  pub ids : All (λ id. id < 10 ^ 9) u.leagues_ids
  pub leagues : u.leagues ≡ length u.leagues_ids
  pub few : u.leagues < 2 ^ 31

read_ids-count :
    (n : ℕ) (ids : List ℕ) (aux : Option (List ℕ))
    → n ≡ length ids
    → n < 2 ^ 31
    → All (λ id. id < 2 ^ 32) ids
    → (r : Reader) × (read_ids (rounds n) (reader aux (ids_text ids)) ≡ some (ids, r))
read_ids-count n ids aux e h f = rw (rounds-small n h) (rw e (read_ids-ids_text ids aux f))

-- The file of a user.
abbrev pub user_text : User → List ℕ
user_text u = line u.user (line u.pass (line (decimal u.leagues) (ids_text u.leagues_ids)))

pub user_to_string-user_text : (u : User) → IsStorableUser u → user_to_string u ≡ some (user_text u)
unfolding user_to_string
user_to_string-user_text u f =
    let a = ids_size-le u.leagues_ids f.ids in
    let leagues = f.leagues in
    let e : ltb (10 * u.leagues) (ids_size u.leagues_ids) ≡ false = ground arith in rw e refl

pub load_user-user_text : (u : User) → IsStorableUser u → Loads load_user (user_text u) u
unfolding load_user
load_user-user_text u f =
    let few = f.few in
    let ids = words u.leagues_ids f.ids in
    let aux = some (decimal u.leagues ++ newline ∷ []) in
    let (r, d) = read_ids-count u.leagues u.leagues_ids aux f.leagues f.few ids in
    (
      r,
      read_text_step _ _ u.user f.user (
          read_text_step _ _ u.pass f.pass (
            read_int_step _ _ u.leagues (omega arith)
              (run (read_ids (rounds u.leagues)) _ d refl))),
    )

-- Such a user is saved without an overflow, and what is saved is loaded as the user.
pub load_user-user_to_string :
    (u : User)
    → IsStorableUser u
    → (text : List ℕ) × (user_to_string u ≡ some text) × Loads load_user text u
load_user-user_to_string u f = (user_text u, user_to_string-user_text u f, load_user-user_text u f)
