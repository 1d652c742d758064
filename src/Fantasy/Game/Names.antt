-- ===== src/Fantasy/Game/Names.antt =====
-- Names that are all different, and the loops that look for one.
use so_tpe.Prelude.{
  ℕ, zero, suc, ◌+◌, ◌≡◌, refl, ap, inl, inr, Bool, true, false, Option, none, some, List, [], ◌∷◌,
  ◌++◌, map, arith, ◌||◌, Bool-cases, Option-cases, All, length, get_elem?,
}
use so_tpe.Fantasy.Game.{same, find, remove_at, add_to_list, modify}

pub same_refl : (s : List ℕ) → same s s ≡ true
unfolding same
same_refl [] = refl
same_refl (a ∷ s) = ground (arith, same_refl s)

pub eq_of_same : (s t : List ℕ) → same s t ≡ true → s ≡ t
unfolding same
eq_of_same [] [] e = refl
eq_of_same [] (b ∷ t) e = absurd (ground arith)
eq_of_same (a ∷ s) [] e = absurd (ground arith)
eq_of_same (a ∷ s) (b ∷ t) e = ground (arith, eq_of_same s t)

pub same_sym : (s t : List ℕ) → same s t ≡ same t s
unfolding same
same_sym [] [] = refl
same_sym [] (b ∷ t) = refl
same_sym (a ∷ s) [] = refl
same_sym (a ∷ s) (b ∷ t) = ground (arith, same_sym s t)

-- Is `k` one of the names?
abbrev pub has : List ℕ → List (List ℕ) → Bool
has k [] = false
has k (x ∷ xs) = same x k || has k xs

abbrev pub Distinct : List (List ℕ) → Type 0
Distinct [] = Unit
Distinct (x ∷ xs) = (has x xs ≡ false) × Distinct xs

pub has-append :
    (k : List ℕ) (xs : List (List ℕ)) (y : List ℕ) → has k (xs ++ y ∷ []) ≡ (has k xs || same y k)
has-append k [] y = ground arith
has-append k (x ∷ xs) y = ground (arith, has-append k xs y)

pub Distinct-append :
    (xs : List (List ℕ)) (y : List ℕ) → Distinct xs → has y xs ≡ false → Distinct (xs ++ y ∷ [])
Distinct-append [] y d n = (refl, tt)
Distinct-append (x ∷ xs) y d n =
    (ground (arith, has-append x xs y, same_sym x y), Distinct-append xs y d.1 (ground arith))

has-remove_at :
    (k : List ℕ) (i : ℕ) (xs : List (List ℕ)) → has k xs ≡ false → has k (remove_at i xs) ≡ false
unfolding remove_at
has-remove_at k i [] n = n
has-remove_at k zero (x ∷ xs) n = ground arith
has-remove_at k (suc i) (x ∷ xs) n = ground (arith, has-remove_at k i xs)

pub Distinct-remove_at : (i : ℕ) (xs : List (List ℕ)) → Distinct xs → Distinct (remove_at i xs)
unfolding remove_at
Distinct-remove_at i [] d = d
Distinct-remove_at zero (x ∷ xs) d = d.1
Distinct-remove_at (suc i) (x ∷ xs) d = (has-remove_at x i xs d.0, Distinct-remove_at i xs d.1)

module _ {ℓ} {A : Type ℓ} where
  pub find-has :
      (key : A → List ℕ) (k : List ℕ) (xs : List A)
      → find (λ x. same (key x) k) xs ≡ none
      → has k (map key xs) ≡ false
  unfolding find
  find-has key k [] e = refl
  find-has key k (x ∷ xs) e = elim (Bool-cases (same (key x) k)) [
    | inl f ↦ absurd (none_ne (rw f at e))
    | inr f ↦ rw f (
        find-has key k xs (elim (Option-cases (find (λ y. same (key y) k) xs)) [
          | inl n ↦ n
          | inr (y, n) ↦ absurd (none_ne (rw (f, n) at e))
        ]))
  ]
    where
      none_ne : {y : ℕ × A} → some y ≡ none → ⊥
      none_ne e = cc

  map_self : (xs : List A) → map (λ x. x) xs ≡ xs
  map_self [] = refl
  map_self (x ∷ xs) = ap (λ ys. x ∷ ys) (map_self xs)

  none-some : {y : ℕ × A} → none ≡ some y → ⊥
  none-some e = cc

  found :
      (p : A → Bool) (y : A) (xs : List A) {i : ℕ} {x : A}
      → p y ≡ true
      → ◌≡◌ {A = Option (ℕ × A)} (some (0, y)) (some (i, x))
      → (get_elem? (y ∷ xs) i ≡ some x) × (p x ≡ true)
  found p y xs {i} {x} t e =
      let n : i ≡ 0 = ground arith in let z : y ≡ x = ground arith in rw (n, ← z) (refl, t)

  later :
      (p : A → Bool) (y : A) (xs : List A) (j : ℕ) {i : ℕ} {x z : A}
      → (get_elem? xs j ≡ some z) × (p z ≡ true)
      → ◌≡◌ {A = Option (ℕ × A)} (some (j + 1, z)) (some (i, x))
      → (get_elem? (y ∷ xs) i ≡ some x) × (p x ≡ true)
  later p y xs j {i} {x} {z} (g, t) e =
      let n : i ≡ suc j = ground arith in let w : z ≡ x = ground arith in rw (n, ← w) (g, t)

  -- What the loop finds stands at that position and passes the test.
  pub find-get_elem? :
      (p : A → Bool) (xs : List A) {i : ℕ} {x : A}
      → find p xs ≡ some (i, x)
      → (get_elem? xs i ≡ some x) × (p x ≡ true)
  unfolding find
  find-get_elem? p [] e = absurd (cc)
  find-get_elem? p (y ∷ xs) e = elim (Bool-cases (p y)) [
    | inl f ↦ found p y xs f (rw f at e)
    | inr f ↦ elim (Option-cases (find p xs)) [
      | inl n ↦ absurd (none-some (rw (f, n) at e))
      | inr ((j, z), n) ↦ later p y xs j (find-get_elem? p xs n) (rw (f, n) at e)
    ]
  ]

  pub length-modify : (i : ℕ) (f : A → A) (xs : List A) → length (modify i f xs) ≡ length xs
  unfolding modify
  length-modify i f [] = refl
  length-modify zero f (x ∷ xs) = refl
  length-modify (suc i) f (x ∷ xs) = ap suc (length-modify i f xs)

  -- A change that keeps a field keeps the row of that field.
  pub map-modify {κ} :
      {B : Type κ} (key : A → B) (i : ℕ) (f : A → A) (xs : List A)
      → ((x : A) → key (f x) ≡ key x)
      → map key (modify i f xs) ≡ map key xs
  unfolding modify
  map-modify key i f [] keep = refl
  map-modify key zero f (x ∷ xs) keep = ap (λ y. y ∷ map key xs) (keep x)
  map-modify key (suc i) f (x ∷ xs) keep = ap (λ ys. key x ∷ ys) (map-modify key i f xs keep)

  pub map-add {κ} :
      {B : Type κ} (key : A → B) (x : A) (xs : List A)
      → map key (add_to_list x xs) ≡ add_to_list (key x) (map key xs)
  map-add key x [] = refl
  map-add key x (y ∷ xs) = ap (λ ys. key y ∷ ys) (map-add key x xs)

  -- A property of every item survives a change that keeps it for the item at that position.
  pub All-modify {κ} :
      (P : A → Type κ) (i : ℕ) (f : A → A) (xs : List A)
      → All P xs
      → ((x : A) → get_elem? xs i ≡ some x → P x → P (f x))
      → All P (modify i f xs)
  unfolding modify
  All-modify P i f [] a keep = a
  All-modify P zero f (x ∷ xs) a keep = (keep x refl a.0, a.1)
  All-modify P (suc i) f (x ∷ xs) a keep = (a.0, All-modify P i f xs a.1 keep)

  pub All-add {κ} : (P : A → Type κ) (x : A) (xs : List A) → All P xs → P x → All P (xs ++ x ∷ [])
  All-add P x [] a p = (p, tt)
  All-add P x (y ∷ xs) a p = (a.0, All-add P x xs a.1 p)

-- The same for the names themselves.
pub find-has_self :
    (k : List ℕ) (xs : List (List ℕ)) → find (λ x. same x k) xs ≡ none → has k xs ≡ false
find-has_self k xs e = rw (← map_self xs) (find-has (λ x. x) k xs e)
