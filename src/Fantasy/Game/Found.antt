-- ===== src/Fantasy/Game/Found.antt =====
-- The nested loops: what they find stands where they say.
use so_tpe.Prelude.{
  ℕ, suc, ◌+◌, ◌≡◌, refl, inl, inr, Bool, true, Option, none, some, List, [], ◌∷◌, arith,
  Option-cases, get_elem?,
}
use so_tpe.Fantasy.Game.{find, find_in}
use so_tpe.Fantasy.Game.Names.{find-get_elem?}

-- Where the item of an inner list stands.
pub record FoundIn {ℓ κ} {A : Type ℓ} {B : Type κ} (inner : A → List B) (p : B → Bool) (xs : List A)
    (i : ℕ) (x : A) (j : ℕ) (y : B) : Type (ℓ ⊔ κ) where
  pub outside : get_elem? xs i ≡ some x
  pub inside : get_elem? (inner x) j ≡ some y
  pub passes : p y ≡ true

module _ {ℓ κ} {A : Type ℓ} {B : Type κ} (inner : A → List B) (p : B → Bool) where
  at_head :
      (z : A) (zs : List A) (k : ℕ) (w : B) {i : ℕ} {x : A} {j : ℕ} {y : B}
      → find p (inner z) ≡ some (k, w)
      → ◌≡◌ {A = Option (ℕ × A × ℕ × B)} (some (0, z, k, w)) (some (i, x, j, y))
      → FoundIn inner p (z ∷ zs) i x j y
  at_head z zs k w {i} {x} {j} {y} f e =
      let n : i ≡ 0 = ground arith in
      let a : z ≡ x = ground arith in
      let m : k ≡ j = ground arith in
      let b : w ≡ y = ground arith in
      rw (n, ← a, ← m, ← b)
        (record {
          outside = refl;
          inside = (find-get_elem? p (inner z) f).0;
          passes = (find-get_elem? p (inner z) f).1;
        })

  in_tail :
      (z : A) (zs : List A) (n : ℕ) (v : A) (k : ℕ) (w : B) {i : ℕ} {x : A} {j : ℕ} {y : B}
      → FoundIn inner p zs n v k w
      → ◌≡◌ {A = Option (ℕ × A × ℕ × B)} (some (n + 1, v, k, w)) (some (i, x, j, y))
      → FoundIn inner p (z ∷ zs) i x j y
  in_tail z zs n v k w {i} {x} {j} {y} f e =
      let c : i ≡ suc n = ground arith in
      let a : v ≡ x = ground arith in
      let m : k ≡ j = ground arith in
      let b : w ≡ y = ground arith in
      rw (c, ← a, ← m, ← b) (record { outside = f.outside; inside = f.inside; passes = f.passes })

  pub find_in-FoundIn :
      (xs : List A) {i : ℕ} {x : A} {j : ℕ} {y : B}
      → find_in inner p xs ≡ some (i, x, j, y)
      → FoundIn inner p xs i x j y
  unfolding find_in
  find_in-FoundIn [] e = absurd cc
  find_in-FoundIn (z ∷ zs) e = elim (Option-cases (find p (inner z))) [
    | inr ((k, w), f) ↦ at_head z zs k w f (rw (f, find_in) at e)
    | inl f ↦ elim (Option-cases (find_in inner p zs)) [
      | inl n ↦ absurd (nothing (rw (f, n, find_in) at e))
      | inr ((n, v, k, w), r) ↦
          in_tail z zs n v k w (find_in-FoundIn zs r) (rw (f, r, find_in) at e)
    ]
  ]
    where
      nothing : {r : ℕ × A × ℕ × B} → none ≡ some r → ⊥
      nothing e = cc
