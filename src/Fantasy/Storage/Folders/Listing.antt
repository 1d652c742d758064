-- ===== src/Fantasy/Storage/Folders/Listing.antt =====
-- The orders in which a folder's entries can be listed.
use so_tpe.Prelude.{ℕ, zero, suc, ◌≡◌, refl, ap, ◌∙◌, List, [], ◌∷◌, map, All}

-- `x` put in at a position, or at the end.
abbrev pub insert_at {ℓ} : {A : Type ℓ} → ℕ → A → List A → List A
insert_at i x [] = x ∷ []
insert_at zero x (y ∷ xs) = x ∷ y ∷ xs
insert_at (suc i) x (y ∷ xs) = y ∷ insert_at i x xs

-- The list in another order: the position at which each item is put in, before those that follow it
-- are put in their order. Every order of the list has such positions.
abbrev pub shuffle {ℓ} : {A : Type ℓ} → List ℕ → List A → List A
shuffle is [] = []
shuffle [] (x ∷ xs) = x ∷ shuffle [] xs
shuffle (i ∷ is) (x ∷ xs) = insert_at i x (shuffle is xs)

module _ {ℓ κ} {A : Type ℓ} {B : Type κ} (f : A → B) where
  insert_at-map :
      (i : ℕ) (x : A) (xs : List A) → insert_at i (f x) (map f xs) ≡ map f (insert_at i x xs)
  insert_at-map i x [] = refl
  insert_at-map zero x (y ∷ xs) = refl
  insert_at-map (suc i) x (y ∷ xs) = ap (λ ys. f y ∷ ys) (insert_at-map i x xs)

  pub shuffle-map : (is : List ℕ) (xs : List A) → shuffle is (map f xs) ≡ map f (shuffle is xs)
  shuffle-map [] [] = refl
  shuffle-map (i ∷ is) [] = refl
  shuffle-map [] (x ∷ xs) = ap (λ ys. f x ∷ ys) (shuffle-map [] xs)
  shuffle-map (i ∷ is) (x ∷ xs) =
      ap (insert_at i (f x)) (shuffle-map is xs) ∙ insert_at-map i x (shuffle is xs)

module _ {ℓ κ} {A : Type ℓ} (P : A → Type κ) where
  insert_at-All : (i : ℕ) (x : A) (xs : List A) → P x → All P xs → All P (insert_at i x xs)
  insert_at-All i x [] p ps = (p, tt)
  insert_at-All zero x (y ∷ xs) p ps = (p, ps)
  insert_at-All (suc i) x (y ∷ xs) p (q, ps) = (q, insert_at-All i x xs p ps)

  pub shuffle-All : (is : List ℕ) (xs : List A) → All P xs → All P (shuffle is xs)
  shuffle-All [] [] ps = tt
  shuffle-All (i ∷ is) [] ps = tt
  shuffle-All [] (x ∷ xs) (p, ps) = (p, shuffle-All [] xs ps)
  shuffle-All (i ∷ is) (x ∷ xs) (p, ps) = insert_at-All i x (shuffle is xs) p (shuffle-All is xs ps)

-- The six orders of three items.
module _ {ℓ κ} {A : Type ℓ} (P : List A → Type κ) (x y z : A) (xyz : P (x ∷ y ∷ z ∷ []))
    (xzy : P (x ∷ z ∷ y ∷ [])) (yxz : P (y ∷ x ∷ z ∷ [])) (yzx : P (y ∷ z ∷ x ∷ []))
    (zxy : P (z ∷ x ∷ y ∷ [])) (zyx : P (z ∷ y ∷ x ∷ [])) where
  shuffle_yz : (i : ℕ) → P (insert_at i x (y ∷ z ∷ []))
  shuffle_yz zero = xyz
  shuffle_yz (suc zero) = yxz
  shuffle_yz (suc (suc zero)) = yzx
  shuffle_yz (suc (suc (suc i))) = yzx

  shuffle_zy : (i : ℕ) → P (insert_at i x (z ∷ y ∷ []))
  shuffle_zy zero = xzy
  shuffle_zy (suc zero) = zxy
  shuffle_zy (suc (suc zero)) = zyx
  shuffle_zy (suc (suc (suc i))) = zyx

  pub shuffle_three : (is : List ℕ) → P (shuffle is (x ∷ y ∷ z ∷ []))
  shuffle_three [] = xyz
  shuffle_three (i ∷ []) = shuffle_yz i
  shuffle_three (i ∷ zero ∷ []) = shuffle_yz i
  shuffle_three (i ∷ suc j ∷ []) = shuffle_zy i
  shuffle_three (i ∷ zero ∷ zero ∷ is) = shuffle_yz i
  shuffle_three (i ∷ zero ∷ suc k ∷ is) = shuffle_yz i
  shuffle_three (i ∷ suc j ∷ zero ∷ is) = shuffle_zy i
  shuffle_three (i ∷ suc j ∷ suc k ∷ is) = shuffle_zy i
