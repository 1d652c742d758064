-- ===== src/Kernel/Queue/Bound.antt =====
-- A list of distinct pointers is short.
use so_tpe.Prelude.{
  ℕ, zero, suc, ◌+◌, ◌≤◌, ◌≡◌, refl, inl, inr, false, List, [], ◌∷◌, arith, ◌==◌, if◌then◌else◌,
  Bool-cases, All, length,
}
use so_tpe.Kernel.Queue.Seg.{has, Distinct}

-- There are no more tasks than pointers to them.
drop_max : ℕ → List ℕ → List ℕ
drop_max m [] = []
drop_max m (x ∷ xs) = if x == m then drop_max m xs else x ∷ drop_max m xs

has-drop_max : (a m : ℕ) (xs : List ℕ) → has a xs ≡ false → has a (drop_max m xs) ≡ false
unfolding drop_max
has-drop_max a m [] e = refl
has-drop_max a m (x ∷ xs) e = ground (arith, has-drop_max a m xs)

drop_max-Distinct : (m : ℕ) (xs : List ℕ) → Distinct xs → Distinct (drop_max m xs)
unfolding drop_max
drop_max-Distinct m [] d = tt
drop_max-Distinct m (x ∷ xs) d = elim (Bool-cases (x == m)) [
  | inl e ↦ rw e (drop_max-Distinct m xs d.1)
  | inr e ↦ rw e (has-drop_max x m xs d.0, drop_max-Distinct m xs d.1)
]

length-drop_max_absent :
    (m : ℕ) (xs : List ℕ) → has m xs ≡ false → length xs ≡ length (drop_max m xs)
unfolding drop_max
length-drop_max_absent m [] e = refl
length-drop_max_absent m (x ∷ xs) e = ground (arith, length-drop_max_absent m xs)

length-drop_max : (m : ℕ) (xs : List ℕ) → Distinct xs → length xs ≤ length (drop_max m xs) + 1
unfolding drop_max
length-drop_max m [] d = omega arith
length-drop_max m (x ∷ xs) d = ground (arith, length-drop_max m xs, length-drop_max_absent m xs)

All-drop_max :
    (m : ℕ) (xs : List ℕ) → All (λ p. p ≤ suc m) xs → All (λ p. p ≤ m) (drop_max (suc m) xs)
unfolding drop_max
All-drop_max m [] a = tt
All-drop_max m (x ∷ xs) a = elim (Bool-cases (x == suc m)) [
  | inl e ↦ rw e (All-drop_max m xs a.1)
  | inr e ↦ rw e (ground arith, All-drop_max m xs a.1)
]

All-zero : (xs : List ℕ) → Distinct xs → All (λ p. p ≤ 0) xs → length xs ≤ 1
All-zero [] d a = omega arith
All-zero (x ∷ []) d a = omega arith
All-zero (x ∷ y ∷ ys) d a = ground arith

pub length-le_of_Distinct :
    (m : ℕ) (xs : List ℕ) → Distinct xs → All (λ p. p ≤ m) xs → length xs ≤ m + 1
length-le_of_Distinct zero xs d a = omega (arith, All-zero xs d a)
length-le_of_Distinct (suc m) xs d a = omega (
  arith,
  length-drop_max (suc m) xs d,
  length-le_of_Distinct m (drop_max (suc m) xs) (drop_max-Distinct (suc m) xs d)
      (All-drop_max m xs a),
)
