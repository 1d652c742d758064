-- ===== src/Kernel/Queue/Unlink.antt =====
-- Taking one task out of a doubly linked segment.
use so_tpe.Prelude.{
  ℕ, ◌≡◌, ◌≢◌, ◌⊎◌, inl, inr, true, false, List, [], ◌∷◌, arith, ◌==◌, if◌then◌else◌, Bool-cases,
}
use so_tpe.Kernel.Task.{Heap, null}
use so_tpe.Kernel.Queue.Seg.{has, Distinct, erase, last, Seg, has-null, Seg-frame, has-last}

-- What stands behind an item is an item too, or the end.
pub next-has :
    (h : Heap) (pr p x : ℕ) (xs : List ℕ)
    → Seg h pr p xs
    → has x xs ≡ true
    → ((h x).next ≡ null) ⊎ (has (h x).next xs ≡ true)
next-has h pr p x [] s i = absurd (ground arith)
next-has h pr p x (y ∷ []) s i = ground arith
next-has h pr p x (y ∷ z ∷ zs) s i = ground (arith, next-has h y (h y).next x (z ∷ zs) s.3)

-- What stands before an item that is not the first is an item too.
pub prev-has :
    (h : Heap) (pr p x y : ℕ) (ys : List ℕ)
    → Seg h pr p (y ∷ ys)
    → has x ys ≡ true
    → has (h x).prev (y ∷ ys) ≡ true
prev-has h pr p x y [] s i = absurd (ground arith)
prev-has h pr p x y (z ∷ zs) s i = ground (arith, prev-has h y (h y).next x z zs s.3)

-- `g` differs from `h` as an unlinked `x` asks, whatever happens to `x` itself and to NULL.
pub record Unlinked (h g : Heap) (x : ℕ) : Type 0 where
  pub nexts :
      (a : ℕ) → a ≢ x → a ≢ null → (g a).next ≡ (if a == (h x).prev then (h x).next else (h a).next)
  pub prevs :
      (a : ℕ) → a ≢ x → a ≢ null → (g a).prev ≡ (if a == (h x).next then (h x).prev else (h a).prev)

module _ (h g : Heap) (x : ℕ) (u : Unlinked h g x) where
  Seg-erase_first :
      (pr p y : ℕ) (ys : List ℕ)
      → Seg h pr p (y ∷ ys)
      → Distinct (y ∷ ys)
      → y ≡ x
      → has pr (y ∷ ys) ≡ false
      → Seg g pr (h x).next ys
  Seg-erase_first pr p y [] s d e o = ground arith
  Seg-erase_first pr p y (z ∷ zs) s d e o =
      let rest = s.3.3 in
      ground (
        arith,
        u.nexts z,
        u.prevs z,
        Seg-frame h g z (h z).next zs rest
            (λ a i. ground (arith, u.nexts a, u.prevs a, has-null h z (h z).next zs rest)),
      )

  next_of_before :
      (pr p y : ℕ) (ys : List ℕ)
      → Seg h pr p (y ∷ ys)
      → Distinct (y ∷ ys)
      → has x ys ≡ true
      → (y == (h x).prev) ≡ ((h y).next == x)
  next_of_before pr p y [] s d i = absurd (ground arith)
  next_of_before pr p y (z ∷ zs) s d i = ground (arith, prev-has h y (h y).next x z zs s.3)

  -- With `x` unlinked, the segment leads through the others.
  pub Seg-erase :
      (pr p : ℕ) (xs : List ℕ)
      → Seg h pr p xs
      → Distinct xs
      → has x xs ≡ true
      → has pr xs ≡ false
      → Seg g pr (if p == x then (h x).next else p) (erase x xs)
  Seg-erase pr p [] s d i o = absurd (ground arith)
  Seg-erase pr p (y ∷ ys) s d i o = elim (Bool-cases (y == x)) [
    | inl e ↦
        let first : (p == x) ≡ true = ground arith in
        rw (first, e) (Seg-erase_first pr p y ys s d (ground arith) o)
    | inr e ↦
        let first : (p == x) ≡ false = ground arith in
        let inside : has x ys ≡ true = ground arith in
        let link : (g y).next ≡ (if (h y).next == x then (h x).next else (h y).next) =
          ground (arith, u.nexts y, next_of_before pr p y ys s d inside) in
        rw (first, e)
          (
            s.0,
            s.1,
            ground (arith, u.prevs y, next-has h y (h y).next x ys s.3),
            rw link (Seg-erase y (h y).next ys s.3 d.1 inside d.0),
          )
  ]

  pub last-erase :
      (pr p : ℕ) (xs : List ℕ)
      → Seg h pr p xs
      → Distinct xs
      → has x xs ≡ true
      → last pr (erase x xs) ≡ (if last pr xs == x then (h x).prev else last pr xs)
  last-erase pr p [] s d i = absurd (ground arith)
  last-erase pr p (y ∷ []) s d i = ground arith
  last-erase pr p (y ∷ z ∷ zs) s d i =
      ground (arith, has-last z zs, last-erase y (h y).next (z ∷ zs) s.3 d.1)
