-- ===== src/Kernel/Queue/Seg.antt =====
-- Doubly linked segments.
use so_tpe.Prelude.{
  ℕ, ◌≡◌, refl, ◌≢◌, inl, inr, Bool, true, false, ◌||◌, List, [], ◌∷◌, ◌++◌, arith, ◌==◌,
  if◌then◌else◌, Bool-cases,
}
use so_tpe.Kernel.Task.{Heap, null, set_next, set_prev}

-- `a` is an item of the list.
abbrev pub has : ℕ → List ℕ → Bool
has a [] = false
has a (x ∷ xs) = (a == x) || has a xs

abbrev pub Distinct : List ℕ → Type 0
Distinct [] = Unit
Distinct (x ∷ xs) = (has x xs ≡ false) × Distinct xs

abbrev pub erase : ℕ → List ℕ → List ℕ
erase x [] = []
erase x (y ∷ ys) = if y == x then ys else y ∷ erase x ys

-- The last item, or the one before the list.
abbrev pub last : ℕ → List ℕ → ℕ
last pr [] = pr
last pr (x ∷ xs) = last x xs

-- From `p`, whose `prev` is `pr`, the `next` pointers lead through `xs` to NULL, and the `prev`
-- pointers back.
abbrev pub Seg : Heap → ℕ → ℕ → List ℕ → Type 0
Seg h pr p [] = p ≡ null
Seg h pr p (x ∷ xs) = (p ≡ x) × (x ≢ null) × ((h x).prev ≡ pr) × Seg h x ((h x).next) xs

pub has-null : (h : Heap) (pr p : ℕ) (xs : List ℕ) → Seg h pr p xs → has null xs ≡ false
has-null h pr p [] s = refl
has-null h pr p (x ∷ xs) s = ground (arith, has-null h x (h x).next xs)

-- A segment survives a change that spares the links of its items.
pub Seg-frame :
    (h g : Heap) (pr p : ℕ) (xs : List ℕ)
    → Seg h pr p xs
    → ((a : ℕ) → has a xs ≡ true → ((g a).next ≡ (h a).next) × ((g a).prev ≡ (h a).prev))
    → Seg g pr p xs
Seg-frame h g pr p [] s same = s
Seg-frame h g pr p (x ∷ xs) s same =
    ground (arith, same x, Seg-frame h g x (h x).next xs s.3 (λ a i. same a (ground arith)))

pub has-last : (x : ℕ) (xs : List ℕ) → has (last x xs) (x ∷ xs) ≡ true
has-last x [] = ground arith
has-last x (y ∷ ys) = ground (arith, has-last y ys)

pub has-append : (a : ℕ) (xs : List ℕ) (x : ℕ) → has a (xs ++ x ∷ []) ≡ (has a xs || (a == x))
has-append a [] x = ground arith
has-append a (y ∷ ys) x = ground (arith, has-append a ys x)

pub Distinct-append :
    (xs : List ℕ) (x : ℕ) → Distinct xs → has x xs ≡ false → Distinct (xs ++ x ∷ [])
Distinct-append [] x d n = (refl, tt)
Distinct-append (y ∷ ys) x d n =
    (ground (arith, has-append y ys x), Distinct-append ys x d.1 (ground arith))

pub last-append : (pr : ℕ) (xs : List ℕ) (x : ℕ) → last pr (xs ++ x ∷ []) ≡ x
last-append pr [] x = refl
last-append pr (y ∷ ys) x = last-append y ys x

pub has-erase : (a x : ℕ) (xs : List ℕ) → has a xs ≡ false → has a (erase x xs) ≡ false
has-erase a x [] n = refl
has-erase a x (y ∷ ys) n = ground (arith, has-erase a x ys)

pub Distinct-erase : (x : ℕ) (xs : List ℕ) → Distinct xs → Distinct (erase x xs)
Distinct-erase x [] d = tt
Distinct-erase x (y ∷ ys) d = elim (Bool-cases (y == x)) [
  | inl e ↦ rw e (d.1)
  | inr e ↦ rw e (has-erase y x ys d.0, Distinct-erase x ys d.1)
]

-- The link behind the last item, and the item at the end.
pub Seg-append :
    (h : Heap) (pr p x : ℕ) (y : ℕ) (ys : List ℕ)
    → Seg h pr p (y ∷ ys)
    → Distinct (y ∷ ys)
    → has x (y ∷ ys) ≡ false
    → x ≢ null
    → Seg
        (set_next x null (set_prev x (last y ys) (set_next (last y ys) x h)))
        pr
        p
        (y ∷ ys ++ x ∷ [])
unfolding set_next set_prev
Seg-append h pr p x y [] s d n ne = ground arith
Seg-append h pr p x y (z ∷ zs) s d n ne =
    ground (arith, has-last z zs, Seg-append h y (h y).next x z zs)
