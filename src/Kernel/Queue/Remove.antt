-- ===== src/Kernel/Queue/Remove.antt =====
-- `remove_from_q`.
use so_tpe.Prelude.{
  ℕ, zero, suc, ◌+◌, ◌≤◌, ◌<◌, ◌≡◌, refl, sym, ◌≢◌, ◌⊎◌, some, true, false, List, [], ◌∷◌, arith,
  ◌==◌, if◌then◌else◌, Bool-cases, inl, inr, All, length,
}
use so_tpe.Kernel.Task.{Heap, null, null_process_task, set_next, set_prev, dec}
use so_tpe.Kernel.Queue.{Queue, find_pid, unlink, remove_from_q}
use so_tpe.Kernel.Queue.Bound.{length-le_of_Distinct}
use so_tpe.Kernel.Queue.Rep.{Holds, Spares}
use so_tpe.Kernel.Queue.Seg.{has, erase, last, Seg, has-null, has-last, Distinct-erase}
use so_tpe.Kernel.Queue.Unlink.{Unlinked, Seg-erase, last-erase, next-has, prev-has}

-- No other task of the list has the process id of `t`.
abbrev pub OwnPid : Heap → ℕ → List ℕ → Type 0
OwnPid h t xs = (a : ℕ) → has a xs ≡ true → (h a).pid ≡ (h t).pid → a ≡ t

find_pid_absent :
    (h : Heap) (t pr p fuel : ℕ) (xs : List ℕ)
    → Seg h pr p xs
    → OwnPid h t xs
    → has t xs ≡ false
    → length xs < fuel
    → find_pid fuel (h t).pid p h ≡ some null
unfolding find_pid
find_pid_absent h t pr p zero xs s own i lt = absurd (omega arith)
find_pid_absent h t pr p (suc fuel) [] s own i lt = ground arith
find_pid_absent h t pr p (suc fuel) (x ∷ xs) s own i lt =
    ground
      (arith, own x, find_pid_absent h t x (h x).next fuel xs s.3 (λ a m. own a (ground arith)))

find_pid_present :
    (h : Heap) (t pr p fuel : ℕ) (xs : List ℕ)
    → Seg h pr p xs
    → OwnPid h t xs
    → has t xs ≡ true
    → length xs < fuel
    → find_pid fuel (h t).pid p h ≡ some t
unfolding find_pid
find_pid_present h t pr p zero xs s own i lt = absurd (omega arith)
find_pid_present h t pr p (suc fuel) [] s own i lt = absurd (ground arith)
find_pid_present h t pr p (suc fuel) (x ∷ xs) s own i lt =
    ground
      (arith, own x, find_pid_present h t x (h x).next fuel xs s.3 (λ a m. own a (ground arith)))

next-last :
    (h : Heap) (pr p y : ℕ) (ys : List ℕ) → Seg h pr p (y ∷ ys) → (h (last y ys)).next ≡ null
next-last h pr p y [] s = s.3
next-last h pr p y (z ∷ zs) s = next-last h y (h y).next z zs s.3

prev_or_first :
    (h : Heap) (pr p x y : ℕ) (ys : List ℕ)
    → Seg h pr p (y ∷ ys)
    → has x (y ∷ ys) ≡ true
    → ((h x).prev ≡ pr) ⊎ (has (h x).prev (y ∷ ys) ≡ true)
prev_or_first h pr p x y ys s i = elim (Bool-cases (x == y)) [
  | inl e ↦ inl (ground arith)
  | inr e ↦ inr (prev-has h pr p x y ys s (ground arith))
]

All-erase : (n t : ℕ) (xs : List ℕ) → All (λ p. p ≤ n) xs → All (λ p. p ≤ n) (erase t xs)
All-erase n t [] a = tt
All-erase n t (x ∷ xs) a = elim (Bool-cases (x == t)) [
  | inl e ↦ rw e a.1
  | inr e ↦ rw e (a.0, All-erase n t xs a.1)
]

length-erase : (t : ℕ) (xs : List ℕ) → has t xs ≡ true → length (erase t xs) + 1 ≡ length xs
length-erase t [] i = absurd (ground arith)
length-erase t (x ∷ xs) i = ground (arith, length-erase t xs)

-- The four ways of `unlink`.
data Place (h : Heap) (q : Queue) (t : ℕ) : Queue × Heap → Type 0 where
  sole :
      (h t).next ≡ null
      → (h t).prev ≡ null
      → q.head ≡ t
      → q.tail ≡ t
      → Place h q t (record { size = dec q.size; head = null; tail = null }, h)
  first :
      (h t).prev ≡ null
      → q.head ≡ t
      → q.tail ≢ t
      → Place h q t (
        record q { size = dec q.size; head = (h t).next },
        set_next t null (set_prev (h t).next null h),
      )
  at_end :
      (h t).next ≡ null
      → q.head ≢ t
      → q.tail ≡ t
      → Place h q t (
        record q { size = dec q.size; tail = (h t).prev },
        set_prev t null (set_next (h t).prev null h),
      )
  between :
      q.head ≢ t
      → q.tail ≢ t
      → Place h q t (
        record q { size = dec q.size },
        set_prev (h t).next (h t).prev (set_next (h t).prev (h t).next h),
      )

kept_next : (h : Heap) (t : ℕ) → (set_next (h t).prev (h t).next h t).next ≡ (h t).next
unfolding set_next
kept_next h t = ground arith

kept_prev : (h : Heap) (t : ℕ) → (set_next (h t).prev (h t).next h t).prev ≡ (h t).prev
unfolding set_next
kept_prev h t = ground arith

unlink-Place :
    (h : Heap) (q : Queue) (t y : ℕ) (ys : List ℕ)
    → Holds h q (y ∷ ys)
    → has t (y ∷ ys) ≡ true
    → Place h q t (unlink q t h)
unfolding unlink
unlink-Place h q t y [] r i =
    let e : (q.size == 1) ≡ true = ground arith in
    rw e (sole (ground arith) (ground arith) (ground arith) (ground arith))
unlink-Place h q t y (z ∷ zs) r i =
    let e : (q.size == 1) ≡ false = ground arith in
    elim (Bool-cases (q.head == t)) [
      | inl f ↦ rw (e, f) (first (ground arith) (ground arith) (ground (arith, has-last z zs)))
      | inr f ↦ elim (Bool-cases (q.tail == t)) [
        | inl g ↦
            rw (e, f, g)
              (at_end (ground (arith, next-last h null q.head y (z ∷ zs) r.chain)) (ground arith)
                (ground arith))
        | inr g ↦ rw (e, f, g, kept_next h t, kept_prev h t) (between (ground arith) (ground arith))
      ]
    ]

Place-Unlinked :
    {h : Heap} {q : Queue} {t : ℕ} {out : Queue × Heap} → Place h q t out → Unlinked h out.1 t
unfolding set_next set_prev
Place-Unlinked (sole e b c d) = record {
  nexts = λ a ne nn. ground arith;
  prevs = λ a ne nn. ground arith;
}
Place-Unlinked (first b c d) = record {
  nexts = λ a ne nn. ground arith;
  prevs = λ a ne nn. ground arith;
}
Place-Unlinked (at_end b c d) = record {
  nexts = λ a ne nn. ground arith;
  prevs = λ a ne nn. ground arith;
}
Place-Unlinked (between c d) = record {
  nexts = λ a ne nn. ground arith;
  prevs = λ a ne nn. ground arith;
}

Place-others :
    {h : Heap} {q : Queue} {t : ℕ} {out : Queue × Heap}
    → Place h q t out
    → (a : ℕ) → out.1 a ≡ record (h a) { prev = (out.1 a).prev; next = (out.1 a).next }
unfolding set_next set_prev
Place-others (sole a b c d) x = refl
Place-others (first b c d) x = ground arith
Place-others (at_end b c d) x = ground arith
Place-others (between c d) x = ground arith

Place-ends :
    {h : Heap} {q : Queue} {t : ℕ} {out : Queue × Heap}
    → Place h q t out
    → (out.0.size ≡ dec q.size)
      × (out.0.head ≡ (if q.head == t then (h t).next else q.head))
      × (out.0.tail ≡ (if q.tail == t then (h t).prev else q.tail))
Place-ends (sole a b c d) = ground arith
Place-ends (first b c d) = ground arith
Place-ends (at_end b c d) = ground arith
Place-ends (between c d) = ground arith

module _ (h : Heap) (q : Queue) (t y : ℕ) (ys : List ℕ) (r : Holds h q (y ∷ ys))
    (i : has t (y ∷ ys) ≡ true) where
  place : Place h q t (unlink q t h)
  place = unlink-Place h q t y ys r i

  unlink-Holds : Holds (unlink q t h).1 (unlink q t h).0 (erase t (y ∷ ys))
  unlink-Holds =
      let g = (unlink q t h).1 in
      let u : Unlinked h g t = Place-Unlinked place in
      record {
        count = omega (
          arith,
          (Place-ends place).0,
          r.count,
          length-erase t (y ∷ ys) i,
          length-le_of_Distinct null_process_task (y ∷ ys) r.distinct r.valid,
        );
        chain = rw (Place-ends place).1 (
            Seg-erase h g t u null q.head (y ∷ ys) r.chain r.distinct i
              (has-null h null q.head (y ∷ ys) r.chain));
        ends =
            rw ((Place-ends place).2, r.ends)
              (sym (last-erase h g t u null q.head (y ∷ ys) r.chain r.distinct i));
        distinct = Distinct-erase t (y ∷ ys) r.distinct;
        valid = All-erase null_process_task t (y ∷ ys) r.valid;
      }

  unlink-Spares : Spares h (unlink q t h).1 t (y ∷ ys)
  unlink-Spares =
      let u = Place-Unlinked place in
      record {
        links = λ a n ne nn. ground (
          arith,
          u.nexts a,
          u.prevs a,
          next-has h null q.head t (y ∷ ys) r.chain i,
          prev_or_first h null q.head t y ys r.chain i,
        );
        others = Place-others place;
      }

found_step :
    (h : Heap) (q : Queue) (t : ℕ)
    → t ≢ null
    → find_pid (q.size + 1) (h t).pid q.head h ≡ some t
    → remove_from_q q t h ≡ some (t, (unlink q t h).0, (unlink q t h).1)
unfolding remove_from_q
found_step h q t ne e = let nn : (t == null) ≡ false = ground arith in rw (nn, e, nn)

-- A queue that holds `t`, by its process id, gives `t` back and holds the others, in their order.
-- The walk ends within its rounds, and only links of the queue's tasks and of NULL change.
pub remove_from_q-erase :
    {h : Heap} {q : Queue} (xs : List ℕ) (t : ℕ)
    → Holds h q xs
    → OwnPid h t xs
    → has t xs ≡ true
    → (q' : Queue) × (g : Heap) × (remove_from_q q t h ≡ some (t, q', g))
      × Holds g q' (erase t xs)
      × Spares h g t xs
remove_from_q-erase [] t r own i = absurd (ground arith)
remove_from_q-erase {h} {q} (y ∷ ys) t r own i =
    let nn : t ≢ null = λ e. ground (arith, has-null h null q.head (y ∷ ys) r.chain) in
    let e =
      find_pid_present h t null q.head (q.size + 1) (y ∷ ys) r.chain own i
        (omega (arith, r.count)) in
    (
      (unlink q t h).0,
      (unlink q t h).1,
      found_step h q t nn e,
      unlink-Holds h q t y ys r i,
      unlink-Spares h q t y ys r i,
    )

-- A queue with no task of that process id gives NULL, and nothing changes.
pub remove_from_q_absent :
    {h : Heap} {q : Queue} (xs : List ℕ) (t : ℕ)
    → Holds h q xs
    → OwnPid h t xs
    → has t xs ≡ false
    → remove_from_q q t h ≡ some (null, q, h)
unfolding remove_from_q
remove_from_q_absent {h} {q} xs t r own i = elim (Bool-cases (t == null)) [
  | inl e ↦ rw e
  | inr e ↦
      rw (e, find_pid_absent h t null q.head (q.size + 1) xs r.chain own i (omega (arith, r.count)))
]
