-- ===== src/Kernel/Queue/Rep.antt =====
-- What a queue stands for, and `pop`, `empty` and `add_to_queue` on it.
use so_tpe.Prelude.{
  ℕ, ◌≤◌, ◌≡◌, refl, ◌≢◌, false, List, [], ◌∷◌, ◌++◌, arith, ◌==◌, All, length, length-append,
}
use so_tpe.Kernel.Task.{Heap, null, null_process_task, set_next, set_prev}
use so_tpe.Kernel.Queue.{Queue, pop, is_empty, add_to_queue}
use so_tpe.Kernel.Queue.Bound.{length-le_of_Distinct}
use so_tpe.Kernel.Queue.Seg.{
  has, Distinct, last, Seg, has-null, Seg-frame, Distinct-append, last-append, Seg-append, has-last,
}

-- `q` holds the distinct tasks `xs`, from the head to the tail.
pub record Holds (h : Heap) (q : Queue) (xs : List ℕ) : Type 0 where
  pub count : q.size ≡ length xs
  pub chain : Seg h null q.head xs
  pub ends : q.tail ≡ last null xs
  pub distinct : Distinct xs
  pub valid : All (λ p. p ≤ null_process_task) xs

All-append :
    (n : ℕ) (xs : List ℕ) (x : ℕ) → All (λ p. p ≤ n) xs → x ≤ n → All (λ p. p ≤ n) (xs ++ x ∷ [])
All-append n [] x a e = (e, tt)
All-append n (y ∷ ys) x a e = (a.0, All-append n ys x a.1 e)

-- Only the links of tasks of `xs`, of `x` and of NULL differ, and nothing but links.
pub record Spares (h g : Heap) (x : ℕ) (xs : List ℕ) : Type 0 where
  pub links :
      (a : ℕ)
      → has a xs ≡ false
      → a ≢ x
      → a ≢ null
      → ((g a).next ≡ (h a).next) × ((g a).prev ≡ (h a).prev)
  pub others : (a : ℕ) → g a ≡ record (h a) { prev = (g a).prev; next = (g a).next }

module _ {h : Heap} {q : Queue} where
  -- A queue that holds nothing gives NULL and stays as it is.
  pub pop-nil : Holds h q [] → pop q h ≡ (null, q, h)
  unfolding pop
  pop-nil r = ground arith

  -- A queue that holds `x` and then `xs` gives `x`, and holds `xs` afterwards.
  pub pop-cons :
      (x : ℕ) (xs : List ℕ)
      → Holds h q (x ∷ xs)
      → let (ret, q', g) = pop q h in (ret ≡ x) × Holds g q' xs × Spares h g x xs
  unfolding pop set_next set_prev
  pop-cons x [] r = (
    ground arith,
    record {
      count = ground arith;
      chain = ground arith;
      ends = ground arith;
      distinct = tt;
      valid = tt;
    },
    record { links = λ a n ne nn. ground arith; others = λ a. ground arith },
  )
  pop-cons x (y ∷ ys) r = (
    ground arith,
    record {
      count =
          ground (arith, length-le_of_Distinct null_process_task (x ∷ y ∷ ys) r.distinct r.valid);
      chain = ground (
        arith,
        length-le_of_Distinct null_process_task (x ∷ y ∷ ys) r.distinct r.valid,
        Seg-frame h (pop q h).2 y (h y).next ys r.chain.3.3
            (λ a i. ground (arith, has-null h y (h y).next ys r.chain.3.3)),
      );
      ends =
          ground (arith, length-le_of_Distinct null_process_task (x ∷ y ∷ ys) r.distinct r.valid);
      distinct = r.distinct.1;
      valid = r.valid.1;
    },
    record { links = λ a n ne nn. ground arith; others = λ a. ground arith },
  )

  pub is_empty-Holds : (xs : List ℕ) → Holds h q xs → is_empty q ≡ (length xs == 0)
  unfolding is_empty
  is_empty-Holds xs r = ground arith

  -- A queue that holds `xs`, given a task that is not in it, is not NULL and is no address above the
  -- table, holds `xs` and then the task; only links of `xs`, of the task and of NULL change.
  pub add_to_queue-append :
      (x : ℕ) (xs : List ℕ)
      → Holds h q xs
      → has x xs ≡ false
      → x ≢ null
      → x ≤ null_process_task
      → let (q', g) = add_to_queue q x h in Holds g q' (xs ++ x ∷ []) × Spares h g x xs
  unfolding add_to_queue set_next set_prev
  add_to_queue-append x [] r n ne le = (
    record {
      count = ground arith;
      chain = ground arith;
      ends = ground arith;
      distinct = (refl, tt);
      valid = (le, tt);
    },
    record { links = λ a n ne nn. ground arith; others = λ a. ground arith },
  )
  add_to_queue-append x (y ∷ ys) r n ne le = (
    record {
      count = ground (
        arith,
        length-append ys (x ∷ []),
        length-le_of_Distinct null_process_task (y ∷ ys) r.distinct r.valid,
      );
      chain = ground (arith, Seg-append h null q.head x y ys r.chain r.distinct n ne);
      ends = ground (arith, last-append null (y ∷ ys) x);
      distinct = Distinct-append (y ∷ ys) x r.distinct n;
      valid = All-append null_process_task (y ∷ ys) x r.valid le;
    },
    record { links = λ a n ne nn. ground (arith, has-last y ys); others = λ a. ground arith },
  )
