-- ===== src/Kernel/Scheduler/Lists.antt =====
-- The kernel's queues as lists of tasks, and what each call on a queue does to the lists.
use so_tpe.Prelude.{
  ℕ, ◌≤◌, ◌≡◌, refl, sym, ap, ◌∙◌, fun_ext, ◌≢◌, inl, inr, true, false, some, List, [], ◌∷◌, ◌++◌,
  arith, Bool-cases, All,
}
use so_tpe.Kernel.Task.{Heap, null, null_process_task}
use so_tpe.Kernel.Queue.{Queue, pop}
use so_tpe.Kernel.Queue.Seg.{has, erase, Seg-frame, has-null, has-append}
use so_tpe.Kernel.Queue.Rep.{Holds, Spares, pop-cons, add_to_queue-append}
use so_tpe.Kernel.Queue.Remove.{remove_from_q-erase, remove_from_q_absent}
use so_tpe.Kernel.Scheduler.{
  QueueId, ready_tasks, suspended_tasks, delayed_tasks, waiting_tasks, terminated_tasks,
  empty_tasks, same_queue, update, Kernel, enqueue, dequeue, remove,
}

abbrev pub Lists : Type 0
Lists = QueueId → List ℕ

pub same_queue_eq : (i j : QueueId) → same_queue i j ≡ true → i ≡ j
same_queue_eq i j e = ground arith

pub same_queue_refl : (i : QueueId) → same_queue i i ≡ true
same_queue_refl (ready_tasks n) = ground arith
same_queue_refl suspended_tasks = refl
same_queue_refl delayed_tasks = refl
same_queue_refl waiting_tasks = refl
same_queue_refl terminated_tasks = refl
same_queue_refl empty_tasks = refl

-- `t` is in no queue.
abbrev pub Absent : ℕ → Lists → Type 0
Absent t ls = (i : QueueId) → has t (ls i) ≡ false

-- The valid pointers to tasks.
abbrev pub IsTask : ℕ → Type 0
IsTask t = (t ≢ null) × (t ≤ null_process_task)

-- Each queue holds its list, no task is in two of them, and a process id names one task.
pub record Represents (h : Heap) (qs : QueueId → Queue) (ls : Lists) : Type 0 where
  pub holds : (i : QueueId) → Holds h (qs i) (ls i)
  pub apart :
      (i j : QueueId) (t : ℕ) → same_queue i j ≡ false → has t (ls i) ≡ true → has t (ls j) ≡ false
  pub own_pid : (a b : ℕ) → IsTask a → IsTask b → (h a).pid ≡ (h b).pid → a ≡ b

-- A queue is untouched by changes to the links of tasks that are in another.
pub Holds-Spares :
    (h g : Heap) (q : Queue) (t : ℕ) (xs ys : List ℕ)
    → Holds h q ys
    → Spares h g t xs
    → has t ys ≡ false
    → ((a : ℕ) → has a ys ≡ true → has a xs ≡ false)
    → Holds g q ys
Holds-Spares h g q t xs ys r s n apart = record {
  count = r.count;
  chain = Seg-frame h g null q.head ys r.chain λ a i.
      s.links a (apart a i) (λ e. ground arith)
        (λ e. ground (arith, has-null h null q.head ys r.chain));
  ends = r.ends;
  distinct = r.distinct;
  valid = r.valid;
}

Spares-pid : (h g : Heap) (t : ℕ) (xs : List ℕ) → Spares h g t xs → (a : ℕ) → (g a).pid ≡ (h a).pid
Spares-pid h g t xs s a = ap (λ k. k.pid) (s.others a)

-- One queue changes, and takes at most `t` from outside.
module _ (h g : Heap) (qs : QueueId → Queue) (ls : Lists) (i : QueueId) (q : Queue) (t : ℕ)
    (ys : List ℕ) (r : Represents h qs ls) (s : Spares h g t (ls i)) where
  both :
      (a b : QueueId) → same_queue i a ≡ true → same_queue i b ≡ true → same_queue a b ≡ false → ⊥
  both a b e f ne = ground (arith, same_queue_eq i a e, same_queue_eq i b f, same_queue_refl i)

  pub Represents-update :
      Holds g q ys
      → ((j : QueueId) → same_queue i j ≡ false → has t (ls j) ≡ false)
      → ((a : ℕ) → has a ys ≡ true → a ≢ t → has a (ls i) ≡ true)
      → Represents g (update qs i q) (update ls i ys)
  Represents-update new out old = record {
    holds = λ j. elim (Bool-cases (same_queue i j)) [
      | inl e ↦ rw e new
      | inr e ↦ rw e (
          Holds-Spares h g (qs j) t (ls i) (ls j) (r.holds j) s (out j e)
            (λ a m. ground (arith, r.apart i j a)))
    ];
    apart = λ a b x ne m. elim (Bool-cases (same_queue i a)) [
      | inl e ↦ elim (Bool-cases (same_queue i b)) [
        | inl f ↦ absurd (both a b e f ne)
        | inr f ↦ rw f (ground (arith, out b f, old x (rw e at m), r.apart i b x f))
      ]
      | inr e ↦ elim (Bool-cases (same_queue i b)) [
        | inl f ↦ rw f (
            ground (
              arith,
              out a e,
              old x,
              r.apart i a x e,
              let m' : has x (ls a) ≡ true = rw e at m in m',
            ))
        | inr f ↦ rw f (r.apart a b x ne (rw e at m))
      ]
    ];
    own_pid = λ a b va vb e.
        r.own_pid a b va vb (sym (Spares-pid h g t (ls i) s a) ∙ (e ∙ Spares-pid h g t (ls i) s b));
  }

update_self : (f : QueueId → Queue) (i : QueueId) → update f i (f i) ≡ f
update_self f i = fun_ext λ j. ground (arith, same_queue_eq i j)

has_tail : (a t : ℕ) (ts : List ℕ) → has a (t ∷ ts) ≡ false → has a ts ≡ false
has_tail a t ts n = ground arith

has-of_erase : (a t : ℕ) (xs : List ℕ) → has a (erase t xs) ≡ true → has a xs ≡ true
has-of_erase a t [] n = n
has-of_erase a t (x ∷ xs) n = ground (arith, has-of_erase a t xs)

le_of_has :
    (a : ℕ) (xs : List ℕ)
    → All (λ p. p ≤ null_process_task) xs
    → has a xs ≡ true
    → a ≤ null_process_task
le_of_has a [] v m = absurd (ground arith)
le_of_has a (x ∷ xs) v m = ground (arith, le_of_has a xs v.1)

pub Holds-IsTask :
    (h : Heap) (q : Queue) (xs : List ℕ) → Holds h q xs → (a : ℕ) → has a xs ≡ true → IsTask a
Holds-IsTask h q xs r a m =
    (λ e. ground (arith, has-null h null q.head xs r.chain), le_of_has a xs r.valid m)

module _ (k : Kernel) (ls : Lists) (r : Represents k.tasks k.queues ls) (i : QueueId) where
  pub enqueue-Represents :
      (t : ℕ)
      → IsTask t
      → Absent t ls
      → Represents (enqueue i t k).tasks (enqueue i t k).queues (update ls i (ls i ++ t ∷ []))
  unfolding enqueue
  enqueue-Represents t v n =
      let (new, s) =
        add_to_queue-append {h = k.tasks} {q = k.queues i} t (ls i) (r.holds i) (n i) v.0 v.1 in
      Represents-update k.tasks _ k.queues ls i _ t (ls i ++ t ∷ []) r s new (λ j e. n j)
        (λ a m ne. ground (arith, has-append a (ls i) t))

  pub dequeue-Represents :
      (t : ℕ) (ts : List ℕ)
      → ls i ≡ t ∷ ts
      → ((dequeue i k).0 ≡ t)
        × Represents (dequeue i k).1.tasks (dequeue i k).1.queues (update ls i ts)
  unfolding dequeue
  dequeue-Represents t ts e =
      let (ret, new, s) = pop-cons {h = k.tasks} {q = k.queues i} t ts (rw e at (r.holds i)) in
      let s' : Spares k.tasks (pop (k.queues i) k.tasks).2 t (ls i) = record {
        links = λ a n ne nn. s.links a (has_tail a t ts (rw e at n)) ne nn;
        others = s.others;
      } in
      (
        ret,
        Represents-update k.tasks _ k.queues ls i _ t ts r s' new
            (λ j f. r.apart i j t f (rw e (ground arith))) (λ a m ne. rw e (ground arith)),
      )

  pub remove-Represents :
      (t : ℕ)
      → IsTask t
      → has t (ls i) ≡ true
      → (q : Queue) × (h : Heap) × (remove i t k
          ≡ some (record k { tasks = h; queues = update k.queues i q }))
        × Represents h (update k.queues i q) (update ls i (erase t (ls i)))
        × Spares k.tasks h t (ls i)
  unfolding remove
  remove-Represents t v m =
      let (q, h, run, new, s) =
        remove_from_q-erase {h = k.tasks} {q = k.queues i} (ls i) t (r.holds i)
          (λ a n e. r.own_pid a t (Holds-IsTask k.tasks (k.queues i) (ls i) (r.holds i) a n) v e)
          m in
      (
        q,
        h,
        rw run,
        Represents-update k.tasks h k.queues ls i q t (erase t (ls i)) r s new
            (λ j f. r.apart i j t f m) (λ a n ne. has-of_erase a t (ls i) n),
        s,
      )

  pub remove_absent : (t : ℕ) → IsTask t → has t (ls i) ≡ false → remove i t k ≡ some k
  unfolding remove
  remove_absent t v m = rw (
    remove_from_q_absent {h = k.tasks} {q = k.queues i} (ls i) t (r.holds i)
        (λ a n e. r.own_pid a t (Holds-IsTask k.tasks (k.queues i) (ls i) (r.holds i) a n) v e) m,
    update_self k.queues i,
  )
