-- ===== src/Kernel/Scheduler/Select.antt =====
-- `select_next` against a scheduler of lists.
use so_tpe.Prelude.{
  ℕ, zero, suc, ◌+◌, ◌<◌, ◌≡◌, refl, ◌∙◌, ◌≢◌, ◌⊎◌, inl, inr, true, false, Option, none, some, List,
  [], ◌∷◌, ◌++◌, arith, ◌==◌, Bool-cases, Option-cases,
}
use so_tpe.Kernel.Task.{
  Heap, Task, TaskState, null, null_process_task, max_priorities, set_next, set_prev,
}
use so_tpe.Kernel.Queue.{Queue, is_empty, pop, add_to_queue}
use so_tpe.Kernel.Queue.Seg.{has, Seg, Seg-frame, has-append}
use so_tpe.Kernel.Queue.Rep.{is_empty-Holds}
use so_tpe.Kernel.Scheduler.{
  QueueId, ready_tasks, same_queue, update, Kernel, enqueue, dequeue, queue_of, put_back,
  first_ready, choose, select_next,
}
use so_tpe.Kernel.Scheduler.Lists.{
  Lists, Absent, IsTask, Represents, enqueue-Represents, dequeue-Represents, same_queue_refl,
  Holds-IsTask,
}

-- The task that stops running goes to the end of the list of its state, if its state has one.
abbrev pub requeue : Option QueueId → ℕ → Lists → Lists
requeue none c ls = ls
requeue (some i) c ls = update ls i (ls i ++ c ∷ [])

-- The first task of the first ready list that has one, among `n` lists from `i` on; the null
-- process if none has.
abbrev pub pick : ℕ → ℕ → Lists → ℕ × Lists
pick zero i ls = (null_process_task, ls)
pick (suc n) i ls = elim (ls (ready_tasks i)) [
  | [] ↦ pick n (i + 1) ls
  | t ∷ ts ↦ (t, update ls (ready_tasks i) ts)
]

-- The running task and the null process are in no queue, and the null process has its own state.
pub record IsValid (k : Kernel) (ls : Lists) : Type 0 where
  pub queued : Represents k.tasks k.queues ls
  pub running : IsTask k.current_task
  pub running_absent : Absent k.current_task ls
  pub null_absent : Absent null_process_task ls
  pub null_state : (k.tasks null_process_task).state ≡ TaskState.null_state

next_of_last : (h : Heap) (pr p c : ℕ) (xs : List ℕ) → Seg h pr p (xs ++ c ∷ []) → (h c).next ≡ null
next_of_last h pr p c [] s = s.3
next_of_last h pr p c (x ∷ xs) s = next_of_last h x (h x).next c xs s.3

-- `next = NULL` changes nothing at the end of a queue, and no queue elsewhere.
set_next-Represents :
    (h : Heap) (qs : QueueId → Queue) (ls : Lists) (c : ℕ)
    → Represents h qs ls
    → ((h c).next ≡ null) ⊎ Absent c ls
    → Represents (set_next c null h) qs ls
unfolding set_next
set_next-Represents h qs ls c r last = record {
  holds = λ i. record {
    count = (r.holds i).count;
    chain =
        Seg-frame h (set_next c null h) null (qs i).head (ls i) (r.holds i).chain
          λ a m. elim last [ inl e ↦ ground arith | inr n ↦ ground (arith, n i) ];
    ends = (r.holds i).ends;
    distinct = (r.holds i).distinct;
    valid = (r.holds i).valid;
  };
  apart = r.apart;
  own_pid = λ a b va vb e. r.own_pid a b va vb (ground arith);
}

module _ (k : Kernel) (ls : Lists) (v : IsValid k ls) where
  put_back-requeue :
      Represents
        (put_back k).tasks
        (put_back k).queues
        (requeue (queue_of (k.tasks k.current_task)) k.current_task ls)
  unfolding put_back
  put_back-requeue = elim (Option-cases (queue_of (k.tasks k.current_task))) [
    | inl e ↦
        rw (e, put_back) (set_next-Represents _ _ ls k.current_task v.queued (inr v.running_absent))
    | inr (i, e) ↦
        let r = enqueue-Represents k ls v.queued i k.current_task v.running v.running_absent in
        rw (e, put_back)
          (set_next-Represents _ _ _ k.current_task r (
            inl (
              next_of_last (enqueue i k.current_task k).tasks null _ k.current_task (ls i)
                (rw (same_queue_refl i) at ((r.holds i).chain)))))
  ]

pub List-cases : (xs : List ℕ) → (xs ≡ []) ⊎ ((t : ℕ) × (ts : List ℕ) × (xs ≡ t ∷ ts))
List-cases [] = inl refl
List-cases (t ∷ ts) = inr (t, ts, refl)

module _ (ls : Lists) (n i : ℕ) where
  pick-nil : ls (ready_tasks i) ≡ [] → pick (suc n) i ls ≡ pick n (i + 1) ls
  pick-nil e = rw (e, pick)

  pick-cons :
      (t : ℕ) (ts : List ℕ)
      → ls (ready_tasks i) ≡ t ∷ ts
      → pick (suc n) i ls ≡ (t, update ls (ready_tasks i) ts)
  pick-cons t ts e = rw (e, pick)

-- What the loop over the ready queues finds.
module _ (k : Kernel) (ls : Lists) (r : Represents k.tasks k.queues ls) where
  -- The first list from `i` on that is not empty is `j`.
  record Found (n i j t : ℕ) (ts : List ℕ) : Type 0 where
    index : first_ready n i k ≡ j
    inside : j < i + n
    head : ls (ready_tasks j) ≡ t ∷ ts
    picked : pick n i ls ≡ (t, update ls (ready_tasks j) ts)

  record NotFound (n i : ℕ) : Type 0 where
    index : first_ready n i k ≡ i + n
    picked : pick n i ls ≡ (null_process_task, ls)

  first_ready_pick : (n i : ℕ) → NotFound n i ⊎ ((j t : ℕ) × (ts : List ℕ) × Found n i j t ts)
  unfolding first_ready
  first_ready_pick zero i = inl (record { index = omega arith; picked = refl })
  first_ready_pick (suc n) i = elim (List-cases (ls (ready_tasks i))) [
    | inl e ↦
        let z : is_empty (k.queues (ready_tasks i)) ≡ true =
          is_empty-Holds (ls (ready_tasks i)) (r.holds (ready_tasks i)) ∙ rw e in
        elim (first_ready_pick n (i + 1)) [
          | inl f ↦ inl (record {
            index = rw z (omega (arith, f.index));
            picked = pick-nil ls n i e ∙ f.picked;
          })
          | inr (j, t, ts, f) ↦ inr (
            j,
            t,
            ts,
            record {
              index = rw z f.index;
              inside = omega (arith, f.inside);
              head = f.head;
              picked = pick-nil ls n i e ∙ f.picked;
            },
          )
        ]
    | inr (t, ts, e) ↦
        let z : is_empty (k.queues (ready_tasks i)) ≡ false =
          is_empty-Holds (ls (ready_tasks i)) (r.holds (ready_tasks i)) ∙ rw e (ground arith) in
        inr (
          i,
          t,
          ts,
          record { index = rw z; inside = omega arith; head = e; picked = pick-cons ls n i t ts e },
        )
  ]

  pub null_gone : (i : QueueId) (t : ℕ) (ts : List ℕ) → ls i ≡ t ∷ ts → Absent t (update ls i ts)
  null_gone i t ts e j = elim (Bool-cases (same_queue i j)) [
    | inl f ↦ rw f ((rw e at (r.holds i)).distinct.0)
    | inr f ↦ rw f (r.apart i j t f (rw e (ground arith)))
  ]

  pub still-Absent :
      (a : ℕ) (i : QueueId) (t : ℕ) (ts : List ℕ)
      → ls i ≡ t ∷ ts
      → Absent a ls
      → Absent a (update ls i ts)
  still-Absent a i t ts e n j = elim (Bool-cases (same_queue i j)) [
    | inl f ↦ rw f (ground (arith, let m : has a (t ∷ ts) ≡ false = rw e at (n i) in m))
    | inr f ↦ rw f (n j)
  ]

  -- What `choose` runs next, and what it leaves in the queues.
  record Chosen (k' : Kernel) (out : ℕ × Lists) : Type 0 where
    pub current : k'.current_task ≡ out.0
    pub queued : Represents k'.tasks k'.queues out.1
    pub is_task : IsTask out.0
    pub absent : Absent out.0 out.1
    pub null_absent : Absent null_process_task out.1

  choose-pick : Absent null_process_task ls → Chosen (choose k) (pick max_priorities 0 ls)
  unfolding choose
  choose-pick n = elim (first_ready_pick max_priorities 0) [
    | inl f ↦
        rw (f.index, f.picked)
          (record {
            current = refl;
            queued = r;
            is_task = omega arith;
            absent = n;
            null_absent = n;
          })
    | inr (j, t, ts, f) ↦
        let ne : (first_ready max_priorities 0 k == max_priorities) ≡ false =
          rw f.index (ground (arith, f.inside)) in
        let i = ready_tasks j in
        let (ret, q) = dequeue-Represents k ls r i t ts f.head in
        rw (f.picked, ne, f.index)
          (record {
            current = ret;
            queued = q;
            is_task = Holds-IsTask _ _ _ (rw f.head at (r.holds i)) t (ground arith);
            absent = null_gone i t ts f.head;
            null_absent = still-Absent null_process_task i t ts f.head n;
          })
  ]

-- No call on a queue changes a state.
pub enqueue_state :
    (i : QueueId) (t : ℕ) (k : Kernel) (a : ℕ) → ((enqueue i t k).tasks a).state ≡ (k.tasks a).state
unfolding enqueue add_to_queue set_next set_prev
enqueue_state i t k a = ground arith

pub dequeue_state :
    (i : QueueId) (k : Kernel) (a : ℕ) → ((dequeue i k).1.tasks a).state ≡ (k.tasks a).state
unfolding dequeue pop set_next set_prev
dequeue_state i k a = ground arith

put_back_state : (k : Kernel) (a : ℕ) → ((put_back k).tasks a).state ≡ (k.tasks a).state
unfolding put_back set_next
put_back_state k a = elim (Option-cases (queue_of (k.tasks k.current_task))) [
  | inl e ↦ rw (e, put_back) (ground arith)
  | inr (i, e) ↦ rw (e, put_back) (ground (arith, enqueue_state i k.current_task k a))
]

choose_state : (k : Kernel) (a : ℕ) → ((choose k).tasks a).state ≡ (k.tasks a).state
unfolding choose
choose_state k a = ground (arith, dequeue_state (ready_tasks (first_ready max_priorities 0 k)) k a)

null_not_queued : (t : Task) (i : QueueId) → t.state ≡ TaskState.null_state → queue_of t ≢ some i
unfolding queue_of
null_not_queued t i e f = ground arith

pub eq_of_test : (a b : ℕ) → (a == b) ≡ true → a ≡ b
eq_of_test a b e = ground arith

null-Absent-requeue :
    (k : Kernel) (ls : Lists)
    → IsValid k ls
    → Absent null_process_task (requeue (queue_of (k.tasks k.current_task)) k.current_task ls)
null-Absent-requeue k ls v = elim (Option-cases (queue_of (k.tasks k.current_task))) [
  | inl e ↦ rw e v.null_absent
  | inr (i, e) ↦
      let c = k.current_task in
      let apart : (null_process_task == c) ≡ false = elim (Bool-cases (null_process_task == c)) [
        | inl f ↦ absurd (null_not_queued (k.tasks c) i (rw (← eq_of_test _ c f) v.null_state) e)
        | inr f ↦ f
      ] in
      rw e λ j. elim (Bool-cases (same_queue i j)) [
        | inl f ↦ rw (f, has-append null_process_task (ls i) c, v.null_absent i, apart)
        | inr f ↦ rw f (v.null_absent j)
      ]
]

select_next_running :
    (k : Kernel)
    → k.current_task ≢ null
    → (k.tasks k.current_task).atomic_level ≡ false
    → select_next k ≡ choose (put_back k)
unfolding select_next
select_next_running k ne na =
    let nn : (k.current_task == null) ≡ false = ground arith in simp (nn, na)

-- A valid kernel whose running task is not atomic puts that task at the end of the queue of its
-- state, and runs the first task of the first ready queue that is not empty, or the null process;
-- the other queues keep their tasks and order, and the kernel stays valid.
pub select_next-pick :
    (k : Kernel) (ls : Lists)
    → IsValid k ls
    → (k.tasks k.current_task).atomic_level ≡ false
    → let (t, ls') =
        pick max_priorities 0 (requeue (queue_of (k.tasks k.current_task)) k.current_task ls) in
      ((select_next k).current_task ≡ t) × IsValid (select_next k) ls'
select_next-pick k ls v na =
    let c = choose-pick (put_back k) _ (put_back-requeue k ls v) (null-Absent-requeue k ls v) in
    rw (select_next_running k v.running.0 na) (
      c.current,
      record {
        queued = c.queued;
        running = rw c.current c.is_task;
        running_absent = rw c.current c.absent;
        null_absent = c.null_absent;
        null_state =
            choose_state (put_back k) null_process_task
            ∙ (put_back_state k null_process_task ∙ v.null_state);
      },
    )
