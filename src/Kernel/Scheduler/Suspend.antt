-- ===== src/Kernel/Scheduler/Suspend.antt =====
-- `suspend_task` and `unsuspend_task` on a task that is not running.
use so_tpe.Prelude.{
  ℕ, ◌≡◌, refl, sym, ap, ◌∙◌, ◌≢◌, inl, inr, Bool, true, false, some, List, [], ◌∷◌, ◌++◌, arith,
  ◌==◌, if◌then◌else◌, Bool-cases,
}
use so_tpe.Kernel.Task.{
  Heap, TaskState, null, null_process_task, set_next, set_prev, set_state, set_atomic_level,
}
use so_tpe.Kernel.Queue.{Queue, add_to_queue}
use so_tpe.Kernel.Queue.Seg.{has, Distinct, erase, Seg-frame, has-append, has-erase}
use so_tpe.Kernel.Scheduler.{
  QueueId, ready_tasks, suspended_tasks, same_queue, update, Kernel, enqueue, remove, atomize,
  unatomize, is_suspended, suspend_task, unsuspend_task,
}
use so_tpe.Kernel.Scheduler.Lists.{
  Lists, Absent, IsTask, Represents, enqueue-Represents, remove-Represents,
}
use so_tpe.Kernel.Scheduler.Select.{IsValid}

-- The queues see of a task its links and its process id.
pub Represents-same :
    (h g : Heap) (qs : QueueId → Queue) (ls : Lists)
    → ((a : ℕ) → ((g a).next ≡ (h a).next) × ((g a).prev ≡ (h a).prev) × ((g a).pid ≡ (h a).pid))
    → Represents h qs ls
    → Represents g qs ls
Represents-same h g qs ls same r = record {
  holds = λ i. record {
    count = (r.holds i).count;
    chain =
        Seg-frame h g null (qs i).head (ls i) (r.holds i).chain (λ a m. ((same a).0, (same a).1));
    ends = (r.holds i).ends;
    distinct = (r.holds i).distinct;
    valid = (r.holds i).valid;
  };
  apart = r.apart;
  own_pid = λ a b va vb e. r.own_pid a b va vb (sym (same a).2 ∙ (e ∙ (same b).2));
}

pub set_state_same :
    (t : ℕ) (s : TaskState) (h : Heap) (a : ℕ)
    → ((set_state t s h a).next ≡ (h a).next)
      × ((set_state t s h a).prev ≡ (h a).prev)
      × ((set_state t s h a).pid ≡ (h a).pid)
unfolding set_state
set_state_same t s h a = ground arith

pub set_atomic_same :
    (t : ℕ) (b : Bool) (h : Heap) (a : ℕ)
    → ((set_atomic_level t b h a).next ≡ (h a).next)
      × ((set_atomic_level t b h a).prev ≡ (h a).prev)
      × ((set_atomic_level t b h a).pid ≡ (h a).pid)
unfolding set_atomic_level
set_atomic_same t b h a = ground arith

has-erase_self : (t : ℕ) (xs : List ℕ) → Distinct xs → has t (erase t xs) ≡ false
has-erase_self t [] d = refl
has-erase_self t (x ∷ xs) d = ground (arith, has-erase_self t xs d.1)

-- The lists with `t` moved from the end or the middle of one to the end of another.
abbrev pub move : QueueId → QueueId → ℕ → Lists → Lists
move i j t ls = let ls' = update ls i (erase t (ls i)) in update ls' j (ls' j ++ t ∷ [])

module _ (k : Kernel) (ls : Lists) (r : Represents k.tasks k.queues ls) (i j : QueueId)
    (t : ℕ) where
  pub Absent-erase : has t (ls i) ≡ true → Absent t (update ls i (erase t (ls i)))
  Absent-erase m n = elim (Bool-cases (same_queue i n)) [
    | inl e ↦ rw e (has-erase_self t (ls i) (r.holds i).distinct)
    | inr e ↦ rw e (r.apart i n t e m)
  ]

  -- Taking a task out of one queue and putting it into another moves it in the lists.
  pub move-Represents :
      IsTask t
      → has t (ls i) ≡ true
      → (k1 : Kernel) × (remove i t k ≡ some k1)
        × Represents (enqueue j t k1).tasks (enqueue j t k1).queues (move i j t ls)
        × ((a : ℕ) → (k1.tasks a).state ≡ (k.tasks a).state)
        × ((a : ℕ) → (k1.tasks a).priority ≡ (k.tasks a).priority)
        × (k1.current_task ≡ k.current_task)
  move-Represents v m =
      let (q, h, run, rep, s) = remove-Represents k ls r i t v m in
      (
        record k { tasks = h; queues = update k.queues i q },
        run,
        enqueue-Represents _ (update ls i (erase t (ls i))) rep j t v (Absent-erase m),
        λ a. ap (λ x. x.state) (s.others a),
        λ a. ap (λ x. x.priority) (s.others a),
        refl,
      )

  Absent-erased : (a : ℕ) → Absent a ls → Absent a (update ls i (erase t (ls i)))
  Absent-erased a n x = elim (Bool-cases (same_queue i x)) [
    | inl e ↦ rw e (has-erase a t (ls i) (n i))
    | inr e ↦ rw e (n x)
  ]

  pub Absent-move : (a : ℕ) → a ≢ t → Absent a ls → Absent a (move i j t ls)
  Absent-move a ne n x = elim (Bool-cases (same_queue j x)) [
    | inl e ↦
        rw (e, has-append a (update ls i (erase t (ls i)) j) t, Absent-erased a n j) (ground arith)
    | inr e ↦ rw e (Absent-erased a n x)
  ]

-- The globals once `t` has its new state, inside the atomic section.
abbrev pub marked : ℕ → TaskState → Kernel → Kernel
marked t s k = let k' = atomize k in record k' { tasks = set_state t s k'.tasks }

marked_same :
    (t : ℕ) (s : TaskState) (k : Kernel) (a : ℕ)
    → (((marked t s k).tasks a).next ≡ (k.tasks a).next)
      × (((marked t s k).tasks a).prev ≡ (k.tasks a).prev)
      × (((marked t s k).tasks a).pid ≡ (k.tasks a).pid)
unfolding atomize set_atomic_level set_state
marked_same t s k a = ground arith

pub marked_rest :
    (t : ℕ) (s : TaskState) (k : Kernel) (a : ℕ)
    → (((marked t s k).tasks a).state ≡ (if t == a then s else (k.tasks a).state))
      × (((marked t s k).tasks a).priority ≡ (k.tasks a).priority)
unfolding atomize set_atomic_level set_state
marked_rest t s k a = ground arith

pub marked_globals :
    (t : ℕ) (s : TaskState) (k : Kernel)
    → ((marked t s k).queues ≡ k.queues) × ((marked t s k).current_task ≡ k.current_task)
unfolding atomize
marked_globals t s k = (refl, refl)

pub marked-Represents :
    (t : ℕ) (s : TaskState) (k : Kernel) (ls : Lists)
    → Represents k.tasks k.queues ls
    → Represents (marked t s k).tasks (marked t s k).queues ls
unfolding atomize
marked-Represents t s k ls r = Represents-same k.tasks _ k.queues ls (marked_same t s k) r

pub enqueue_rest :
    (i : QueueId) (t : ℕ) (k : Kernel) (a : ℕ)
    → (((unatomize (enqueue i t k)).tasks a).state ≡ (k.tasks a).state)
      × ((unatomize (enqueue i t k)).current_task ≡ k.current_task)
unfolding unatomize enqueue add_to_queue set_next set_prev set_atomic_level
enqueue_rest i t k a = ground arith

pub unatomize-Represents :
    (k : Kernel) (ls : Lists)
    → Represents k.tasks k.queues ls
    → Represents (unatomize k).tasks (unatomize k).queues ls
unfolding unatomize
unatomize-Represents k ls r =
    Represents-same k.tasks _ k.queues ls (set_atomic_same k.current_task false k.tasks) r

-- A task that is in queue `i` gets a new state and moves to the end of queue `j`.
pub record Moved (k k' : Kernel) (ls : Lists) (i j : QueueId) (t : ℕ) (s : TaskState) : Type 0 where
  pub valid : IsValid k' (move i j t ls)
  pub marked_state : (k'.tasks t).state ≡ s
  pub same_running : k'.current_task ≡ k.current_task

pub test_of_ne : (a b : ℕ) → a ≢ b → (a == b) ≡ false
test_of_ne a b ne = ground arith

transfer :
    (k : Kernel) (ls : Lists) (i j : QueueId) (t : ℕ) (s : TaskState)
    → IsValid k ls
    → has t (ls i) ≡ true
    → IsTask t
    → (k2 : Kernel) × (remove i t (marked t s k) ≡ some k2)
      × Moved k (unatomize (enqueue j t k2)) ls i j t s
      × ((k2.tasks t).priority ≡ (k.tasks t).priority)
transfer k ls i j t s v m task =
    let (k2, run, rep, states, priorities, current) =
      move-Represents (marked t s k) ls (marked-Represents t s k ls v.queued) i j t task m in
    let e : (unatomize (enqueue j t k2)).current_task ≡ k.current_task =
      (enqueue_rest j t k2 t).1 ∙ (current ∙ (marked_globals t s k).1) in
    let other : (a : ℕ) → Absent a ls → a ≢ t =
      λ a n f. ground (arith, let x : has t (ls i) ≡ false = rw f at (n i) in x) in
    let away : (a : ℕ) → Absent a ls → Absent a (move i j t ls) = λ a n.
      Absent-move (marked t s k) ls (marked-Represents t s k ls v.queued) i j t a (other a n) n in
    (
      k2,
      run,
      record {
        valid = record {
          queued = unatomize-Represents _ _ rep;
          running = rw e v.running;
          running_absent = rw e (away k.current_task v.running_absent);
          null_absent = away null_process_task v.null_absent;
          null_state =
              (enqueue_rest j t k2 null_process_task).0
              ∙ (states null_process_task
                  ∙ ((marked_rest t s k null_process_task).0
                      ∙ rw
                          (test_of_ne t null_process_task
                            (λ f. other null_process_task v.null_absent (sym f)))
                          v.null_state));
        };
        marked_state =
            (enqueue_rest j t k2 t).0 ∙ (states t ∙ ((marked_rest t s k t).0 ∙ ground arith));
        same_running = e;
      },
      priorities t ∙ (marked_rest t s k t).1,
    )

pub atomize_state : (k : Kernel) (a : ℕ) → ((atomize k).tasks a).state ≡ (k.tasks a).state
unfolding atomize set_atomic_level
atomize_state k a = ground arith

-- Suspending a ready task in its queue keeps a valid kernel valid: the task is taken out of the
-- ready queue of its priority, becomes suspended and goes to the end of the suspended queue; every
-- other queue, and the running task, stay.
pub suspend_task-Moved :
    (k : Kernel) (ls : Lists) (t : ℕ)
    → IsValid k ls
    → IsTask t
    → (k.tasks t).state ≡ TaskState.ready
    → has t (ls (ready_tasks (k.tasks t).priority)) ≡ true
    → (k' : Kernel) × (suspend_task t k ≡ some k')
      × Moved k k' ls (ready_tasks (k.tasks t).priority) suspended_tasks t TaskState.suspended
unfolding suspend_task
suspend_task-Moved k ls t v task st m =
    let (k2, run, moved, same) =
      transfer k ls (ready_tasks (k.tasks t).priority) suspended_tasks t TaskState.suspended v m
        task in
    let no_ : is_suspended ((atomize k).tasks t).state ≡ false = rw (atomize_state k t, st) in
    (
      unatomize (enqueue suspended_tasks t k2),
      simp (no_, (marked_rest t TaskState.suspended k t).1, run),
      moved,
    )

-- Resuming a suspended task in its queue keeps a valid kernel valid: the task is taken out of the
-- suspended queue, becomes ready and goes to the end of the ready queue of its priority; every other
-- queue, and the running task, stay.
pub unsuspend_task-Moved :
    (k : Kernel) (ls : Lists) (t : ℕ)
    → IsValid k ls
    → IsTask t
    → (k.tasks t).state ≡ TaskState.suspended
    → has t (ls suspended_tasks) ≡ true
    → (k' : Kernel) × (unsuspend_task t k ≡ some k')
      × Moved k k' ls suspended_tasks (ready_tasks (k.tasks t).priority) t TaskState.ready
unfolding unsuspend_task
unsuspend_task-Moved k ls t v task st m =
    let (k2, run, moved, same) =
      transfer k ls suspended_tasks (ready_tasks (k.tasks t).priority) t TaskState.ready v m task in
    let yes_ : is_suspended ((atomize k).tasks t).state ≡ true = rw (atomize_state k t, st) in
    (unatomize (enqueue (ready_tasks (k.tasks t).priority) t k2), simp (yes_, run, same), moved)
