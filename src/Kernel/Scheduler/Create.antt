-- ===== src/Kernel/Scheduler/Create.antt =====
-- `CreateProcess` over a valid kernel.
use so_tpe.Prelude.{
  ℕ, zero, suc, ◌+◌, ◌-◌, ◌*◌, ◌%◌, ◌^◌, ◌<◌, ◌≡◌, refl, ap, ◌∙◌, inl, inr, Bool, true, false, some,
  List, [], ◌∷◌, ◌++◌, arith, ◌==◌, leb, ◌||◌, if◌then◌else◌, Bool-cases, length,
}
use so_tpe.Kernel.Task.{
  Heap, Task, TaskState, null, null_process_task, max_priorities, set_next, set_prev,
}
use so_tpe.Kernel.Queue.{add_to_queue}
use so_tpe.Kernel.Queue.Seg.{has, has-append}
use so_tpe.Kernel.Scheduler.{
  QueueId, ready_tasks, empty_tasks, same_queue, update, Code, Kernel, enqueue, dequeue,
}
use so_tpe.Kernel.Scheduler.Lists.{
  Lists, Absent, IsTask, Represents, enqueue-Represents, dequeue-Represents, Holds-IsTask,
}
use so_tpe.Kernel.Scheduler.Select.{IsValid, dequeue_state, enqueue_state, null_gone, still-Absent}
use so_tpe.Kernel.Scheduler.Process.{
  create_process, create_stack_frame, prepare, show_at, describe, inherit, on_stack, show_in_front,
  tty_count, procname_max,
}
use so_tpe.Kernel.Scheduler.Reap.{KeepsLinks, write_task-Represents}

-- The scheduler's part of a kernel is the same in two.
record SameTasks (k k' : Kernel) : Type 0 where
  tasks : k'.tasks ≡ k.tasks
  queues : k'.queues ≡ k.queues
  running : k'.current_task ≡ k.current_task

show_at-SameTasks : (i tty p : ℕ) (k : Kernel) → SameTasks k (show_at i tty p k)
unfolding show_at
show_at-SameTasks i tty p k = record {
  tasks = ground arith;
  queues = ground arith;
  running = ground arith;
}

show_in_front-SameTasks : (n i tty p : ℕ) (k : Kernel) → SameTasks k (show_in_front n i tty p k)
unfolding show_in_front
show_in_front-SameTasks zero i tty p k = record { tasks = refl; queues = refl; running = refl }
show_in_front-SameTasks (suc n) i tty p k =
    let one = show_at-SameTasks i tty p k in
    let more = show_in_front-SameTasks n (i + 1) tty p (show_at i tty p k) in
    record {
      tasks = more.tasks ∙ one.tasks;
      queues = more.queues ∙ one.queues;
      running = more.running ∙ one.running;
    }

front-SameTasks :
    (is_front : Bool) (tty t : ℕ) (k : Kernel)
    → SameTasks k (if is_front then show_in_front tty_count 0 tty t k else k)
front-SameTasks true tty t k = show_in_front-SameTasks tty_count 0 tty t k
front-SameTasks false tty t k = record { tasks = refl; queues = refl; running = refl }

SameTasks-IsValid : (k k' : Kernel) (ls : Lists) → SameTasks k k' → IsValid k ls → IsValid k' ls
SameTasks-IsValid k k' ls s v = record {
  queued = rw (s.tasks, s.queues) v.queued;
  running = rw s.running v.running;
  running_absent = rw s.running v.running_absent;
  null_absent = v.null_absent;
  null_state = rw s.tasks v.null_state;
}

inherit-KeepsLinks : (tty parent : ℕ) (h : Heap) → KeepsLinks (inherit tty parent h)
unfolding inherit
inherit-KeepsLinks tty parent h t = ground arith

describe-KeepsLinks :
    (name : List ℕ) (priority : ℕ) (is_front : Bool) → KeepsLinks (describe name priority is_front)
unfolding describe
describe-KeepsLinks name priority is_front t = (refl, refl, refl)

-- A task as `CreateProcess` makes it.
pub record IsMade (name : List ℕ) (priority parent tty : ℕ) (t : Task) : Type 0 where
  pub has_state : t.state ≡ TaskState.ready
  pub has_name : t.name ≡ name
  pub has_priority : t.priority ≡ priority
  pub has_parent : t.parent ≡ parent
  pub has_tty : t.tty_number ≡ tty
  pub has_atomic : t.atomic_level ≡ false

-- What is written into the new task leaves the queues as they are, and the other tasks.
module _ (p : ℕ) (name : List ℕ) (process : Code) (parent tty argc argv stack_start priority : ℕ)
    (is_front : Bool) (k : Kernel) where
  prepare-Represents :
      (ls : Lists)
      → Represents k.tasks k.queues ls
      → let k' = prepare p name process parent tty argc argv stack_start priority is_front k in
        Represents k'.tasks k'.queues ls
  unfolding prepare create_stack_frame
  prepare-Represents ls r =
      write_task-Represents _ k.queues ls p (describe name priority is_front)
        (describe-KeepsLinks name priority is_front)
        (write_task-Represents _ k.queues ls p
          (on_stack stack_start ((stack_start + 2 ^ 32 - 14 * 4 - 1) % 2 ^ 32))
          (λ t. (refl, refl, refl))
          (write_task-Represents k.tasks k.queues ls p (inherit tty parent k.tasks)
            (inherit-KeepsLinks tty parent k.tasks) r))

  prepare_others :
      (a : ℕ)
      → (p == a) ≡ false
      → (prepare p name process parent tty argc argv stack_start priority is_front k).tasks a
        ≡ k.tasks a
  unfolding prepare create_stack_frame
  prepare_others a ne = ground arith

  prepare_running :
      (prepare p name process parent tty argc argv stack_start priority is_front k).current_task
      ≡ k.current_task
  unfolding prepare create_stack_frame
  prepare_running = refl

  prepare-IsMade :
      IsMade name priority parent tty
        ((prepare p name process parent tty argc argv stack_start priority is_front k).tasks p)
  unfolding prepare create_stack_frame describe inherit
  prepare-IsMade = record {
    has_state = ground arith;
    has_name = ground arith;
    has_priority = ground arith;
    has_parent = ground arith;
    has_tty = ground arith;
    has_atomic = ground arith;
  }

pub enqueue_task :
    (i : QueueId) (t : ℕ) (k : Kernel) (a : ℕ)
    → let g = (enqueue i t k).tasks a in g ≡ record (k.tasks a) { prev = g.prev; next = g.next }
unfolding enqueue add_to_queue set_next set_prev
enqueue_task i t k a = ground arith

pub enqueue_running :
    (i : QueueId) (t : ℕ) (k : Kernel) → (enqueue i t k).current_task ≡ k.current_task
unfolding enqueue
enqueue_running i t k = ground arith

dequeue_running : (i : QueueId) (k : Kernel) → (dequeue i k).1.current_task ≡ k.current_task
unfolding dequeue
dequeue_running i k = refl

enqueue-IsMade :
    (name : List ℕ) (priority parent tty : ℕ) (i : QueueId) (t : ℕ) (k : Kernel) (a : ℕ)
    → IsMade name priority parent tty (k.tasks a)
    → IsMade name priority parent tty ((enqueue i t k).tasks a)
enqueue-IsMade name priority parent tty i t k a m =
    let e = enqueue_task i t k a in
    record {
      has_state = ap (λ x. x.state) e ∙ m.has_state;
      has_name = ap (λ x. x.name) e ∙ m.has_name;
      has_priority = ap (λ x. x.priority) e ∙ m.has_priority;
      has_parent = ap (λ x. x.parent) e ∙ m.has_parent;
      has_tty = ap (λ x. x.tty_number) e ∙ m.has_tty;
      has_atomic = ap (λ x. x.atomic_level) e ∙ m.has_atomic;
    }

Absent-add :
    (a t : ℕ) (i : QueueId) (ls : Lists)
    → (a == t) ≡ false
    → Absent a ls
    → Absent a (update ls i (ls i ++ t ∷ []))
Absent-add a t i ls ne n j = elim (Bool-cases (same_queue i j)) [
  | inl f ↦ rw (f, has-append a (ls i) t, n i, ne)
  | inr f ↦ rw f (n j)
]

not_head :
    (a t : ℕ) (i : QueueId) (ts : List ℕ) (ls : Lists)
    → Absent a ls
    → ls i ≡ t ∷ ts
    → (a == t) ≡ false
not_head a t i ts ls n e = ground (arith, let m : has a (t ∷ ts) ≡ false = rw e at (n i) in m)

-- With a task to spare, a name that fits and one of the five priorities, over a valid kernel, `CreateProcess` takes the first
-- empty task, makes it a ready task of that name, priority, parent and terminal that is not atomic,
-- and puts it at the end of the ready queue of its priority; the kernel stays valid, with the same
-- running task, and the other queues keep their tasks.
pub create_process-IsValid :
    (name : List ℕ) (process : Code) (parent tty argc argv stack_start priority : ℕ)
    (is_front : Bool) (k : Kernel) (ls : Lists) (t : ℕ) (ts : List ℕ)
    → IsValid k ls
    → ls empty_tasks ≡ t ∷ ts
    → length name < procname_max
    → priority < max_priorities
    → (k' : Kernel) × (create_process name process parent tty argc argv stack_start priority
          is_front k
        ≡ some (t, k'))
      × IsValid k' (
          update
            (update ls empty_tasks ts)
            (ready_tasks priority)
            (ls (ready_tasks priority) ++ t ∷ []))
      × (k'.current_task ≡ k.current_task)
      × IsMade name priority parent tty (k'.tasks t)
unfolding create_process
create_process-IsValid name process parent tty argc argv stack_start priority is_front k ls t ts v e
      le lp =
    let (ret, q) = dequeue-Represents k ls v.queued empty_tasks t ts e in
    let k1 = (dequeue empty_tasks k).1 in
    let k2 = prepare t name process parent tty argc argv stack_start priority is_front k1 in
    let i = ready_tasks priority in
    let k3 = enqueue i t k2 in
    let k4 = if is_front then show_in_front tty_count 0 tty t k3 else k3 in
    let task : IsTask t =
      Holds-IsTask _ _ _ (rw e at (v.queued.holds empty_tasks)) t (ground arith) in
    let q2 =
      prepare-Represents t name process parent tty argc argv stack_start priority is_front k1
        (update ls empty_tasks ts) q in
    let q3 =
      enqueue-Represents k2 (update ls empty_tasks ts) q2 i t task
        (null_gone k ls v.queued empty_tasks t ts e) in
    let away : (a : ℕ) → Absent a ls → Absent a _ = λ a n.
      Absent-add a t i (update ls empty_tasks ts) (not_head a t empty_tasks ts ls n e)
        (still-Absent k ls v.queued a empty_tasks t ts e n) in
    let not_null : (t == null) ≡ false = ground (arith, task.0) in
    let fits : (leb procname_max (length name) || leb max_priorities priority) ≡ false =
      ground arith in
    let same = front-SameTasks is_front tty t k3 in
    let running : k3.current_task ≡ k.current_task =
      enqueue_running i t k2
      ∙ (prepare_running t name process parent tty argc argv stack_start priority is_front k1
          ∙ dequeue_running empty_tasks k) in
    let null_apart : (t == null_process_task) ≡ false =
      ground (arith, not_head null_process_task t empty_tasks ts ls v.null_absent e) in
    let v3 : IsValid k3 _ = record {
      queued = q3;
      running = rw running v.running;
      running_absent = rw running (away k.current_task v.running_absent);
      null_absent = away null_process_task v.null_absent;
      null_state =
          enqueue_state i t k2 null_process_task
          ∙ (ap (λ x. x.state)
                (prepare_others t name process parent tty argc argv stack_start priority is_front k1
                  null_process_task null_apart)
              ∙ (dequeue_state empty_tasks k null_process_task ∙ v.null_state));
    } in
    (
      k4,
      simp (ret, not_null, fits),
      SameTasks-IsValid k3 k4 _ same v3,
      same.running ∙ running,
      rw same.tasks (
          enqueue-IsMade name priority parent tty i t k2 t
            (prepare-IsMade t name process parent tty argc argv stack_start priority is_front k1)),
    )
