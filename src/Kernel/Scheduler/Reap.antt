-- ===== src/Kernel/Scheduler/Reap.antt =====
-- The loop of `null_process`: what becomes of terminated tasks.
use so_tpe.Prelude.{
  ℕ, zero, suc, ◌≤◌, ◌≡◌, refl, sym, ap, ◌∙◌, fun_ext, inl, inr, true, false, some, List, [], ◌∷◌,
  arith, ◌==◌, Bool-cases, length,
}
use so_tpe.Kernel.Task.{Heap, Task, TaskState, null_process_task}
use so_tpe.Kernel.Queue.{is_empty}
use so_tpe.Kernel.Queue.Seg.{has}
use so_tpe.Kernel.Queue.Rep.{is_empty-Holds}
use so_tpe.Kernel.Scheduler.{QueueId, terminated_tasks, same_queue, update, Kernel, dequeue}
use so_tpe.Kernel.Scheduler.Lists.{Lists, Absent, Represents, dequeue-Represents, same_queue_eq}
use so_tpe.Kernel.Scheduler.Select.{IsValid, dequeue_state, eq_of_test}
use so_tpe.Kernel.Scheduler.Suspend.{Represents-same}
use so_tpe.Kernel.Scheduler.Process.{reap, wipe, write_task}

pub update_twice :
    (ls : Lists) (i : QueueId) (xs ys : List ℕ) → update (update ls i xs) i ys ≡ update ls i ys
update_twice ls i xs ys =
    fun_ext λ j. elim (Bool-cases (same_queue i j)) [ inl e ↦ rw e | inr e ↦ rw e ]

-- `f` keeps what the queues see of a task.
abbrev pub KeepsLinks : (Task → Task) → Type 0
KeepsLinks f = (t : Task) → ((f t).next ≡ t.next) × ((f t).prev ≡ t.prev) × ((f t).pid ≡ t.pid)

pub write_task-Represents :
    (h : Heap) (qs : _) (ls : Lists) (p : ℕ) (f : Task → Task)
    → KeepsLinks f
    → Represents h qs ls
    → Represents (write_task p f h) qs ls
write_task-Represents h qs ls p f keeps r =
    Represents-same h (write_task p f h) qs ls (λ a. ground (arith, keeps (h a))) r

wipe-KeepsLinks : KeepsLinks wipe
unfolding wipe
wipe-KeepsLinks t = (refl, refl, refl)

wipe_state : (t : Task) → (wipe t).state ≡ TaskState.empty
unfolding wipe
wipe_state t = refl

-- `k'` is `k` after the terminated tasks `xs` are wiped.
record Reaped (k k' : Kernel) (ls : Lists) (xs : List ℕ) : Type 0 where
  pub queued : Represents k'.tasks k'.queues (update ls terminated_tasks [])
  pub wiped : (a : ℕ) → has a xs ≡ true → (k'.tasks a).state ≡ TaskState.empty
  pub kept : (a : ℕ) → has a xs ≡ false → (k'.tasks a).state ≡ (k.tasks a).state
  pub running : k'.current_task ≡ k.current_task

-- One round.
abbrev once : Kernel → Kernel
once k =
    let (aux, k1) = dequeue terminated_tasks k in
    let k2 : Kernel = record k1 { tasks = write_task aux wipe k1.tasks } in k2

once_running : (k : Kernel) → (once k).current_task ≡ k.current_task
unfolding dequeue
once_running k = refl

once_state :
    (k : Kernel) (t : ℕ)
    → (dequeue terminated_tasks k).0 ≡ t
    → (((once k).tasks t).state ≡ TaskState.empty)
      × ((a : ℕ) → (t == a) ≡ false → ((once k).tasks a).state ≡ (k.tasks a).state)
once_state k t e = rw e (
  ground (arith, wipe_state ((dequeue terminated_tasks k).1.tasks t)),
  λ a ne. ground (arith, dequeue_state terminated_tasks k a),
)

update_to : (ls : Lists) (i : QueueId) (xs : List ℕ) → ls i ≡ xs → update ls i xs ≡ ls
update_to ls i xs e = fun_ext λ j. elim (Bool-cases (same_queue i j)) [
  | inl f ↦ rw f (sym e ∙ ap ls (same_queue_eq i j f))
  | inr f ↦ rw f
]

once-Represents :
    (k : Kernel) (ls : Lists) (t : ℕ) (ts : List ℕ)
    → Represents k.tasks k.queues ls
    → ls terminated_tasks ≡ t ∷ ts
    → ((dequeue terminated_tasks k).0 ≡ t)
      × Represents (once k).tasks (once k).queues (update ls terminated_tasks ts)
once-Represents k ls t ts r e =
    let (ret, q) = dequeue-Represents k ls r terminated_tasks t ts e in
    (ret, write_task-Represents _ _ _ _ wipe wipe-KeepsLinks q)

reap-once :
    (fuel : ℕ) (k : Kernel)
    → is_empty (k.queues terminated_tasks) ≡ false
    → reap (suc fuel) k ≡ reap fuel (once k)
unfolding reap
reap-once fuel k e = rw e

reap_done :
    (fuel : ℕ) (k : Kernel) → is_empty (k.queues terminated_tasks) ≡ true → reap fuel k ≡ some k
unfolding reap
reap_done zero k e = rw e
reap_done (suc fuel) k e = rw e

reap-Reaped :
    (xs : List ℕ) (fuel : ℕ) (k : Kernel) (ls : Lists)
    → Represents k.tasks k.queues ls
    → ls terminated_tasks ≡ xs
    → length xs ≤ fuel
    → (k' : Kernel) × (reap fuel k ≡ some k') × Reaped k k' ls xs
reap-Reaped [] fuel k ls r e le =
    let done : is_empty (k.queues terminated_tasks) ≡ true =
      is_empty-Holds (ls terminated_tasks) (r.holds terminated_tasks) ∙ rw e (refl) in
    (
      k,
      reap_done fuel k done,
      record {
        queued = rw (update_to ls terminated_tasks [] e) r;
        wiped = λ a m. absurd (ground arith);
        kept = λ a m. refl;
        running = refl;
      },
    )
reap-Reaped (t ∷ ts) zero k ls r e le = absurd (ground arith)
reap-Reaped (t ∷ ts) (suc fuel) k ls r e le =
    let more : is_empty (k.queues terminated_tasks) ≡ false =
      is_empty-Holds (ls terminated_tasks) (r.holds terminated_tasks) ∙ rw e (ground arith) in
    let (ret, q) = once-Represents k ls t ts r e in
    let (k', run, d) =
      reap-Reaped ts fuel (once k) (update ls terminated_tasks ts) q refl (ground arith) in
    let (new, old) = once_state k t ret in
    let apart : has t ts ≡ false = (rw e at (r.holds terminated_tasks)).distinct.0 in
    (
      k',
      reap-once fuel k more ∙ run,
      record {
        queued = rw (← update_twice ls terminated_tasks ts []) d.queued;
        wiped = λ a m. elim (Bool-cases (t == a)) [
          | inl f ↦ rw (← eq_of_test t a f, d.kept t apart, new)
          | inr f ↦ d.wiped a (ground arith)
        ];
        kept = λ a m. d.kept a (ground arith) ∙ old a (ground arith);
        running = d.running ∙ once_running k;
      },
    )

-- The loop of `null_process` over a valid kernel ends within as many rounds as there are terminated
-- tasks. It empties their queue and marks each of them empty, keeps the kernel valid, and changes
-- no other queue and no other task's state; so the tasks that it marks empty are then in no queue,
-- and not in the queue of empty tasks from which new processes are made.
pub reap-Absent :
    (k : Kernel) (ls : Lists)
    → IsValid k ls
    → (k' : Kernel) × (reap (length (ls terminated_tasks)) k ≡ some k')
      × IsValid k' (update ls terminated_tasks [])
      × ((t : ℕ)
          → has t (ls terminated_tasks) ≡ true
          → ((k'.tasks t).state ≡ TaskState.empty) × Absent t (update ls terminated_tasks []))
      × ((t : ℕ) → has t (ls terminated_tasks) ≡ false → (k'.tasks t).state ≡ (k.tasks t).state)
reap-Absent k ls v =
    let (k', run, d) =
      reap-Reaped (ls terminated_tasks) (length (ls terminated_tasks)) k ls v.queued refl
        (omega arith) in
    (
      k',
      run,
      record {
        queued = d.queued;
        running = rw d.running v.running;
        running_absent = rw d.running (empties k.current_task v.running_absent);
        null_absent = empties null_process_task v.null_absent;
        null_state = d.kept null_process_task (v.null_absent terminated_tasks) ∙ v.null_state;
      },
      λ t m. (
        d.wiped t m,
        λ j. elim (Bool-cases (same_queue terminated_tasks j)) [
          | inl f ↦ rw f
          | inr f ↦ rw f (v.queued.apart terminated_tasks j t f m)
        ],
      ),
      d.kept,
    )
  where
    empties : (a : ℕ) → Absent a ls → Absent a (update ls terminated_tasks [])
    empties a n j = elim (Bool-cases (same_queue terminated_tasks j)) [
      | inl f ↦ rw f
      | inr f ↦ rw f (n j)
    ]
