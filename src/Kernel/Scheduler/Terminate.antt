-- ===== src/Kernel/Scheduler/Terminate.antt =====
-- `terminate_task`: the tasks that it refuses, and those that it moves.
use so_tpe.Prelude.{
  ℕ, zero, suc, ◌+◌, ◌≡◌, refl, sym, ap, ◌∙◌, ◌≢◌, ◌⊎◌, inl, inr, true, false, some, List, [], ◌<◌,
  ◌-◌, ◌^◌, ltb, arith, ◌==◌, if◌then◌else◌, Bool-cases,
}
use so_tpe.Kernel.Task.{
  Heap, TaskState, null, null_process_task, max_processes, dec, set_state, set_atomic_level,
}
use so_tpe.Kernel.Strings.Laws.{streq_refl}
use so_tpe.Kernel.Queue.Seg.{has, erase}
use so_tpe.Kernel.Scheduler.{
  QueueId, terminated_tasks, update, Kernel, enqueue, remove, queue_of, select_next, atomize,
  unatomize,
}
use so_tpe.Kernel.Scheduler.Lists.{
  Lists, Absent, IsTask, Represents, remove-Represents, enqueue-Represents, Holds-IsTask,
}
use so_tpe.Kernel.Scheduler.Select.{IsValid}
use so_tpe.Kernel.Scheduler.Suspend.{
  Represents-same, move, Absent-erase, Absent-move, Moved, atomize_state, unatomize-Represents,
  test_of_ne, set_state_same, set_atomic_same,
}
use so_tpe.Kernel.Scheduler.Create.{enqueue_task, enqueue_running}
use so_tpe.Kernel.Scheduler.Process.{
  terminate_task, kill, is_refused, is_named, shell_name, exit_success, exit_failure,
}

atomize_task :
    (k : Kernel) (a : ℕ)
    → (((atomize k).tasks a).name ≡ (k.tasks a).name)
      × (queue_of ((atomize k).tasks a) ≡ queue_of (k.tasks a))
      × (((atomize k).tasks a).tty_number ≡ (k.tasks a).tty_number)
unfolding atomize set_atomic_level queue_of
atomize_task k a = (ground arith, ground arith, ground arith)

is_refused-atomize : (pid : ℕ) (k : Kernel) → is_refused pid (atomize k) ≡ is_refused pid k
unfolding is_refused
is_refused-atomize pid k =
    simp ((atomize_task k (dec pid + 1)).0, (atomize_task k null_process_task).0)

atomize_running :
    (k : Kernel)
    → ((atomize k).current_task ≡ k.current_task)
      × (((atomize k).tasks k.current_task).atomic_level ≡ true)
unfolding atomize set_atomic_level
atomize_running k = (refl, ground arith)

select_next-atomize : (k : Kernel) → k.current_task ≢ null → select_next (atomize k) ≡ atomize k
unfolding select_next
select_next-atomize k ne =
    let (c, a) = atomize_running k in
    let nn : (k.current_task == null) ≡ false = ground arith in rw (c, nn, a)

-- The tasks that are not to be terminated.
pub data IsSpared (pid : ℕ) (k : Kernel) : Type 0 where
  no_process : (pid ≡ 0) ⊎ (max_processes < pid) → IsSpared pid k
  shell : (k.tasks pid).name ≡ shell_name → IsSpared pid k
  null_process : (k.tasks pid).name ≡ (k.tasks null_process_task).name → IsSpared pid k
  ended :
      ((k.tasks pid).state ≡ TaskState.empty) ⊎ ((k.tasks pid).state ≡ TaskState.terminated)
      → IsSpared pid k

is_named_self : (name : List ℕ) → is_named name name ≡ true
unfolding is_named
is_named_self name = rw (is_named, streq_refl name []) refl

is_refused-shell :
    (pid : ℕ) (k : Kernel) → (k.tasks (dec pid + 1)).name ≡ shell_name → is_refused pid k ≡ true
unfolding is_refused
is_refused-shell pid k e = let self = is_named_self shell_name in rw e (ground (arith, self))

is_refused-null :
    (pid : ℕ) (k : Kernel)
    → (k.tasks (dec pid + 1)).name ≡ (k.tasks null_process_task).name
    → is_refused pid k ≡ true
unfolding is_refused
is_refused-null pid k e =
    let self = is_named_self (k.tasks null_process_task).name in rw e (ground (arith, self))

is_refused_number :
    (pid : ℕ) (k : Kernel)
    → pid < 2 ^ 32
    → (pid ≡ 0) ⊎ (max_processes < pid)
    → is_refused pid k ≡ true
unfolding is_refused
is_refused_number pid k word out =
    let big : ltb (max_processes - 1) (dec pid) ≡ true = elim out [
      | inl e ↦ rw e refl
      | inr e ↦ ground (arith, let d : dec pid ≡ pid - 1 = omega (arith, e, word) in d)
    ] in
    ground (arith, big)

refused_by_state :
    (pid : ℕ) (k : Kernel)
    → ((k.tasks (dec pid + 1)).state ≡ TaskState.empty)
      ⊎ ((k.tasks (dec pid + 1)).state ≡ TaskState.terminated)
    → terminate_task pid k ≡ some (exit_failure, atomize k)
unfolding terminate_task
refused_by_state pid k why =
    let st = atomize_state k (dec pid + 1) in
    elim (Bool-cases (is_refused pid (atomize k))) [
      | inl r ↦ rw r
      | inr r ↦ elim why [ inl e ↦ rw (r, st, e) | inr e ↦ rw (r, st, e) ]
    ]

refused_by_number :
    (pid : ℕ) (k : Kernel)
    → is_refused pid k ≡ true
    → terminate_task pid k ≡ some (exit_failure, atomize k)
unfolding terminate_task
refused_by_number pid k e = rw (is_refused-atomize pid k, e) refl

task_of_pid : (pid : ℕ) → pid < 2 ^ 32 → (pid ≡ 0) ⊎ (dec pid + 1 ≡ pid)
task_of_pid zero word = inl refl
task_of_pid (suc p) word = inr (omega arith)

refused :
    (pid : ℕ) (k : Kernel)
    → pid < 2 ^ 32
    → IsSpared pid k
    → terminate_task pid k ≡ some (exit_failure, atomize k)
refused pid k word why = elim (task_of_pid pid word) [
  | inl z ↦ refused_by_number pid k (is_refused_number pid k word (inl z))
  | inr e ↦ elim why [
    | IsSpared.no_process out ↦ refused_by_number pid k (is_refused_number pid k word out)
    | IsSpared.shell n ↦ refused_by_number pid k (is_refused-shell pid k (rw e n))
    | IsSpared.null_process n ↦ refused_by_number pid k (is_refused-null pid k (rw e n))
    | IsSpared.ended st ↦ refused_by_state pid k (rw e st)
  ]
]

-- `terminate_task` of a process id that names no process, of a task with the shell's name or the null
-- process's, or of one that is empty or terminated already, over a kernel with a running task: the
-- call fails and changes nothing but that the running task is left atomic, so that the next switch
-- changes nothing.
pub terminate_task_refused :
    (pid : ℕ) (k : Kernel)
    → pid < 2 ^ 32
    → k.current_task ≢ null
    → IsSpared pid k
    → (terminate_task pid k ≡ some (exit_failure, atomize k))
      × (select_next (atomize k) ≡ atomize k)
      × (((atomize k).tasks k.current_task).atomic_level ≡ true)
terminate_task_refused pid k word ne why =
    (refused pid k word why, select_next-atomize k ne, (atomize_running k).1)

terminate_kill :
    (pid : ℕ) (k : Kernel) (i : QueueId)
    → is_refused pid k ≡ false
    → queue_of (k.tasks (dec pid + 1)) ≡ some i
    → (k.tasks (dec pid + 1)).state ≢ TaskState.empty
    → (k.tasks (dec pid + 1)).state ≢ TaskState.terminated
    → terminate_task pid k ≡ kill (dec pid + 1) (atomize k)
unfolding terminate_task queue_of
terminate_kill pid k i ok e ne nt =
    let no_ : is_refused pid (atomize k) ≡ false = is_refused-atomize pid k ∙ ok in
    let st = atomize_state k (dec pid + 1) in rw (no_, st) (ground arith)

abbrev terminated_state : ℕ → Kernel → Kernel
terminated_state t k = record k { tasks = set_state t TaskState.terminated k.tasks }

set_state_rest :
    (t : ℕ) (s : TaskState) (h : Heap) (a : ℕ)
    → ((set_state t s h a).state ≡ (if t == a then s else (h a).state))
      × ((set_state t s h a).tty_number ≡ (h a).tty_number)
unfolding set_state
set_state_rest t s h a = (ground arith, ground arith)

set_atomic_state : (t : ℕ) (k : Kernel) (a : ℕ) → ((unatomize k).tasks a).state ≡ (k.tasks a).state
unfolding unatomize set_atomic_level
set_atomic_state t k a = ground arith

unatomize_running : (k : Kernel) → (unatomize k).current_task ≡ k.current_task
unfolding unatomize
unatomize_running k = refl

enqueue_foreground :
    (i : QueueId) (t : ℕ) (k : Kernel) → (enqueue i t k).foreground_tasks ≡ k.foreground_tasks
unfolding enqueue
enqueue_foreground i t k = refl

-- A task that no terminal shows.
kill_background :
    (k k1 : Kernel) (i : QueueId) (t : ℕ)
    → queue_of (k.tasks t) ≡ some i
    → remove i t k ≡ some k1
    → let k3 = terminated_state t (enqueue terminated_tasks t k1) in
      (k3.foreground_tasks (dec (k3.tasks t).tty_number) == t) ≡ false
      → kill t k ≡ some (exit_success, unatomize k3)
unfolding kill
kill_background k k1 i t m run bg = simp (m, run, bg)

-- The task is in queue `i` and no terminal shows it.
module _ (k : Kernel) (ls : Lists) (v : IsValid k ls) (i : QueueId) (t : ℕ)
    (member : has t (ls i) ≡ true) (task : IsTask t) where
  kill-Moved :
      queue_of (k.tasks t) ≡ some i
      → (k.foreground_tasks (dec (k.tasks t).tty_number) == t) ≡ false
      → (k' : Kernel) × (kill t k ≡ some (exit_success, k'))
        × Moved k k' ls i terminated_tasks t TaskState.terminated
  kill-Moved m bg =
      let (q, h, run, rep, s) = remove-Represents k ls v.queued i t task member in
      let k1 : Kernel = record k { tasks = h; queues = update k.queues i q } in
      let k2 = enqueue terminated_tasks t k1 in
      let k3 = terminated_state t k2 in
      let other : (a : ℕ) → Absent a ls → a ≢ t =
        λ a n f. ground (arith, let x : has t (ls i) ≡ false = rw f at (n i) in x) in
      let away : (a : ℕ) → Absent a ls → Absent a (move i terminated_tasks t ls) =
        λ a n. Absent-move k ls v.queued i terminated_tasks t a (other a n) n in
      let rep2 =
        enqueue-Represents k1 (update ls i (erase t (ls i))) rep terminated_tasks t task
          (Absent-erase k ls v.queued i terminated_tasks t member) in
      let rep3 : Represents k3.tasks k3.queues (move i terminated_tasks t ls) =
        Represents-same k2.tasks k3.tasks k2.queues _
          (set_state_same t TaskState.terminated k2.tasks) rep2 in
      let current : (unatomize k3).current_task ≡ k.current_task =
        unatomize_running k3 ∙ enqueue_running terminated_tasks t k1 in
      let tty : (k3.tasks t).tty_number ≡ (k.tasks t).tty_number =
        (set_state_rest t TaskState.terminated k2.tasks t).1
        ∙ (ap (λ x. x.tty_number) (enqueue_task terminated_tasks t k1 t)
            ∙ ap (λ x. x.tty_number) (s.others t)) in
      let states : (a : ℕ) → (k2.tasks a).state ≡ (k.tasks a).state = λ a.
        ap (λ x. x.state) (enqueue_task terminated_tasks t k1 a) ∙ ap (λ x. x.state) (s.others a) in
      (
        unatomize k3,
        kill_background k k1 i t m run (rw (tty, enqueue_foreground terminated_tasks t k1) bg),
        record {
          valid = record {
            queued = unatomize-Represents k3 _ rep3;
            running = rw current v.running;
            running_absent = rw current (away k.current_task v.running_absent);
            null_absent = away null_process_task v.null_absent;
            null_state =
                set_atomic_state t k3 null_process_task
                ∙ ((set_state_rest t TaskState.terminated k2.tasks null_process_task).0
                    ∙ rw
                        (test_of_ne t null_process_task
                          (λ f. other null_process_task v.null_absent (sym f)))
                        (states null_process_task ∙ v.null_state));
          };
          marked_state =
              set_atomic_state t k3 t
              ∙ ((set_state_rest t TaskState.terminated k2.tasks t).0 ∙ ground arith);
          same_running = current;
        },
      )

atomize_foreground : (k : Kernel) → (atomize k).foreground_tasks ≡ k.foreground_tasks
unfolding atomize
atomize_foreground k = refl

atomize-IsValid : (k : Kernel) (ls : Lists) → IsValid k ls → IsValid (atomize k) ls
unfolding atomize
atomize-IsValid k ls v = record {
  queued =
      Represents-same k.tasks _ k.queues ls (set_atomic_same k.current_task true k.tasks) v.queued;
  running = v.running;
  running_absent = v.running_absent;
  null_absent = v.null_absent;
  null_state = atomize_state k null_process_task ∙ v.null_state;
}

-- Killing a task that is neither refused, empty nor terminated, is in the queue of its state and is
-- shown by no terminal keeps a valid kernel valid: the call succeeds, and the task is taken out of
-- that queue, becomes terminated and goes to the end of the terminated queue; every other queue, and
-- the running task, stay.
pub terminate_task-Moved :
    (pid : ℕ) (k : Kernel) (ls : Lists) (i : QueueId)
    → let t = dec pid + 1 in
      IsValid k ls
      → is_refused pid k ≡ false
      → queue_of (k.tasks t) ≡ some i
      → (k.tasks t).state ≢ TaskState.empty
      → (k.tasks t).state ≢ TaskState.terminated
      → has t (ls i) ≡ true
      → (k.foreground_tasks (dec (k.tasks t).tty_number) == t) ≡ false
      → (k' : Kernel) × (terminate_task pid k ≡ some (exit_success, k'))
        × Moved k k' ls i terminated_tasks t TaskState.terminated
terminate_task-Moved pid k ls i v ok m ne nt member bg =
    let t = dec pid + 1 in
    let (_, same_queue_of, tty) = atomize_task k t in
    let task = Holds-IsTask k.tasks (k.queues i) (ls i) (v.queued.holds i) t member in
    let (k', run, moved) =
      kill-Moved (atomize k) ls (atomize-IsValid k ls v) i t member task (same_queue_of ∙ m)
        (rw (tty, atomize_foreground k) bg) in
    (
      k',
      terminate_kill pid k i ok m ne nt ∙ run,
      record {
        valid = moved.valid;
        marked_state = moved.marked_state;
        same_running = moved.same_running ∙ (atomize_running k).0;
      },
    )
