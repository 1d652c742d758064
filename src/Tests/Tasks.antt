-- ===== src/Tests/Tasks.antt =====
-- A kernel with task 1 running, 2 and 3 ready at priority 2, 4 suspended, 5 terminated and 6 empty.
use so_tpe.Prelude.{
  ℕ, ◌<◌, ◌≡◌, refl, some, List, [], ◌∷◌, arith, false, true, ◌==◌, if◌then◌else◌, Bool-cases, inl,
  inr,
}
use so_tpe.Kernel.Task.{TaskState, null, null_process_task, max_priorities}
use so_tpe.Kernel.Queue.{Queue}
use so_tpe.Kernel.Queue.Seg.{has}
use so_tpe.Kernel.Queue.Rep.{Holds}
use so_tpe.Kernel.Scheduler.{
  QueueId, ready_tasks, suspended_tasks, delayed_tasks, waiting_tasks, terminated_tasks,
  empty_tasks, same_queue, Code, StackFrame, Kernel, queue_of, put_back, choose, select_next,
  suspend_task, unsuspend_task,
}
use so_tpe.Kernel.Scheduler.Lists.{Lists}
use so_tpe.Kernel.Scheduler.Select.{IsValid, pick, requeue, select_next-pick}
use so_tpe.Kernel.Scheduler.Suspend.{Moved, suspend_task-Moved, unsuspend_task-Moved}
use so_tpe.Kernel.Scheduler.Twice.{suspend_task-put_back}
use so_tpe.Tests.Queues.{heap, two, two-Holds}

abbrev one : ℕ → Queue
one t = record { size = 1; head = t; tail = t }

abbrev nobody : Queue
nobody = record { size = 0; head = null; tail = null }

abbrev pub globals : QueueId → Queue
globals (ready_tasks i) = if i == 2 then two else nobody
globals suspended_tasks = one 4
globals delayed_tasks = nobody
globals waiting_tasks = nobody
globals terminated_tasks = one 5
globals empty_tasks = one 6

abbrev pub lists : Lists
lists (ready_tasks i) = if i == 2 then 2 ∷ 3 ∷ [] else []
lists suspended_tasks = 4 ∷ []
lists delayed_tasks = []
lists waiting_tasks = []
lists terminated_tasks = 5 ∷ []
lists empty_tasks = 6 ∷ []

abbrev frame : StackFrame
frame = record {
  eip = Code.null_code;
  fin_retaddr = Code.cleaner_code;
  cs = 8;
  eflags = 0;
  argc = 0;
  argv = 0;
  ebp = 0;
  eax = 0;
  ebx = 0;
  ecx = 0;
  edx = 0;
  edi = 0;
  esi = 0;
}

abbrev pub kernel : Kernel
kernel = record {
  tasks = heap;
  queues = globals;
  current_task = 1;
  foreground_tasks = λ i. 1;
  foreground_tty = 0;
  frames = λ a. frame;
}

nobody-Holds : Holds heap nobody []
nobody-Holds = record { count = refl; chain = refl; ends = refl; distinct = tt; valid = tt }

one-Holds : (t : ℕ) → 3 < t → t < 100 → Holds heap (one t) (t ∷ [])
one-Holds t lo hi = record {
  count = refl;
  chain = ground arith;
  ends = refl;
  distinct = (refl, tt);
  valid = (omega arith, tt);
}

kernel-Holds : (i : QueueId) → Holds heap (globals i) (lists i)
kernel-Holds (ready_tasks i) = elim (Bool-cases (i == 2)) [
  | inl e ↦ rw e two-Holds
  | inr e ↦ rw e nobody-Holds
]
kernel-Holds suspended_tasks = one-Holds 4 (omega arith) (omega arith)
kernel-Holds delayed_tasks = nobody-Holds
kernel-Holds waiting_tasks = nobody-Holds
kernel-Holds terminated_tasks = one-Holds 5 (omega arith) (omega arith)
kernel-Holds empty_tasks = one-Holds 6 (omega arith) (omega arith)

kernel-apart :
    (i j : QueueId) (t : ℕ)
    → same_queue i j ≡ false
    → has t (lists i) ≡ true
    → has t (lists j) ≡ false
kernel-apart i j t ne m = ground arith

kernel-absent :
    (i : QueueId) → (has 1 (lists i) ≡ false) × (has null_process_task (lists i) ≡ false)
kernel-absent i = ground arith

pub kernel-IsValid : IsValid kernel lists
kernel-IsValid = record {
  queued = record { holds = kernel-Holds; apart = kernel-apart; own_pid = λ a b va vb e. e };
  running = omega arith;
  running_absent = λ i. (kernel-absent i).0;
  null_absent = λ i. (kernel-absent i).1;
  null_state = refl;
}

select_next-pick_example :
    let (t, ls') = pick max_priorities 0 (requeue (queue_of (heap 1)) 1 lists) in
    ((select_next kernel).current_task ≡ t) × IsValid (select_next kernel) ls'
select_next-pick_example = select_next-pick kernel lists kernel-IsValid refl

suspend_task-Moved_example :
    (k' : Kernel) × (suspend_task 3 kernel ≡ some k')
    × Moved kernel k' lists (ready_tasks 2) suspended_tasks 3 TaskState.suspended
suspend_task-Moved_example =
    suspend_task-Moved kernel lists 3 kernel-IsValid (omega arith) refl refl

unsuspend_task-Moved_example :
    (k' : Kernel) × (unsuspend_task 4 kernel ≡ some k')
    × Moved kernel k' lists suspended_tasks (ready_tasks 2) 4 TaskState.ready
unsuspend_task-Moved_example =
    unsuspend_task-Moved kernel lists 4 kernel-IsValid (omega arith) refl refl

suspend_task-put_back_example :
    (k' : Kernel) × (suspend_task 1 kernel ≡ some k')
    × ((k'.queues suspended_tasks).tail ≡ 1)
    × (select_next k' ≡ choose (put_back k'))
    × (((put_back k').queues suspended_tasks).tail ≡ 1)
    × (((put_back k').tasks 1).prev ≡ 1)
    × ((ys : List ℕ) → ¬ Holds (put_back k').tasks ((put_back k').queues suspended_tasks) ys)
suspend_task-put_back_example = suspend_task-put_back kernel lists kernel-IsValid refl
