-- ===== src/Kernel/Scheduler.antt =====
-- The scheduler of TPE3/src/scheduler.c. Each function takes the kernel's globals and returns them.
-- `none` is a walk through a broken queue that does not end in time (`remove_from_q`).
--
-- Left out: the screens and keyboards behind a task's pointers, and what is printed. `yield` is the
-- timer interrupt, which calls `select_next`.
pub mod Lists
pub mod Select
pub mod Suspend
pub mod Twice
pub mod Process
pub mod Reap
pub mod Terminate
pub mod Create
use so_tpe.Prelude.{
  ℕ, zero, suc, ◌+◌, ◌-◌, ◌%◌, ◌^◌, Bool, true, false, Option, none, some, List, ◌==◌, ltb, leb,
  not, ◌&&◌, ◌||◌, if◌then◌else◌, ◌>>=◌,
}
use so_tpe.Kernel.Strings.{streq}
use so_tpe.Kernel.Task.{
  Heap, Task, TaskState, null, null_process_task, max_priorities, max_processes, set_next,
  set_state, set_atomic_level,
}
use so_tpe.Kernel.Queue.{Queue, pop, is_empty, add_to_queue, remove_from_q}

-- The global queues. `ready_tasks` is an array of `max_priorities`; a greater index is past its end,
-- and `CreateProcess`, the only function that gives a task a priority, faults there.
pub data QueueId : Type 0 where
  ready_tasks : ℕ → QueueId
  suspended_tasks delayed_tasks waiting_tasks terminated_tasks empty_tasks : QueueId

abbrev pub same_queue : QueueId → QueueId → Bool
same_queue (ready_tasks i) (ready_tasks j) = i == j
same_queue suspended_tasks suspended_tasks = true
same_queue delayed_tasks delayed_tasks = true
same_queue waiting_tasks waiting_tasks = true
same_queue terminated_tasks terminated_tasks = true
same_queue empty_tasks empty_tasks = true
same_queue _ _ = false

abbrev pub update {ℓ} : {A : Type ℓ} → (QueueId → A) → QueueId → A → QueueId → A
update f i v j = if same_queue i j then v else f j

-- The code that a stack frame can name: `cleaner`, `null_process`, or the address of a program.
pub data Code : Type 0 where
  cleaner_code null_code : Code
  program : ℕ → Code

pub record StackFrame : Type 0 where
  pub eip : Code
  pub fin_retaddr : Code
  pub cs : ℕ
  pub eflags : ℕ
  pub argc : ℕ
  pub argv : ℕ
  pub ebp : ℕ
  pub eax : ℕ
  pub ebx : ℕ
  pub ecx : ℕ
  pub edx : ℕ
  pub edi : ℕ
  pub esi : ℕ

-- The globals. `foreground_tasks` has the entries of the array at 0 to 3 and other memory
-- elsewhere; `foreground_tty` is the index it points to; `frames` are the frames on the stacks.
pub record Kernel : Type 0 where
  pub tasks : Heap
  pub queues : QueueId → Queue
  pub current_task : ℕ
  pub foreground_tasks : ℕ → ℕ
  pub foreground_tty : ℕ
  pub frames : ℕ → StackFrame

-- Calls of the queue functions on a global queue.
unfoldable pub enqueue : QueueId → ℕ → Kernel → Kernel
enqueue i t k =
    let (q, h) = add_to_queue (k.queues i) t k.tasks in
    record k { tasks = h; queues = update k.queues i q }

unfoldable pub dequeue : QueueId → Kernel → ℕ × Kernel
dequeue i k =
    let (t, q, h) = pop (k.queues i) k.tasks in
    (t, record k { tasks = h; queues = update k.queues i q })

unfoldable pub remove : QueueId → ℕ → Kernel → Option Kernel
remove i t k = do
  (_, q, h) ← remove_from_q (k.queues i) t k.tasks
  some (record k { tasks = h; queues = update k.queues i q })

-- The queue that the `switch` of `select_next` chooses.
unfoldable pub queue_of : Task → Option QueueId
queue_of t = elim t.state [
  | TaskState.ready ↦ some (ready_tasks t.priority)
  | TaskState.suspended ↦ some suspended_tasks
  | TaskState.delaying ↦ some delayed_tasks
  | TaskState.waiting ↦ some waiting_tasks
  | TaskState.terminated ↦ some terminated_tasks
  | TaskState.empty ↦ some empty_tasks
  | _ ↦ none
]

-- `switch`, and `current_task->next = NULL`.
unfoldable pub put_back : Kernel → Kernel
put_back k =
    let c = k.current_task in
    let k1 : Kernel = elim (queue_of (k.tasks c)) [ none ↦ k | some i ↦ enqueue i c k ] in
    record k1 { tasks = set_next c null k1.tasks }

-- The first of the queues `ready_tasks[i]`, `n` of them left, that is not empty.
unfoldable pub first_ready : ℕ → ℕ → Kernel → ℕ
first_ready zero i k = i
first_ready (suc n) i k =
    let rest = first_ready n (i + 1) k in if is_empty (k.queues (ready_tasks i)) then rest else i

unfoldable pub choose : Kernel → Kernel
choose k =
    let i = first_ready max_priorities 0 k in
    if i == max_priorities
    then record k { current_task = null_process_task }
    else (let (t, k1) = dequeue (ready_tasks i) k in record k1 { current_task = t })

unfoldable pub select_next : Kernel → Kernel
select_next k =
    if k.current_task == null
    then choose k
    else if (k.tasks k.current_task).atomic_level
    then k
    else choose (put_back k)

unfoldable pub atomize : Kernel → Kernel
atomize k = record k { tasks = set_atomic_level k.current_task true k.tasks }

unfoldable pub unatomize : Kernel → Kernel
unatomize k = record k { tasks = set_atomic_level k.current_task false k.tasks }

abbrev pub is_suspended : TaskState → Bool
is_suspended TaskState.suspended = true
is_suspended _ = false

unfoldable pub suspend_task : ℕ → Kernel → Option Kernel
suspend_task t k0 = do
  let k = atomize k0
  let suspended : Option Kernel = do
    let k1 : Kernel = record k { tasks = set_state t TaskState.suspended k.tasks }
    k2 ← remove (ready_tasks (k1.tasks t).priority) t k1
    some (enqueue suspended_tasks t k2)
  k3 ← (if is_suspended (k.tasks t).state then some k else suspended)
  some (unatomize k3)

unfoldable pub unsuspend_task : ℕ → Kernel → Option Kernel
unsuspend_task t k0 = do
  let k = atomize k0
  let resumed : Option Kernel = do
    let k1 : Kernel = record k { tasks = set_state t TaskState.ready k.tasks }
    k2 ← remove suspended_tasks t k1
    some (enqueue (ready_tasks (k2.tasks t).priority) t k2)
  k3 ← (if is_suspended (k.tasks t).state then resumed else some k)
  some (unatomize k3)
