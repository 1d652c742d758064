-- ===== src/Kernel/Scheduler/Process.antt =====
-- TPE3/src/scheduler.c: how a task begins and ends.
--
-- An `int` is its 32-bit pattern. `none` is a fault: a name longer than its array, a priority that
-- `ready_tasks` has no queue for, or a walk through a broken queue. `free` of a stack and the
-- printing are left out, and the page for the stack of the null process is an argument, taken not
-- to be NULL.
use so_tpe.Prelude.{
  ℕ, zero, suc, ◌+◌, ◌-◌, ◌*◌, ◌%◌, ◌^◌, Bool, false, Option, none, some, List, [], ◌∷◌, ◌++◌, ◌==◌,
  ltb, leb, ◌&&◌, ◌||◌, if◌then◌else◌, ◌>>=◌, length, replicate,
}
use so_tpe.Kernel.Strings.{streq}
use so_tpe.Kernel.Task.{
  Heap, Task, TaskState, null, null_process_task, max_processes, max_priorities, dec, set_state,
}
use so_tpe.Kernel.Queue.{is_empty}
use so_tpe.Kernel.Scheduler.{
  ready_tasks, terminated_tasks, empty_tasks, Code, StackFrame, Kernel, enqueue, dequeue, remove,
  queue_of, select_next, atomize, unatomize, unsuspend_task,
}

abbrev pub procname_max : ℕ
procname_max = 128

abbrev pub pages_max : ℕ
pages_max = 127

abbrev pub tty_count : ℕ
tty_count = 4

abbrev pub exit_success : ℕ
exit_success = 0

abbrev pub exit_failure : ℕ
exit_failure = 1

-- "Shell" and "Null Process".
abbrev pub shell_name : List ℕ
shell_name = 83 ∷ 104 ∷ 101 ∷ 108 ∷ 108 ∷ []

abbrev pub null_name : List ℕ
null_name = 78 ∷ 117 ∷ 108 ∷ 108 ∷ 32 ∷ 80 ∷ 114 ∷ 111 ∷ 99 ∷ 101 ∷ 115 ∷ 115 ∷ []

abbrev pub write_task : ℕ → (Task → Task) → Heap → Heap
write_task p f h a = if p == a then f (h a) else h a

abbrev pub write_at {ℓ} : {A : Type ℓ} → ℕ → A → (ℕ → A) → ℕ → A
write_at p v f a = if p == a then v else f a

abbrev pub on_stack : ℕ → ℕ → Task → Task
on_stack ss sp t = record t { ss = ss; sp = sp }

-- A frame has 14 words.
unfoldable pub create_stack_frame : ℕ → Code → ℕ → ℕ → ℕ → Kernel → Kernel
create_stack_frame new_proc p stack_start argc argv k =
    let sp = (stack_start + 2 ^ 32 - 14 * 4 - 1) % 2 ^ 32 in
    let frame : StackFrame = record {
      eip = p;
      fin_retaddr = Code.cleaner_code;
      cs = 8;
      eflags = 0;
      argc = argc;
      argv = argv;
      ebp = 0;
      eax = 0;
      ebx = 0;
      ecx = 0;
      edx = 0;
      edi = 0;
      esi = 0;
    } in
    record k {
      tasks = write_task new_proc (on_stack stack_start sp) k.tasks;
      frames = write_at sp frame k.frames;
    }

-- One round of the loop over the terminals.
unfoldable pub show_at : ℕ → ℕ → ℕ → Kernel → Kernel
show_at i tty p k =
    let t = k.foreground_tasks i in
    if (t == null) && (i + 1 == tty) || ((k.tasks t).tty_number == tty)
    then record k { foreground_tasks = write_at i p k.foreground_tasks }
    else k

-- The loop, `n` terminals left.
unfoldable pub show_in_front : ℕ → ℕ → ℕ → ℕ → Kernel → Kernel
show_in_front zero i tty p k = k
show_in_front (suc n) i tty p k = show_in_front n (i + 1) tty p (show_at i tty p k)

-- The fields of the new task before its stack frame is made.
unfoldable pub inherit : ℕ → ℕ → Heap → Task → Task
inherit tty parent h t =
    let t1 : Task = record t { tty_number = tty; parent = parent } in
    if parent == null then t1 else record t1 {
      screen = (h parent).screen;
      keyboard = (h parent).keyboard;
      linebuffer = (h parent).linebuffer;
      cwd = (h parent).cwd;
    }

-- The fields after it.
unfoldable pub describe : List ℕ → ℕ → Bool → Task → Task
describe name priority is_front t = record t {
  foreground = is_front;
  name = name;
  priority = priority;
  atomic_level = false;
  state = TaskState.ready;
}

-- What `CreateProcess` writes into the new task.
unfoldable pub prepare : ℕ → List ℕ → Code → ℕ → ℕ → ℕ → ℕ → ℕ → ℕ → Bool → Kernel → Kernel
prepare p name process parent tty argc argv stack_start priority is_front k1 =
    let k2 : Kernel = record k1 { tasks = write_task p (inherit tty parent k1.tasks) k1.tasks } in
    let k3 = create_stack_frame p process stack_start argc argv k2 in
    record k3 { tasks = write_task p (describe name priority is_front) k3.tasks }

unfoldable pub create_process :
    List ℕ → Code → ℕ → ℕ → ℕ → ℕ → ℕ → ℕ → Bool → Kernel → Option (ℕ × Kernel)
create_process name process parent tty argc argv stack_start priority is_front k =
    let (p, k1) = dequeue empty_tasks k in
    let k2 = prepare p name process parent tty argc argv stack_start priority is_front k1 in
    let k3 = enqueue (ready_tasks priority) p k2 in
    if p == null
    then some (null, k1)
    else if leb procname_max (length name) || leb max_priorities priority
    then none
    else some (p, if is_front then show_in_front tty_count 0 tty p k3 else k3)

-- What `terminate_task` does to a task that it accepts.
unfoldable pub kill : ℕ → Kernel → Option (ℕ × Kernel)
kill t k = do
  k1 ← elim (queue_of (k.tasks t)) [ none ↦ some k | some i ↦ remove i t k ]
  let k2 = enqueue terminated_tasks t k1
  let k3 : Kernel = record k2 { tasks = set_state t TaskState.terminated k2.tasks }
  let slot = dec (k3.tasks t).tty_number
  let parent = (k3.tasks t).parent
  k4 ←
      (if k3.foreground_tasks slot == t
        then unsuspend_task parent
            (record k3 { foreground_tasks = write_at slot parent k3.foreground_tasks })
        else some k3)
  some (exit_success, unatomize k4)

-- `streq` of a task's name and another text.
unfoldable pub is_named : List ℕ → List ℕ → Bool
is_named name text = elim (streq (name ++ 0 ∷ []) (text ++ 0 ∷ [])) [ none ↦ false | some b ↦ b ]

-- `pid < 0` is a pattern of 2 ^ 31 or more, which is above every process as well.
unfoldable pub is_refused : ℕ → Kernel → Bool
is_refused pid k =
    let p = dec pid in
    leb (2 ^ 31) p
    || ltb (max_processes - 1) p
    || is_named (k.tasks (p + 1)).name shell_name
    || is_named (k.tasks (p + 1)).name (k.tasks null_process_task).name

unfoldable pub terminate_task : ℕ → Kernel → Option (ℕ × Kernel)
terminate_task pid k0 =
    let k = atomize k0 in
    let t = dec pid + 1 in
    if is_refused pid k then some (exit_failure, k) else elim (k.tasks t).state [
      | TaskState.terminated ↦ some (exit_failure, k)
      | TaskState.empty ↦ some (exit_failure, k)
      | _ ↦ kill t k
    ]

-- `yield` at the end is the timer interrupt.
unfoldable pub cleaner : Kernel → Option Kernel
cleaner k0 = do
  let k = atomize k0
  let c = k.current_task
  let k1 : Kernel = record k { tasks = set_state c TaskState.terminated k.tasks }
  let parent = (k1.tasks c).parent
  let slot = dec (k1.tasks c).tty_number
  k2 ←
      (if (k1.tasks c).foreground
        then unsuspend_task parent
            (record k1 { foreground_tasks = write_at slot parent k1.foreground_tasks })
        else some k1)
  some (select_next (unatomize k2))

-- What `null_process` does to a task that it takes out of the terminated ones.
unfoldable pub wipe : Task → Task
wipe t = record t {
  state = TaskState.empty;
  priority = max_priorities;
  atomic_level = false;
  ss = 0;
  sp = 0;
  parent = null;
  foreground = false;
  ticks = 0;
  tty_number = 0;
  screen = 0;
  keyboard = 0;
  linebuffer = 0;
}

-- `while(!empty(&terminated_tasks))` of `null_process`; `none` is a loop of more than `fuel` rounds.
unfoldable pub reap : ℕ → Kernel → Option Kernel
reap zero k = if is_empty (k.queues terminated_tasks) then some k else none
reap (suc fuel) k =
    let (aux, k1) = dequeue terminated_tasks k in
    let rest = reap fuel (record k1 { tasks = write_task aux wipe k1.tasks }) in
    if is_empty (k.queues terminated_tasks) then some k else rest

-- The first loop of `SetupScheduler`, `n` tasks left.
unfoldable pub setup_tasks : ℕ → ℕ → Kernel → Kernel
setup_tasks zero i k = k
setup_tasks (suc n) i k =
    let fresh = λ (t : Task).
      let t' : Task = record t {
        priority = max_priorities;
        atomic_level = false;
        state = TaskState.empty;
        pid = i + 1;
      } in
      t' in
    let k1 = enqueue empty_tasks (i + 1) (record k { tasks = write_task (i + 1) fresh k.tasks }) in
    let none_mapped =
      λ (t : Task). let t' : Task = record t { pages = replicate pages_max (2 ^ 32 - 1) } in t' in
    setup_tasks n (i + 1) (record k1 { tasks = write_task (i + 1) none_mapped k1.tasks })

-- The rest of it. `foreground_tasks[i] = NULL` covers the array.
unfoldable pub setup_scheduler : ℕ → Kernel → Kernel
setup_scheduler page k =
    let k1 = setup_tasks max_processes 0 k in
    let first = λ (t : Task).
      let t' : Task = record t {
        state = TaskState.null_state;
        keyboard = null;
        screen = null;
        linebuffer = null;
        pid = 0;
        name = null_name;
      } in
      t' in
    let k2 : Kernel = record k1 {
      foreground_tasks = λ i. if ltb i tty_count then null else k1.foreground_tasks i;
      tasks = write_task null_process_task first k1.tasks;
    } in
    let k3 = create_stack_frame null_process_task Code.null_code (page + 4096 - 1) 0 null k2 in
    record k3 { foreground_tty = 0 }

-- The first terminal with a task of that number.
unfoldable pub find_terminal : ℕ → ℕ → ℕ → Kernel → ℕ
find_terminal zero i tty k = null
find_terminal (suc n) i tty k =
    let rest = find_terminal n (i + 1) tty k in
    if (k.tasks (k.foreground_tasks i)).tty_number == tty then k.foreground_tasks i else rest

abbrev pub get_foreground_task : ℕ → Kernel → ℕ
get_foreground_task tty k = find_terminal tty_count 0 tty k
