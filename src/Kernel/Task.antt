-- ===== src/Kernel/Task.antt =====
-- `struct task` of TPE3/include/proc.h in memory.
--
-- A pointer to a task is a number: `p + 1` is `&processes[p]`, and the number after the last of
-- those is `&null_process_task`. All tasks are static, so a pointer never dangles. 0 is NULL:
-- page 0 is mapped, and a write through NULL changes what stands at that address and nothing else.
use so_tpe.Prelude.{ℕ, ◌+◌, ◌-◌, ◌%◌, ◌^◌, Bool, List, ◌==◌, if◌then◌else◌}

abbrev pub null : ℕ
null = 0

-- limits.h
abbrev pub max_processes : ℕ
max_processes = 127

abbrev pub max_priorities : ℕ
max_priorities = 5

abbrev pub null_process_task : ℕ
null_process_task = max_processes + 1

-- `TaskState_t`
pub data TaskState : Type 0 where
  suspended ready current delaying waiting sending receiving terminated null_state empty : TaskState

-- The fields that the scheduler reads or writes. `name` is what stands before the NUL.
pub record Task : Type 0 where
  pub name : List ℕ
  pub pid : ℕ
  pub state : TaskState
  pub priority : ℕ
  pub atomic_level : Bool
  pub parent : ℕ
  pub prev : ℕ
  pub next : ℕ
  pub foreground : Bool
  pub tty_number : ℕ
  pub pages : List ℕ
  pub ss : ℕ
  pub sp : ℕ
  pub ticks : ℕ
  pub screen : ℕ
  pub keyboard : ℕ
  pub linebuffer : ℕ
  pub cwd : ℕ

abbrev pub Heap : Type 0
Heap = ℕ → Task

-- `p->next = v`, and so on.
unfoldable pub set_next : ℕ → ℕ → Heap → Heap
set_next p v h a = if p == a then record (h a) { next = v } else h a

unfoldable pub set_prev : ℕ → ℕ → Heap → Heap
set_prev p v h a = if p == a then record (h a) { prev = v } else h a

unfoldable pub set_state : ℕ → TaskState → Heap → Heap
set_state p v h a = if p == a then record (h a) { state = v } else h a

unfoldable pub set_atomic_level : ℕ → Bool → Heap → Heap
set_atomic_level p v h a = if p == a then record (h a) { atomic_level = v } else h a

-- `size++` and `size--` of a `size_t`.
abbrev pub inc : ℕ → ℕ
inc n = (n + 1) % 2 ^ 32

abbrev pub dec : ℕ → ℕ
dec n = (n + 2 ^ 32 - 1) % 2 ^ 32
