-- ===== src/Tests/Queues.antt =====
-- The queue of the tasks 2 and 3.
use so_tpe.Prelude.{◌≡◌, refl, some, [], ◌∷◌, arith, false, ◌==◌, if◌then◌else◌}
use so_tpe.Kernel.Task.{Heap, TaskState, null, null_process_task}
use so_tpe.Kernel.Queue.{Queue, pop, add_to_queue, remove_from_q}
use so_tpe.Kernel.Queue.Rep.{Holds, Spares, pop-cons, add_to_queue-append}
use so_tpe.Kernel.Queue.Remove.{remove_from_q-erase, remove_from_q_absent}

-- Task 1 runs, 2 and 3 are ready, 4 is suspended, 5 is terminated and 6 is empty.
abbrev pub heap : Heap
heap a = record {
  name = if a == null_process_task then 78 ∷ [] else [];
  pid = a;
  state =
      if a == 4
      then TaskState.suspended
      else if a == 5
      then TaskState.terminated
      else if a == 6
      then TaskState.empty
      else if a == null_process_task
      then TaskState.null_state
      else TaskState.ready;
  priority = 2;
  atomic_level = false;
  parent = null;
  prev = if a == 3 then 2 else null;
  next = if a == 2 then 3 else null;
  foreground = false;
  tty_number = 1;
  pages = [];
  ss = 0;
  sp = 0;
  ticks = 0;
  screen = 0;
  keyboard = 0;
  linebuffer = 0;
  cwd = 0;
}

abbrev pub two : Queue
two = record { size = 2; head = 2; tail = 3 }

pub two-Holds : Holds heap two (2 ∷ 3 ∷ [])
two-Holds = record {
  count = refl;
  chain = ground arith;
  ends = refl;
  distinct = ground arith;
  valid = omega arith;
}

pop-cons_example :
    let (ret, q', g) = pop two heap in (ret ≡ 2) × Holds g q' (3 ∷ []) × Spares heap g 2 (3 ∷ [])
pop-cons_example = pop-cons {h = heap} {q = two} 2 (3 ∷ []) two-Holds

add_to_queue-append_example :
    let (q', g) = add_to_queue two 1 heap in
    Holds g q' (2 ∷ 3 ∷ 1 ∷ []) × Spares heap g 1 (2 ∷ 3 ∷ [])
add_to_queue-append_example =
    add_to_queue-append {h = heap} {q = two} 1 (2 ∷ 3 ∷ []) two-Holds refl (omega arith)
      (omega arith)

remove_from_q-erase_example :
    (q' : Queue) × (g : Heap) × (remove_from_q two 3 heap ≡ some (3, q', g))
    × Holds g q' (2 ∷ [])
    × Spares heap g 3 (2 ∷ 3 ∷ [])
remove_from_q-erase_example =
    remove_from_q-erase {h = heap} {q = two} (2 ∷ 3 ∷ []) 3 two-Holds (λ a m e. e) refl

remove_from_q_absent_example : remove_from_q two 4 heap ≡ some (null, two, heap)
remove_from_q_absent_example =
    remove_from_q_absent {h = heap} {q = two} (2 ∷ 3 ∷ []) 4 two-Holds (λ a m e. e) refl
