-- ===== src/Tests/Processes.antt =====
-- Processes made, killed and reaped in the kernel of the tests.
use so_tpe.Prelude.{ℕ, ◌≡◌, refl, inl, true, false, some, [], ◌∷◌, arith}
use so_tpe.Kernel.Task.{TaskState}
use so_tpe.Kernel.Strings.{streq}
use so_tpe.Kernel.Queue.Seg.{has}
use so_tpe.Kernel.Scheduler.{
  ready_tasks, terminated_tasks, empty_tasks, update, Code, Kernel, select_next, atomize, queue_of,
}
use so_tpe.Kernel.Scheduler.Lists.{Absent}
use so_tpe.Kernel.Scheduler.Select.{IsValid}
use so_tpe.Kernel.Scheduler.Suspend.{Moved}
use so_tpe.Kernel.Scheduler.Process.{
  create_process, reap, terminate_task, is_refused, is_named, exit_success, exit_failure,
}
use so_tpe.Kernel.Scheduler.Reap.{reap-Absent}
use so_tpe.Kernel.Scheduler.Create.{IsMade, create_process-IsValid}
use so_tpe.Kernel.Scheduler.Terminate.{IsSpared, terminate_task_refused, terminate_task-Moved}
use so_tpe.Tests.Tasks.{kernel, kernel-IsValid, lists}

reap-Absent_example :
    (k' : Kernel) × (reap 1 kernel ≡ some k')
    × IsValid k' (update lists terminated_tasks [])
    × ((t : ℕ)
        → has t (5 ∷ []) ≡ true
        → ((k'.tasks t).state ≡ TaskState.empty) × Absent t (update lists terminated_tasks []))
    × ((t : ℕ) → has t (5 ∷ []) ≡ false → (k'.tasks t).state ≡ (kernel.tasks t).state)
reap-Absent_example = reap-Absent kernel lists kernel-IsValid

create_process-IsValid_example :
    (k' : Kernel) × (create_process (65 ∷ []) (Code.program 9) 1 1 1 0 8191 2 true kernel
      ≡ some (6, k'))
    × IsValid k' (update (update lists empty_tasks []) (ready_tasks 2) (2 ∷ 3 ∷ 6 ∷ []))
    × (k'.current_task ≡ 1)
    × IsMade (65 ∷ []) 2 1 1 (k'.tasks 6)
create_process-IsValid_example =
    create_process-IsValid (65 ∷ []) (Code.program 9) 1 1 1 0 8191 2 true kernel lists 6 []
      kernel-IsValid refl (omega arith) (omega arith)

terminate_task_refused_example :
    (terminate_task 0 kernel ≡ some (exit_failure, atomize kernel))
    × (select_next (atomize kernel) ≡ atomize kernel)
    × (((atomize kernel).tasks 1).atomic_level ≡ true)
terminate_task_refused_example =
    terminate_task_refused 0 kernel (omega arith) (omega arith) (IsSpared.no_process (inl refl))

terminate_task-Moved_example :
    (k' : Kernel) × (terminate_task 3 kernel ≡ some (exit_success, k'))
    × Moved kernel k' lists (ready_tasks 2) terminated_tasks 3 TaskState.terminated
unfolding is_refused is_named queue_of streq
terminate_task-Moved_example =
    terminate_task-Moved 3 kernel lists (ready_tasks 2) kernel-IsValid refl refl (ground arith)
      (ground arith) refl refl
