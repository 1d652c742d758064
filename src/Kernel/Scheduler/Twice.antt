-- ===== src/Kernel/Scheduler/Twice.antt =====
-- `suspend_task` on the running task, as `getKey` of TPE3/src/drivers/keyboard.c calls it.
use so_tpe.Prelude.{
  ℕ, ◌≡◌, refl, sym, ◌∙◌, ◌≢◌, false, some, List, [], ◌∷◌, arith, ◌==◌, length-append,
}
use so_tpe.Kernel.Task.{Heap, Task, TaskState, null, set_next, set_prev, set_atomic_level}
use so_tpe.Kernel.Queue.{Queue, add_to_queue}
use so_tpe.Kernel.Queue.Seg.{has, Distinct, Seg, last, last-append, has-null}
use so_tpe.Kernel.Queue.Rep.{Holds}
use so_tpe.Kernel.Scheduler.{
  QueueId, ready_tasks, suspended_tasks, Kernel, enqueue, atomize, unatomize, is_suspended,
  suspend_task, put_back, queue_of, select_next, choose,
}
use so_tpe.Kernel.Scheduler.Lists.{Lists, enqueue-Represents, remove_absent, same_queue_refl}
use so_tpe.Kernel.Scheduler.Select.{IsValid}
use so_tpe.Kernel.Scheduler.Suspend.{
  enqueue_rest, marked_rest, atomize_state, marked, marked-Represents,
}

-- In a queue the last task does not stand behind itself.
prev-last-ne :
    (h : Heap) (pr p y : ℕ) (ys : List ℕ)
    → Seg h pr p (y ∷ ys)
    → Distinct (y ∷ ys)
    → has pr (y ∷ ys) ≡ false
    → (h (last y ys)).prev ≢ last y ys
prev-last-ne h pr p y [] s d n = λ e. ground arith
prev-last-ne h pr p y (z ∷ zs) s d n = prev-last-ne h y (h y).next z zs s.3 d.1 d.0

-- A queue whose tail stands behind itself holds no list of tasks.
self_linked :
    (h : Heap) (q : Queue) (ys : List ℕ) → q.tail ≢ null → (h q.tail).prev ≡ q.tail → ¬ Holds h q ys
self_linked h q [] ne e r = ne r.ends
self_linked h q (y ∷ ys) ne e r =
    prev-last-ne h null q.head y ys r.chain r.distinct (has-null h null q.head (y ∷ ys) r.chain)
      (rw r.ends at e)

-- `add_to_queue` of the task that is the tail already.
add_tail_again :
    (q : Queue) (t : ℕ) (h : Heap)
    → q.tail ≡ t
    → t ≢ null
    → (q.size == 0) ≡ false
    → ((add_to_queue q t h).0.tail ≡ t) × (((add_to_queue q t h).1 t).prev ≡ t)
unfolding add_to_queue set_next set_prev
add_tail_again q t h e ne s = ground arith

queue_of_suspended : (t : Task) → t.state ≡ TaskState.suspended → queue_of t ≡ some suspended_tasks
unfolding queue_of
queue_of_suspended t e = ground arith

-- `put_back` of a task that is the tail of its queue already.
put_back_tail :
    (k : Kernel) (i : QueueId)
    → (k.queues i).tail ≡ k.current_task
    → k.current_task ≢ null
    → ((k.queues i).size == 0) ≡ false
    → queue_of (k.tasks k.current_task) ≡ some i
    → (((put_back k).queues i).tail ≡ k.current_task)
      × (((put_back k).tasks k.current_task).prev ≡ k.current_task)
unfolding put_back enqueue set_next
put_back_tail k i e ne s m =
    let again = add_tail_again (k.queues i) k.current_task k.tasks e ne s in
    rw (m, put_back, same_queue_refl i) (again.0, ground (arith, again.1))

unatomize_running :
    (k : Kernel) → ((unatomize k).tasks (unatomize k).current_task).atomic_level ≡ false
unfolding unatomize set_atomic_level
unatomize_running k = ground arith

select_next_unatomized :
    (k : Kernel)
    → (unatomize k).current_task ≢ null
    → select_next (unatomize k) ≡ choose (put_back (unatomize k))
unfolding select_next
select_next_unatomized k ne =
    let nn : ((unatomize k).current_task == null) ≡ false = ground arith in
    rw (nn, unatomize_running k) refl

module _ (k : Kernel) (ls : Lists) (v : IsValid k ls) where
  -- The kernel after `suspend_task` of the running task.
  abbrev once : Kernel
  once =
      unatomize
        (enqueue suspended_tasks k.current_task (marked k.current_task TaskState.suspended k))

  once_tail :
      ((once.queues suspended_tasks).tail ≡ k.current_task)
      × (((once.queues suspended_tasks).size == 0) ≡ false)
      × (once.current_task ≡ k.current_task)
  unfolding unatomize enqueue atomize
  once_tail =
      let r =
        (enqueue-Represents (marked k.current_task TaskState.suspended k) ls
            (marked-Represents k.current_task TaskState.suspended k ls v.queued) suspended_tasks
            k.current_task v.running v.running_absent).holds
          suspended_tasks in
      (
        r.ends ∙ last-append null (ls suspended_tasks) k.current_task,
        ground (arith, r.count, length-append (ls suspended_tasks) (k.current_task ∷ [])),
        refl,
      )

  once_state : queue_of (once.tasks k.current_task) ≡ some suspended_tasks
  once_state =
      let m = marked k.current_task TaskState.suspended k in
      queue_of_suspended (once.tasks k.current_task) (
        (enqueue_rest suspended_tasks k.current_task m k.current_task).0
        ∙ ((marked_rest k.current_task TaskState.suspended k k.current_task).0 ∙ ground arith))

  suspend_running :
      (k.tasks k.current_task).state ≡ TaskState.ready → suspend_task k.current_task k ≡ some once
  unfolding suspend_task
  suspend_running st =
      let m = marked k.current_task TaskState.suspended k in
      let not_yet : is_suspended ((atomize k).tasks k.current_task).state ≡ false =
        rw (atomize_state k k.current_task, st) in
      simp (
        not_yet,
        remove_absent m ls (marked-Represents k.current_task TaskState.suspended k ls v.queued)
            (ready_tasks (m.tasks k.current_task).priority) k.current_task v.running
            (v.running_absent (ready_tasks (m.tasks k.current_task).priority)),
      )

  put_back_linked :
      (((put_back once).queues suspended_tasks).tail ≡ k.current_task)
      × (((put_back once).tasks k.current_task).prev ≡ k.current_task)
  unfolding unatomize enqueue atomize
  put_back_linked =
      let (tail, size, running) = once_tail in
      rw running at (
        put_back_tail once suspended_tasks (tail ∙ sym running) (rw running v.running.0) size
          (rw running once_state))

  select_next-once : select_next once ≡ choose (put_back once)
  select_next-once =
      select_next_unatomized
        (enqueue suspended_tasks k.current_task (marked k.current_task TaskState.suspended k))
        (rw once_tail.2 v.running.0)

  put_back-once :
      (ys : List ℕ) → ¬ Holds (put_back once).tasks ((put_back once).queues suspended_tasks) ys
  put_back-once ys =
      let (tail, size, running) = once_tail in
      let (t, p) =
        put_back_tail once suspended_tasks (tail ∙ sym running) (rw running v.running.0) size
          (rw running once_state) in
      self_linked (put_back once).tasks ((put_back once).queues suspended_tasks) ys
        (rw (t, running) v.running.0) (rw t p)

-- When the running, ready task of a valid kernel suspends itself, the call returns, with the task as
-- the tail of the suspended queue; the next switch then puts it back into that queue before it
-- chooses a task, and what `put_back` leaves is a suspended queue whose tail, that task, stands
-- behind itself and which holds no list of tasks.
pub suspend_task-put_back :
    (k : Kernel) (ls : Lists)
    → IsValid k ls
    → (k.tasks k.current_task).state ≡ TaskState.ready
    → (k' : Kernel) × (suspend_task k.current_task k ≡ some k')
      × ((k'.queues suspended_tasks).tail ≡ k.current_task)
      × (select_next k' ≡ choose (put_back k'))
      × (((put_back k').queues suspended_tasks).tail ≡ k.current_task)
      × (((put_back k').tasks k.current_task).prev ≡ k.current_task)
      × ((ys : List ℕ) → ¬ Holds (put_back k').tasks ((put_back k').queues suspended_tasks) ys)
suspend_task-put_back k ls v st =
    let (tail, prev) = put_back_linked k ls v in
    (
      once k ls v,
      suspend_running k ls v st,
      (once_tail k ls v).0,
      select_next-once k ls v,
      tail,
      prev,
      put_back-once k ls v,
    )
