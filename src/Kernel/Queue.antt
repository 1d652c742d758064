-- ===== src/Kernel/Queue.antt =====
-- The task queues of TPE3/src/proc.c, doubly linked through the tasks. (TPE2/src/proc.c is the
-- same text.) A queue is passed by the address of a global, never NULL. Each function returns the
-- queue and the tasks that it leaves behind.
pub mod Seg
pub mod Bound
pub mod Rep
pub mod Unlink
pub mod Remove
use so_tpe.Prelude.{ℕ, zero, suc, ◌+◌, Bool, Option, none, some, ◌==◌, if◌then◌else◌, ◌>>=◌}
use so_tpe.Kernel.Task.{Task, Heap, null, set_next, set_prev, inc, dec}

pub record Queue : Type 0 where
  pub size : ℕ
  pub head : ℕ
  pub tail : ℕ

-- `pop`. With one task left the new head is NULL, and `q->head->prev = NULL` writes through it.
unfoldable pub pop : Queue → Heap → ℕ × Queue × Heap
pop q h =
    if q.size == 0
    then (null, q, h)
    else let ret = q.head in
      let head = (h ret).next in
      let h1 = set_prev head null h in
      let h2 = set_next ret null h1 in
      let h3 = set_prev ret null h2 in
      let size = dec q.size in
      let q' : Queue =
        if size == 0
        then record { size = size; head = null; tail = null }
        else record { size = size; head = head; tail = q.tail } in
      (ret, q', h3)

unfoldable pub is_empty : Queue → Bool
is_empty q = q.size == 0

unfoldable pub add_to_queue : Queue → ℕ → Heap → Queue × Heap
add_to_queue q t h =
    if t == null
    then (q, h)
    else if q.size == 0
    then (record { size = inc q.size; head = t; tail = t }, set_next t null (set_prev t null h))
    else let h1 = set_next q.tail t h in
      let h2 = set_prev t q.tail h1 in
      let h3 = set_next t null h2 in (record q { tail = t; size = inc q.size }, h3)

-- `while(t2 != NULL && t2->pid != t->pid) t2 = t2->next;` on fuel.
unfoldable pub find_pid : ℕ → ℕ → ℕ → Heap → Option ℕ
find_pid zero pid t2 h = none
find_pid (suc fuel) pid t2 h =
    let rest = find_pid fuel pid (h t2).next h in
    if t2 == null then some t2 else if (h t2).pid == pid then some t2 else rest

-- What `remove_from_q` does once `t2` is found.
unfoldable pub unlink : Queue → ℕ → Heap → Queue × Heap
unlink q t2 h =
    let size = dec q.size in
    if q.size == 1
    then (record { size = size; head = null; tail = null }, h)
    else if q.head == t2
    then (let h1 = set_prev (h t2).next null h in
        (record q { size = size; head = (h t2).next }, set_next t2 null h1))
    else if q.tail == t2
    then (let h1 = set_next (h t2).prev null h in
        (record q { size = size; tail = (h t2).prev }, set_prev t2 null h1))
    else let h1 = set_next (h t2).prev (h t2).next h in
      (record q { size = size }, set_prev (h1 t2).next (h1 t2).prev h1)

-- A queue of `size` tasks is walked in at most `size + 1` rounds; `none` is a walk that is longer.
unfoldable pub remove_from_q : Queue → ℕ → Heap → Option (ℕ × Queue × Heap)
unfolding find_pid unlink
remove_from_q q t h = if t == null then some (null, q, h) else do
  t2 ← find_pid (q.size + 1) (h t).pid q.head h
  some (if t2 == null then (null, q, h) else (let (q', h') = unlink q t2 h in (t, q', h')))
