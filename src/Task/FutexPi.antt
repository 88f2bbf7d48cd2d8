-- ===== src/Task/FutexPi.antt =====
-- `futex_unlock_pi` of src/task.rs. The word that it writes to the address is a part of the answer.
pub mod Handing
use rynex.Prelude.{
  ℕ, zero, suc, Bool, true, false, not, Option, none, some, ◌&&◌, ◌||◌, ◌==◌, ltb, ◌%◌, ◌^◌,
  if◌then◌else◌,
}
use Prim.Native.Nat.{bit_or}
use rynex.Task.State.{TaskState, Task, Tasks, max_tasks, task_idx, put_task}
use rynex.Task.RunQueue.{enqueue_task, remove_from_runqueue, is_ready}
use rynex.Task.Futex.{is_waiting, awake}

abbrev pub priority_lowest : ℕ
priority_lowest = 39

abbrev pub futex_waiters : ℕ
futex_waiters = 2147483648

-- The priority from before a boost.
unfoldable pub restore_prio : ℕ → Tasks → Tasks
restore_prio id s =
    let t = s.tasks (task_idx id) in
    let s' = put_task (task_idx id) (record t { pi_boosted = false; prio = t.static_prio }) s in
    let moved = enqueue_task id t.static_prio (remove_from_runqueue id s').1 in
    let changed = is_ready t.state && not (t.prio == t.static_prio) in
    if t.pi_boosted then (if changed then moved else s') else s

abbrev pub is_none : Option ℕ → Bool
is_none none = true
is_none (some x) = false

-- The waiter of the highest priority among the first `n` tasks, with its priority.
unfoldable pub best_waiter : ℕ → ℕ → Tasks → Option ℕ × ℕ
best_waiter uaddr zero s = (none, priority_lowest)
best_waiter uaddr (suc n) s =
    let (best, prio) = best_waiter uaddr n s in
    let t = s.tasks n in
    if is_waiting uaddr t && (is_none best || ltb t.prio prio)
    then (some t.id, t.prio)
    else (best, prio)

unfoldable pub hand_over : Option ℕ → Tasks → ℕ × Tasks
hand_over none s = (0, s)
hand_over (some w) s =
    let t = s.tasks (task_idx w) in
    (bit_or (w % 2 ^ 32) futex_waiters, enqueue_task w t.prio (put_task (task_idx w) (awake t) s))

-- None for the error `EINVAL`.
unfoldable pub futex_unlock_pi : ℕ → ℕ → Tasks → Option (ℕ × Tasks)
futex_unlock_pi uaddr id s =
    let s' = restore_prio id s in
    let handed = hand_over (best_waiter uaddr max_tasks s').0 s' in
    if id == 0 then none else some handed
