-- ===== src/Task/Futex.antt =====
-- `futex_wake` of src/task.rs, and the pids.
pub mod Waking
pub mod Looping
use rynex.Prelude.{
  ℕ, zero, suc, ◌+◌, ◌-◌, Bool, true, false, not, Option, none, some, ◌&&◌, ◌==◌, leb,
  if◌then◌else◌, update,
}
use rynex.Prelude.Find.{find_index}
use rynex.Task.State.{TaskState, Task, Tasks, max_tasks, put_task}
use rynex.Task.RunQueue.{enqueue_task}

abbrev pub is_blocked : TaskState → Bool
is_blocked TaskState.blocked = true
is_blocked _ = false

unfoldable pub is_waiting : ℕ → Task → Bool
is_waiting uaddr t = is_blocked t.state && t.blocked_on == uaddr && not (t.id == 0)

abbrev pub awake : Task → Task
awake t = record t { state = TaskState.ready; blocked_on = 0; wakeup_tick = 0; futex_deadline = 0 }

-- A waiting task is made ready and put in its queue. (Its saved registers are dropped.)
unfoldable pub wake_one : ℕ → Tasks → Tasks
wake_one i s = let t = s.tasks i in enqueue_task t.id t.prio (put_task i (awake t) s)

-- The tasks from `i` on, `n` of them, with the number of those woken.
unfoldable pub wake_from : ℕ → ℕ → ℕ → ℕ → ℕ → Tasks → ℕ × Tasks
wake_from uaddr max_wake zero i woken s = (woken, s)
wake_from uaddr max_wake (suc n) i woken s =
    let next = wake_from uaddr max_wake n (i + 1) woken s in
    let after = wake_from uaddr max_wake n (i + 1) (woken + 1) (wake_one i s) in
    if leb max_wake woken then (woken, s) else if is_waiting uaddr (s.tasks i) then after else next

unfoldable pub futex_wake : ℕ → ℕ → Tasks → ℕ × Tasks
futex_wake uaddr max_wake s = wake_from uaddr max_wake max_tasks 0 0 s

-- The first free pid from `min_slot` on. The exchange of the bitmap succeeds at last, with the bitmap
-- that the free bit was looked up in, so that the loop comes to one step.
unfoldable pub take_pid : Option ℕ → Tasks → Option ℕ × Tasks
take_pid none s = (none, s)
take_pid (some bit) s = (some bit, record s { pid_bitmap = update s.pid_bitmap bit true })

unfoldable pub alloc_pid_from : ℕ → Tasks → Option ℕ × Tasks
alloc_pid_from min_slot s =
    let taken =
      take_pid (find_index (λ i. not (s.pid_bitmap i)) (max_tasks - min_slot) min_slot) s in
    if leb max_tasks min_slot then (none, s) else taken

unfoldable pub alloc_pid_specific : ℕ → Tasks → Bool × Tasks
alloc_pid_specific slot s =
    let taken : Bool × Tasks = (true, record s { pid_bitmap = update s.pid_bitmap slot true }) in
    if leb max_tasks slot then (false, s) else if s.pid_bitmap slot then (false, s) else taken

unfoldable pub free_pid : ℕ → Tasks → Tasks
free_pid pid s =
    if pid == 0
    then s
    else if leb max_tasks pid
    then s
    else record s { pid_bitmap = update s.pid_bitmap pid false }
