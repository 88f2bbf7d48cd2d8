-- ===== src/Task/RunQueue.antt =====
-- The run queues of src/task.rs: a list for each of 40 priorities, linked through the tasks.
use rynex.Prelude.{
  ℕ, zero, suc, ◌+◌, ◌-◌, Bool, true, false, Option, none, some, ◌||◌, ◌==◌, if◌then◌else◌, update,
}
use rynex.Prelude.Find.{find_index}
use rynex.Task.State.{
  TaskState, RunQueue, Tasks, max_tasks, task_idx, put_task, put_queue, set_next,
}

-- The task behind the last one of its priority, or as the only one.
unfoldable pub link_tail : ℕ → ℕ → ℕ → Option ℕ → Tasks → Tasks
link_tail cpu tid p none s =
    let rq = s.runqueue cpu in
    put_queue cpu
      (record rq {
        heads = update rq.heads p (some tid);
        tails = update rq.tails p (some tid);
        bitmap = update rq.bitmap p true;
        nr_running = rq.nr_running + 1;
      })
      s
link_tail cpu tid p (some tail_id) s =
    let s' = set_next (task_idx tail_id) (some tid) s in
    let rq = s'.runqueue cpu in
    put_queue cpu
      (record rq { tails = update rq.tails p (some tid); nr_running = rq.nr_running + 1 }) s'

unfoldable pub enqueue_task : ℕ → ℕ → Tasks → Tasks
enqueue_task tid p s =
    let cpu = (s.tasks (task_idx tid)).cpu in
    let s' = set_next (task_idx tid) none s in link_tail cpu tid p ((s'.runqueue cpu).tails p) s'

-- The rest of `dequeue_task`, with the head of the list.
unfoldable pub take_head : ℕ → ℕ → Option ℕ → Tasks → Option ℕ × Tasks
take_head cpu p none s = (none, s)
take_head cpu p (some tid) s =
    let rq = s.runqueue cpu in
    let next = (s.tasks (task_idx tid)).runqueue_next in
    let last : RunQueue = record rq {
      heads = update rq.heads p none;
      tails = update rq.tails p none;
      bitmap = update rq.bitmap p false;
      nr_running = rq.nr_running - 1;
    } in
    let more : RunQueue = record rq {
      heads = update rq.heads p next;
      nr_running = rq.nr_running - 1;
    } in
    let rq' : RunQueue = elim next [ none ↦ last | some _ ↦ more ] in
    (some tid, put_queue cpu rq' (set_next (task_idx tid) none s))

unfoldable pub dequeue_at : ℕ → Option ℕ → Tasks → Option ℕ × Tasks
dequeue_at cpu none s = (none, s)
dequeue_at cpu (some p) s = take_head cpu p ((s.runqueue cpu).heads p) s

-- The lowest bit of the bitmap that is set is the highest priority that has a task.
unfoldable pub dequeue_task : ℕ → Tasks → Option ℕ × Tasks
dequeue_task cpu s = dequeue_at cpu (find_index (s.runqueue cpu).bitmap 64 0) s

-- The task `tid` leaves its list, in which `prev` stands before it.
unfoldable pub unlink_task : ℕ → ℕ → ℕ → Option ℕ → Tasks → Tasks
unlink_task cpu tid p prev s =
    let idx = task_idx tid in
    let rq = s.runqueue cpu in
    let next = (s.tasks idx).runqueue_next in
    let heads : ℕ → Option ℕ = elim prev [ none ↦ update rq.heads p next | some _ ↦ rq.heads ] in
    let was_last : Bool = elim (rq.tails p) [ none ↦ false | some t ↦ t == tid ] in
    let tails = if was_last then update rq.tails p prev else rq.tails in
    let none_left : Bool = elim (heads p) [ none ↦ true | some _ ↦ false ] in
    let rq' : RunQueue = record rq {
      heads = heads;
      tails = tails;
      bitmap = if none_left then update rq.bitmap p false else rq.bitmap;
      nr_running = rq.nr_running - 1;
    } in
    let s' : Tasks = elim prev [ none ↦ s | some q ↦ set_next (task_idx q) next s ] in
    put_queue cpu rq' (set_next idx none s')

-- The walk along the list, over at most as many tasks as there are.
unfoldable pub search : ℕ → ℕ → ℕ → ℕ → Option ℕ → Option ℕ → Tasks → Bool × Tasks
search zero cpu tid p prev curr s = (false, s)
search (suc n) cpu tid p prev none s = (false, s)
search (suc n) cpu tid p prev (some cid) s =
    let rest = search n cpu tid p (some cid) (s.tasks (task_idx cid)).runqueue_next s in
    if cid == tid then (true, unlink_task cpu tid p prev s) else rest

-- The list is that of the priority that the task has now.
unfoldable pub remove_from_runqueue : ℕ → Tasks → Bool × Tasks
remove_from_runqueue tid s =
    let t = s.tasks (task_idx tid) in
    search (max_tasks + 1) t.cpu tid t.prio none ((s.runqueue t.cpu).heads t.prio) s

abbrev pub is_ready : TaskState → Bool
is_ready TaskState.ready = true
is_ready _ = false

abbrev pub is_running : TaskState → Bool
is_running TaskState.running = true
is_running _ = false

-- The current task, which still runs, goes behind the others of its priority.
unfoldable pub requeue_current : ℕ → Tasks → Tasks
requeue_current id s =
    let t = s.tasks (task_idx id) in
    let s' = put_task (task_idx id) (record t { state = TaskState.ready }) s in
    let requeued = enqueue_task id t.prio s' in
    if id == 0 then s else if is_running t.state || is_ready t.state then requeued else s
