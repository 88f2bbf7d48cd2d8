-- ===== src/Task/State.antt =====
-- The state of src/task.rs, as far as pids, run queues and futexes use it.
use rynex.Prelude.{ℕ, Bool, false, Option, none, leb, if◌then◌else◌, update}

abbrev pub max_tasks : ℕ
max_tasks = 64

abbrev pub priority_levels : ℕ
priority_levels = 40

pub data TaskState : Type 0 where
  empty ready running blocked exited zombie : TaskState

pub record Task : Type 0 where
  pub id : ℕ
  pub state : TaskState
  pub prio : ℕ
  pub static_prio : ℕ
  pub pi_boosted : Bool
  pub cpu : ℕ
  pub runqueue_next : Option ℕ
  pub blocked_on : ℕ
  pub wakeup_tick : ℕ
  pub futex_deadline : ℕ

-- The bitmap is read by bits.
pub record RunQueue : Type 0 where
  pub bitmap : ℕ → Bool
  pub heads : ℕ → Option ℕ
  pub tails : ℕ → Option ℕ
  pub nr_running : ℕ

abbrev pub new_queue : RunQueue
new_queue = record { bitmap = λ _. false; heads = λ _. none; tails = λ _. none; nr_running = 0 }

pub record Tasks : Type 0 where
  pub tasks : ℕ → Task
  pub runqueue : ℕ → RunQueue
  pub pid_bitmap : ℕ → Bool

-- A pid is the place of its task.
abbrev pub task_idx : ℕ → ℕ
task_idx id = if leb max_tasks id then 0 else id

abbrev pub put_task : ℕ → Task → Tasks → Tasks
put_task i t s = record s { tasks = update s.tasks i t }

abbrev pub put_queue : ℕ → RunQueue → Tasks → Tasks
put_queue cpu rq s = record s { runqueue = update s.runqueue cpu rq }

abbrev pub set_next : ℕ → Option ℕ → Tasks → Tasks
set_next i next s = put_task i (record (s.tasks i) { runqueue_next = next }) s
