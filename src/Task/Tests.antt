-- ===== src/Task/Tests.antt =====
-- The theorems on src/task.rs at a small state.
use rynex.Prelude.{update, true, ℕ, refl, arith, false, List, [], ◌∷◌, ◌++◌, none, ◌==◌, sym}
use rynex.Prelude.Sums.{total_zero}
use rynex.Task.State.{TaskState, Tasks, new_queue, priority_levels}
use rynex.Task.RunQueue.{enqueue_task, dequeue_task}
use rynex.Task.Queues.{IsQueues, set_list}
use rynex.Task.Queues.Entering.{enqueue_task-IsQueues}
use rynex.Task.Queues.Leaving.{Dequeues, dequeue_task-Dequeues}
use rynex.Task.Futex.{alloc_pid_from}
use rynex.Task.Pids.{GivesPid, alloc_pid_from-GivesPid}

-- Every task is blocked on the address 8, and none waits to run.
abbrev asleep : Tasks
asleep = record {
  tasks = λ i. record {
    id = i;
    state = TaskState.blocked;
    prio = 20;
    static_prio = 20;
    pi_boosted = false;
    cpu = 0;
    runqueue_next = none;
    blocked_on = 8;
    wakeup_tick = 0;
    futex_deadline = 0;
  };
  runqueue = λ _. new_queue;
  pid_bitmap = λ i. i == 0;
}

abbrev none_waits : ℕ → ℕ → List ℕ
none_waits c p = []

asleep-IsQueues : IsQueues asleep none_waits
asleep-IsQueues = record {
  chains = λ c p. refl;
  lasts = λ c p. refl;
  bits = λ c p. refl;
  once = λ c p. tt;
  apart = λ c p c' p' t h h'. absurd (ground (arith, h));
  tids = λ c p t h. absurd (ground (arith, h));
  levels = λ c p le. refl;
  counts = λ c. sym (total_zero priority_levels);
}

enqueue_task-IsQueues_example :
    IsQueues (enqueue_task 3 20 asleep) (set_list none_waits 0 20 (none_waits 0 20 ++ 3 ∷ []))
enqueue_task-IsQueues_example =
    enqueue_task-IsQueues 3 20 asleep none_waits asleep-IsQueues (omega arith) (omega arith)
      (λ d r. refl)

dequeue_task-Dequeues_example :
    Dequeues 0
      (enqueue_task 3 20 asleep)
      (set_list none_waits 0 20 (none_waits 0 20 ++ 3 ∷ []))
      (dequeue_task 0 (enqueue_task 3 20 asleep))
dequeue_task-Dequeues_example =
    dequeue_task-Dequeues 0 (enqueue_task 3 20 asleep)
      (set_list none_waits 0 20 (none_waits 0 20 ++ 3 ∷ []))
      (enqueue_task-IsQueues 3 20 asleep none_waits asleep-IsQueues (omega arith) (omega arith)
        (λ d r. refl))

-- The task 1 runs with a boost, and the others wait for it.
abbrev boosted : Tasks
boosted = record asleep {
  tasks =
      update asleep.tasks 1
        (record (asleep.tasks 1) { state = TaskState.running; prio = 3; pi_boosted = true });
}

alloc_pid_from-GivesPid_example : GivesPid 1 asleep (alloc_pid_from 1 asleep)
alloc_pid_from-GivesPid_example = alloc_pid_from-GivesPid 1 asleep
