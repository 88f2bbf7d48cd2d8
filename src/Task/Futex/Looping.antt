-- ===== src/Task/Futex/Looping.antt =====
-- What `futex_wake` of src/task.rs makes of the run queues and of those who wait.
use rynex.Prelude.{
  ℕ, ◌+◌, ◌≤◌, ◌<◌, ◌≡◌, true, false, List, [], ◌∷◌, ◌++◌, elem, length, if◌then◌else◌,
}
use rynex.Task.State.{Task, Tasks, max_tasks}
use rynex.Task.Chain.{IsOnce}
use rynex.Task.Queues.{set_list}
use rynex.Task.Futex.{is_waiting, awake, wake_one}
use rynex.Task.Futex.Waking.{IsSound, face}

-- The lists with tasks put behind the others of their priorities, each on its own processor, one after
-- the other.
abbrev pub place_all : Tasks → List ℕ → (ℕ → ℕ → List ℕ) → ℕ → ℕ → List ℕ
place_all s [] q = q
place_all s (i ∷ is) q =
    let t = s.tasks i in place_all s is (set_list q t.cpu t.prio (q t.cpu t.prio ++ i ∷ []))

-- The wake of the tasks `ws`: they waited, all of them become ready, and every other task is as before;
-- each of them is at the end of its list.
pub record Woken (uaddr : ℕ) (s : Tasks) (q : ℕ → ℕ → List ℕ) (ws : List ℕ) (s' : Tasks)
    : Type 0 where
  pub once : IsOnce ws
  pub waited : (j : ℕ) → elem j ws ≡ true → is_waiting uaddr (s.tasks j) ≡ true
  pub faces :
      (j : ℕ)
      → face (s'.tasks j) ≡ (if elem j ws then face (awake (s.tasks j)) else face (s.tasks j))
  pub queued : IsSound s' (place_all s ws q)

-- What the loop from `i` on may come to.
abbrev Wakes : ℕ → ℕ → ℕ → ℕ → ℕ → Tasks → (ℕ → ℕ → List ℕ) → ℕ × Tasks → Type 0
Wakes uaddr max_wake n i woken s q (w, s') =
    (ws : List ℕ) × Woken uaddr s q ws s'
    × (w ≡ woken + length ws)
    × ((j : ℕ) → elem j ws ≡ true → i ≤ j)
    × (woken ≤ max_wake → w ≤ max_wake)
    × (w < max_wake → (j : ℕ) → i ≤ j → j < i + n → is_waiting uaddr (s'.tasks j) ≡ false)

module _ (uaddr max_wake n i woken : ℕ) (s : Tasks) (q : ℕ → ℕ → List ℕ) (sound : IsSound s q)
    (lt : i < max_tasks) (waits : is_waiting uaddr (s.tasks i) ≡ true) where
  abbrev t : Tasks
  t = wake_one i s
