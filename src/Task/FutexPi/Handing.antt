-- ===== src/Task/FutexPi/Handing.antt =====
-- Whom `futex_unlock_pi` of src/task.rs hands the futex to.
use rynex.Prelude.{
  ℕ, ◌≤◌, ◌<◌, ◌≡◌, ◌≢◌, ◌⊎◌, true, false, List, Option, none, some, ◌==◌, ◌%◌, ◌^◌, [], ◌∷◌, ◌++◌,
  if◌then◌else◌,
}
use Prim.Native.Nat.{bit_or}
use rynex.Task.State.{Task, Tasks, max_tasks}
use rynex.Task.Queues.{set_list}
use rynex.Task.Futex.{is_waiting, awake}
use rynex.Task.Futex.Waking.{IsSound, face}
use rynex.Task.FutexPi.{futex_waiters}

-- Of those who wait among the first `n` tasks, one of the highest priority, or that none waits.
abbrev Best : ℕ → ℕ → Tasks → Option ℕ × ℕ → Type 0
Best uaddr n s (none, prio) = (j : ℕ) → j < n → is_waiting uaddr (s.tasks j) ≡ false
Best uaddr n s (some w, prio) =
    (i : ℕ) × (i < n)
    × (w ≡ (s.tasks i).id)
    × (prio ≡ (s.tasks i).prio)
    × (is_waiting uaddr (s.tasks i) ≡ true)
    × ((j : ℕ) → j < n → is_waiting uaddr (s.tasks j) ≡ true → (s.tasks i).prio ≤ (s.tasks j).prio)

-- The futex is set free where none waits; otherwise it goes to a waiter of the highest priority, who is
-- woken and put behind the others of its priority.
abbrev pub HandsOver : ℕ → Tasks → (ℕ → ℕ → List ℕ) → ℕ × Tasks → Type 0
HandsOver uaddr s q (word, s') =
    ((word ≡ 0) × (s' ≡ s) × ((j : ℕ) → j < max_tasks → is_waiting uaddr (s.tasks j) ≡ false))
    ⊎ ((i : ℕ) × (i < max_tasks)
        × (is_waiting uaddr (s.tasks i) ≡ true)
        × ((j : ℕ)
            → j < max_tasks
            → is_waiting uaddr (s.tasks j) ≡ true
            → (s.tasks i).prio ≤ (s.tasks j).prio)
        × (word ≡ bit_or (i % 2 ^ 32) futex_waiters)
        × ((j : ℕ)
            → face (s'.tasks j) ≡ (if j == i then face (awake (s.tasks i)) else face (s.tasks j)))
        × IsSound s' (
            set_list q (s.tasks i).cpu (s.tasks i).prio
              (q (s.tasks i).cpu (s.tasks i).prio ++ i ∷ [])))

-- The end of a boost: the priority is the static one again, and no other task changes.
abbrev pub Restores : ℕ → Tasks → Tasks → Type 0
Restores k s s1 =
    let t = s.tasks k in
    (s1.tasks k
      ≡ record t { pi_boosted = false; prio = if t.pi_boosted then t.static_prio else t.prio })
    × ((j : ℕ) → j ≢ k → s1.tasks j ≡ s.tasks j)
