-- ===== src/Task/Pids.antt =====
-- The pids of src/task.rs.
use rynex.Prelude.{
  ℕ, ◌-◌, ◌≤◌, ◌<◌, ◌≡◌, ◌≢◌, inl, inr, refl, sym, subst, ◌∙◌, arith, Bool, true, false, not,
  Option, none, some, ◌==◌, leb, if◌then◌else◌, update, update_self, update_ne, Bool-cases,
  Option-cases,
}
use native.Mathlib.Decide.{ℕ_discrete}
use rynex.Prelude.Find.{find_index, Finds, find_index-Finds, find_index_first}
use rynex.Task.State.{Tasks, max_tasks}
use rynex.Task.Futex.{take_pid, alloc_pid_from, free_pid}

-- What `alloc_pid_from` may give.
abbrev pub GivesPid : ℕ → Tasks → Option ℕ × Tasks → Type 0
GivesPid min_slot s (none, s') =
    (s' ≡ s) × ((i : ℕ) → min_slot ≤ i → i < max_tasks → s.pid_bitmap i ≡ true)
GivesPid min_slot s (some pid, s') =
    (min_slot ≤ pid)
    × (pid < max_tasks)
    × (s.pid_bitmap pid ≡ false)
    × ((i : ℕ) → min_slot ≤ i → i < pid → s.pid_bitmap i ≡ true)
    × ((i : ℕ) → s'.pid_bitmap i ≡ (if i == pid then true else s.pid_bitmap i))
    × ((i : ℕ) → pid ≢ 0 → (free_pid pid s').pid_bitmap i ≡ s.pid_bitmap i)

taken_bit :
    (f : ℕ → Bool) (pid : ℕ) (v : Bool) (i : ℕ) → update f pid v i ≡ (if i == pid then v else f i)
taken_bit f pid v i = elim (ℕ_discrete pid i) [
  | yes e ↦ ground (arith, e)
  | no ne ↦ ground (arith, ne)
]

given_back :
    (pid : ℕ) (s : Tasks)
    → pid < max_tasks
    → s.pid_bitmap pid ≡ false
    → (i : ℕ) → pid ≢ 0
    → (free_pid pid (record s { pid_bitmap = update s.pid_bitmap pid true })).pid_bitmap i
      ≡ s.pid_bitmap i
unfolding free_pid
given_back pid s small unused i ne =
    let some_pid : (pid == 0) ≡ false = ground (arith, ne) in
    let in_range : leb max_tasks pid ≡ false = ground (arith, small) in
    let f = update s.pid_bitmap pid true in
    rw (some_pid, in_range)
      (elim (ℕ_discrete pid i) [
        | yes e ↦
            subst (λ k. update f pid false k ≡ s.pid_bitmap k) e
              (update_self f pid false ∙ sym unused)
        | no other ↦ update_ne f false other ∙ update_ne s.pid_bitmap true other
      ])

-- The lowest pid from `min_slot` on that is not in use is given, and is in use from then on, with no
-- other bit changed; `free_pid` of it leaves the bitmap as it was. None is given only where all are in
-- use.
pub alloc_pid_from-GivesPid :
    (min_slot : ℕ) (s : Tasks) → GivesPid min_slot s (alloc_pid_from min_slot s)
unfolding alloc_pid_from take_pid
alloc_pid_from-GivesPid min_slot s =
    let test = λ (i : ℕ). not (s.pid_bitmap i) in
    let n = max_tasks - min_slot in
    elim (Bool-cases (leb max_tasks min_slot)) [
      | inl e ↦ rw e (refl, λ i le lt. absurd (ground (arith, e, le, lt)))
      | inr below ↦ elim (Option-cases (find_index test n min_slot)) [
        | inl e ↦
            let all = subst (Finds test n min_slot) e (find_index-Finds test n min_slot) in
            rw (below, e) (refl, λ i le lt. bit (s.pid_bitmap i) (all i le (omega (arith, le, lt))))
        | inr (pid, e) ↦
            let (free, above, lt) =
              subst (Finds test n min_slot) e (find_index-Finds test n min_slot) in
            let unused : s.pid_bitmap pid ≡ false = ground (arith, free) in
            let small : pid < max_tasks = ground (arith, above, lt) in
            rw (below, e)
              (
                above,
                small,
                unused,
                λ i le before.
                    bit (s.pid_bitmap i) (find_index_first test n min_slot pid e i le before),
                taken_bit s.pid_bitmap pid true,
                given_back pid s small unused,
              )
      ]
    ]
  where
    bit : (b : Bool) → not b ≡ false → b ≡ true
    bit true e = refl
    bit false e = sym e
