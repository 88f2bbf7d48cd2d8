-- ===== src/Task/Queues/Entering.antt =====
-- `enqueue_task` of src/task.rs: the task comes behind the others of its priority.
use rynex.Prelude.{
  ℕ, ◌+◌, ◌<◌, ◌≡◌, ◌≢◌, inl, inr, refl, ap, sym, subst, ◌∙◌, arith, true, false, not, List, [],
  ◌∷◌, ◌++◌, Option, none, some, ◌&&◌, ◌==◌, if◌then◌else◌, length-append, update, update_self,
  update_ne, elem, Bool-cases, Option-cases, true_ne_false,
}
use native.Mathlib.Decide.{ℕ_discrete}
use rynex.Task.State.{
  Task, RunQueue, Tasks, max_tasks, priority_levels, task_idx, put_queue, set_next,
}
use rynex.Task.RunQueue.{link_tail, enqueue_task}
use rynex.Task.Chain.{
  IsChain, IsOnce, last, IsChain-frame, IsChain-update, IsChain-append, elem-last, last-append,
  elem-append, append-IsOnce,
}
use rynex.Task.Queues.{IsQueues, next_of, is_nil, set_list, set-IsQueues, level-update, level-kept}

pub next_of-set_next :
    (i : ℕ) (v : Option ℕ) (s : Tasks) (j : ℕ)
    → next_of (set_next i v s) j ≡ update (next_of s) i v j
next_of-set_next i v s j = elim (ℕ_discrete i j) [
  | yes e ↦
      subst (λ k. next_of (set_next i v s) k ≡ update (next_of s) i v k) e
        (ap (λ (t : Task). t.runqueue_next) (update_self s.tasks i _)
          ∙ sym (update_self (next_of s) i v))
  | no ne ↦
      ap (λ (t : Task). t.runqueue_next) (update_ne s.tasks _ ne) ∙ sym (update_ne (next_of s) v ne)
]

-- A chain over written links.
pub IsChain-set_next :
    (i : ℕ) (v : Option ℕ) (s : Tasks) (head : Option ℕ) (xs : List ℕ)
    → IsChain (update (next_of s) i v) head xs
    → IsChain (next_of (set_next i v s)) head xs
IsChain-set_next i v s head xs c =
    IsChain-frame (update (next_of s) i v) (next_of (set_next i v s)) head xs
      (λ j h. next_of-set_next i v s j) c

last-none : (xs : List ℕ) → last xs ≡ none → xs ≡ []
last-none [] e = refl
last-none (x ∷ []) e = absurd (ground (arith, e))
last-none (x ∷ y ∷ xs) e = absurd (filled (last-none (y ∷ xs) e))
  where
    filled : y ∷ xs ≢ []
    filled e = ground (arith, e)

not_nil : (xs : List ℕ) (t : ℕ) → not (is_nil (xs ++ t ∷ [])) ≡ true
not_nil [] t = refl
not_nil (x ∷ xs) t = refl

some-last : (xs : List ℕ) (l : ℕ) → last xs ≡ some l → not (is_nil xs) ≡ true
some-last [] l e = absurd (ground (arith, e))
some-last (x ∷ xs) l e = refl

module _ (s : Tasks) (q : ℕ → ℕ → List ℕ) (c p tid : ℕ) (old : IsQueues s q)
    (valid : tid < max_tasks) (level : p < priority_levels)
    (out : (d r : ℕ) → elem tid (q d r) ≡ false) where
  abbrev xs : List ℕ
  xs = q c p

  abbrev s1 : Tasks
  s1 = set_next tid none s

  first_chains : (d r : ℕ) → IsChain (next_of s1) ((s.runqueue d).heads r) (q d r)
  first_chains d r = IsChain-set_next tid none s ((s.runqueue d).heads r) (q d r) (
      IsChain-update (next_of s) ((s.runqueue d).heads r) (q d r) tid none (out d r)
        (old.chains d r))

  stops : next_of s1 tid ≡ none
  stops = next_of-set_next tid none s tid ∙ update_self (next_of s) tid none

  own :
      (t : ℕ)
      → elem t (xs ++ tid ∷ []) ≡ true
      → (t < max_tasks) × ((d r : ℕ) → elem t (q d r) ≡ true → (d ≡ c) × (r ≡ p))
  own t h = elim (Bool-cases (elem t xs)) [
    | inl e ↦ (old.tids c p t e, λ d r h'. old.apart d r c p t h' e)
    | inr e ↦
        let same : tid ≡ t = ground (arith, h, elem-append t xs (tid ∷ []), e) in
        (
          omega (arith, same, valid),
          λ d r h'. absurd (true_ne_false (sym h' ∙ ap (λ k. elem k (q d r)) (sym same) ∙ out d r)),
        )
  ]

  single : IsOnce (xs ++ tid ∷ [])
  single = append-IsOnce xs tid (old.once c p) (out c p)

  -- The list was empty.
  only-IsQueues :
      (s1.runqueue c).tails p ≡ none
      → IsQueues (link_tail c tid p none s1) (set_list q c p (xs ++ tid ∷ []))
  unfolding link_tail
  only-IsQueues e =
      let rq = s.runqueue c in
      let rq' : RunQueue = record rq {
        heads = update rq.heads p (some tid);
        tails = update rq.tails p (some tid);
        bitmap = update rq.bitmap p true;
        nr_running = rq.nr_running + 1;
      } in
      let s' = put_queue c rq' s1 in
      let nothing : xs ≡ [] = last-none xs (sym (old.lasts c p) ∙ e) in
      set-IsQueues s s' q c p (xs ++ tid ∷ []) (some tid) old level
        (level-update (λ r. r.heads) s.runqueue c p rq' (some tid) refl)
        (λ d r.
          level-update (λ z. z.tails) s.runqueue c p rq' (some tid) refl d r
          ∙ ap (λ o. if d == c && r == p then o else (s.runqueue d).tails r)
              (sym (last-append xs tid)))
        (λ d r.
          level-update (λ z. z.bitmap) s.runqueue c p rq' true refl d r
          ∙ ap (λ o. if d == c && r == p then o else (s.runqueue d).bitmap r)
              (sym (not_nil xs tid)))
        (subst (λ l. IsChain (next_of s1) (some tid) (l ++ tid ∷ [])) (sym nothing) (refl, stops))
        (λ d r away. first_chains d r) single own
        (omega (
          arith,
          ap (λ (z : RunQueue). z.nr_running) (update_self s.runqueue c rq'),
          length-append xs (tid ∷ []),
        ))
        (λ d ne. ap (λ (z : RunQueue). z.nr_running) (update_ne s.runqueue rq' ne))

  -- The list ends at `l`.
  behind-IsQueues :
      (l : ℕ)
      → (s1.runqueue c).tails p ≡ some l
      → IsQueues (link_tail c tid p (some l) s1) (set_list q c p (xs ++ tid ∷ []))
  unfolding link_tail
  behind-IsQueues l e =
      let final : last xs ≡ some l = sym (old.lasts c p) ∙ e in
      let inside : elem l xs ≡ true = elem-last xs l final in
      let at : task_idx l ≡ l = ground (arith, old.tids c p l inside) in
      let s2 = set_next l (some tid) s1 in
      let rq = s.runqueue c in
      let rq' : RunQueue = record rq {
        tails = update rq.tails p (some tid);
        nr_running = rq.nr_running + 1;
      } in
      let s' = put_queue c rq' s2 in
      let filled : (s.runqueue c).bitmap p ≡ true = old.bits c p ∙ some-last xs l final in
      subst
        (λ i.
          IsQueues (put_queue c rq' (set_next i (some tid) s1)) (set_list q c p (xs ++ tid ∷ [])))
        (sym at)
        (set-IsQueues s s' q c p (xs ++ tid ∷ []) ((s.runqueue c).heads p) old level
          (λ d r. level-kept (λ z. z.heads) s.runqueue c p rq' refl d r)
          (λ d r.
            level-update (λ z. z.tails) s.runqueue c p rq' (some tid) refl d r
            ∙ ap (λ o. if d == c && r == p then o else (s.runqueue d).tails r)
                (sym (last-append xs tid)))
          (λ d r.
            level-kept (λ z. z.bitmap) s.runqueue c p rq' refl d r
            ∙ ap (λ o. if d == c && r == p then o else (s.runqueue d).bitmap r)
                (filled ∙ sym (not_nil xs tid)))
          (IsChain-set_next l (some tid) s1 ((s.runqueue c).heads p) (xs ++ tid ∷ []) (
            IsChain-append (next_of s1) ((s.runqueue c).heads p) xs l tid (first_chains c p)
              (old.once c p) final (out c p) stops))
          (λ d r away. IsChain-set_next l (some tid) s1 ((s.runqueue d).heads r) (q d r) (
            IsChain-update (next_of s1) ((s.runqueue d).heads r) (q d r) l (some tid)
              (elim (Bool-cases (elem l (q d r))) [
                | inr miss ↦ miss
                | inl hit ↦
                    let (dc, rp) = old.apart d r c p l hit inside in
                    absurd (ground (arith, dc, rp, away))
              ])
              (first_chains d r)))
          single own
          (omega (
            arith,
            ap (λ (z : RunQueue). z.nr_running) (update_self s.runqueue c rq'),
            length-append xs (tid ∷ []),
          ))
          (λ d ne. ap (λ (z : RunQueue). z.nr_running) (update_ne s.runqueue rq' ne)))

-- `enqueue_task` puts a task that waits in no list behind the others of the priority, on its own
-- processor; every other list stays, in order.
pub enqueue_task-IsQueues :
    (tid p : ℕ) (s : Tasks) (q : ℕ → ℕ → List ℕ)
    → IsQueues s q
    → tid < max_tasks
    → p < priority_levels
    → ((d r : ℕ) → elem tid (q d r) ≡ false)
    → let c = (s.tasks tid).cpu in
      IsQueues (enqueue_task tid p s) (set_list q c p (q c p ++ tid ∷ []))
unfolding enqueue_task
enqueue_task-IsQueues tid p s q old valid level out =
    let c = (s.tasks tid).cpu in
    let at : task_idx tid ≡ tid = ground (arith, valid) in
    subst
      (λ i.
        IsQueues
          (link_tail (s.tasks i).cpu tid p ((s.runqueue (s.tasks i).cpu).tails p)
            (set_next i none s))
          (set_list q c p (q c p ++ tid ∷ [])))
      (sym at)
      (elim (Option-cases ((s.runqueue c).tails p)) [
        | inl e ↦ rw e (only-IsQueues s q c p tid old valid level out e)
        | inr (l, e) ↦ rw e (behind-IsQueues s q c p tid old valid level out l e)
      ])
