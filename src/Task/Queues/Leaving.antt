-- ===== src/Task/Queues/Leaving.antt =====
-- `dequeue_task` of src/task.rs: the first task of the highest priority that has one.
use rynex.Prelude.{
  ℕ, ◌-◌, ◌<◌, ◌≡◌, ◌≢◌, inl, inr, refl, ap, sym, subst, ◌∙◌, arith, true, false, not, List, [],
  ◌∷◌, Option, none, some, ◌&&◌, ◌==◌, if◌then◌else◌, length, update, update_self, update_ne, elem,
  Bool-cases, Option-cases, true_ne_false, ltb_cases,
}
use rynex.Prelude.Find.{find_index, Finds, find_index-Finds, find_index_first}
use rynex.Prelude.Sums.{le-total}
use rynex.Task.State.{RunQueue, Tasks, max_tasks, priority_levels, task_idx, put_queue, set_next}
use rynex.Task.RunQueue.{take_head, dequeue_at, dequeue_task}
use rynex.Task.Chain.{IsChain, IsOnce, last, IsChain-update, chain_head}
use rynex.Task.Queues.{IsQueues, next_of, is_nil, set_list, set-IsQueues, level-update, level-kept}
use rynex.Task.Queues.Entering.{IsChain-set_next}

-- What `dequeue_task` may give.
abbrev pub Dequeues : ℕ → Tasks → (ℕ → ℕ → List ℕ) → Option ℕ × Tasks → Type 0
Dequeues c s q (none, s') = (s' ≡ s) × ((p : ℕ) → q c p ≡ [])
Dequeues c s q (some t, s') =
    (p : ℕ) × (rest : List ℕ) × (p < priority_levels)
    × (q c p ≡ t ∷ rest)
    × ((r : ℕ) → r < p → q c r ≡ [])
    × IsQueues s' (set_list q c p rest)

longer_list :
    (next : ℕ → Option ℕ) (x y : ℕ) (rest : List ℕ) (head : Option ℕ)
    → IsChain next head rest
    → head ≡ some y
    → (last (x ∷ rest) ≡ last rest) × (not (is_nil rest) ≡ true)
longer_list next x y [] head c e = absurd (ground (arith, c, e))
longer_list next x y (z ∷ rest) head c e = (refl, refl)

filled : (x : ℕ) (xs : List ℕ) → x ∷ xs ≢ []
filled x xs e = ground (arith, e)

nil_of_bit : (xs : List ℕ) → not (is_nil xs) ≡ false → xs ≡ []
nil_of_bit [] e = refl
nil_of_bit (x ∷ xs) e = absurd (true_ne_false e)

module _ (s : Tasks) (q : ℕ → ℕ → List ℕ) (c p x : ℕ) (rest : List ℕ) (old : IsQueues s q)
    (level : p < priority_levels) (at : q c p ≡ x ∷ rest) where
  abbrev rq : RunQueue
  rq = s.runqueue c

  abbrev next : Option ℕ
  next = next_of s x

  IsChain-here : IsChain (next_of s) (rq.heads p) (x ∷ rest)
  IsChain-here = subst (IsChain (next_of s) (rq.heads p)) at (old.chains c p)

  IsOnce-here : IsOnce (x ∷ rest)
  IsOnce-here = subst IsOnce at (old.once c p)

  in_list : (t : ℕ) → elem t (x ∷ rest) ≡ true → elem t (q c p) ≡ true
  in_list t h = ap (elem t) at ∙ h

  x_in : elem x (q c p) ≡ true
  x_in = in_list x (ground arith)

  away : (d r : ℕ) → (d == c && r == p) ≡ false → elem x (q d r) ≡ false
  away d r e = elim (Bool-cases (elem x (q d r))) [
    | inr miss ↦ miss
    | inl hit ↦ let (dc, rp) = old.apart d r c p x hit x_in in absurd (ground (arith, dc, rp, e))
  ]

  own :
      (t : ℕ)
      → elem t rest ≡ true
      → (t < max_tasks) × ((d r : ℕ) → elem t (q d r) ≡ true → (d ≡ c) × (r ≡ p))
  own t h =
      let here = in_list t (ground (arith, h)) in
      (old.tids c p t here, λ d r h'. old.apart d r c p t h' here)

  -- A task behind the first one.
  longer : (y : ℕ) → next ≡ some y → (rq.tails p ≡ last rest) × (rq.bitmap p ≡ not (is_nil rest))
  longer y e =
      let tail : rq.tails p ≡ last (x ∷ rest) = old.lasts c p ∙ ap last at in
      let bit : rq.bitmap p ≡ true = old.bits c p ∙ ap (λ l. not (is_nil l)) at in
      let (same, filled) = longer_list (next_of s) x y rest next IsChain-here.1 e in
      (tail ∙ same, bit ∙ sym filled)

  -- The state behind, with the fields of the run queue as they come out.
  left-IsQueues :
      (rq' : RunQueue)
      → rq'.heads ≡ update rq.heads p next
      → ((d r : ℕ)
          → ((put_queue c rq' s).runqueue d).tails r
            ≡ (if d == c && r == p then last rest else (s.runqueue d).tails r))
      → ((d r : ℕ)
          → ((put_queue c rq' s).runqueue d).bitmap r
            ≡ (if d == c && r == p then not (is_nil rest) else (s.runqueue d).bitmap r))
      → rq'.nr_running ≡ rq.nr_running - 1
      → IsQueues (put_queue c rq' (set_next x none s)) (set_list q c p rest)
  left-IsQueues rq' heads tails bits count =
      let s' = put_queue c rq' (set_next x none s) in
      set-IsQueues s s' q c p rest next old level
        (level-update (λ r. r.heads) s.runqueue c p rq' next heads) tails bits
        (IsChain-set_next x none s next rest
          (IsChain-update (next_of s) next rest x none IsOnce-here.0 IsChain-here.1))
        (λ d r e. IsChain-set_next x none s ((s.runqueue d).heads r) (q d r) (
          IsChain-update (next_of s) ((s.runqueue d).heads r) (q d r) x none (away d r e)
            (old.chains d r)))
        IsOnce-here.1 own
        (omega (
          arith,
          ap (λ (z : RunQueue). z.nr_running) (update_self s.runqueue c rq'),
          count,
          ap length at,
          old.counts c,
          le-total priority_levels (λ r. length (q c r)) p level,
        ))
        (λ d ne. ap (λ (z : RunQueue). z.nr_running) (update_ne s.runqueue rq' ne))

  take_head-IsQueues :
      let (r, s') = take_head c p (some x) s in (r ≡ some x) × IsQueues s' (set_list q c p rest)
  unfolding take_head
  take_head-IsQueues =
      let idx : task_idx x ≡ x = ground (arith, old.tids c p x x_in) in
      subst
        (λ i.
          let n = (s.tasks i).runqueue_next in
          let gone : RunQueue = record rq {
            heads = update rq.heads p none;
            tails = update rq.tails p none;
            bitmap = update rq.bitmap p false;
            nr_running = rq.nr_running - 1;
          } in
          let more : RunQueue = record rq {
            heads = update rq.heads p n;
            nr_running = rq.nr_running - 1;
          } in
          let rq' : RunQueue = elim n [ none ↦ gone | some _ ↦ more ] in
          (some x ≡ some x) × IsQueues (put_queue c rq' (set_next i none s)) (set_list q c p rest))
        (sym idx)
        (
          refl,
          elim (Option-cases next) [
            | inl e ↦
                let over : rest ≡ [] = chain_head (next_of s) next rest IsChain-here.1 e in
                rw e (
                  left-IsQueues _ (ap (update rq.heads p) (sym e))
                    (λ d r.
                      level-update (λ z. z.tails) s.runqueue c p _ none refl d r
                      ∙ ap (λ l. if d == c && r == p then last l else (s.runqueue d).tails r)
                          (sym over))
                    (λ d r.
                      level-update (λ z. z.bitmap) s.runqueue c p _ false refl d r
                      ∙ ap
                          (λ l.
                            if d == c && r == p then not (is_nil l) else (s.runqueue d).bitmap r)
                          (sym over))
                    refl)
            | inr (y, e) ↦
                let (same_tail, same_bit) = longer y e in
                rw e (
                  left-IsQueues _ refl
                    (λ d r.
                      level-kept (λ z. z.tails) s.runqueue c p _ refl d r
                      ∙ ap (λ o. if d == c && r == p then o else (s.runqueue d).tails r) same_tail)
                    (λ d r.
                      level-kept (λ z. z.bitmap) s.runqueue c p _ refl d r
                      ∙ ap (λ o. if d == c && r == p then o else (s.runqueue d).bitmap r) same_bit)
                    refl)
          ],
        )

  take_head-Dequeues : ((r : ℕ) → r < p → q c r ≡ []) → Dequeues c s q (take_head c p (some x) s)
  unfolding take_head
  take_head-Dequeues lower = (p, rest, level, at, lower, take_head-IsQueues.1)

-- `dequeue_task` takes the first task out of the list of the highest priority that has one, and out of
-- no other list; where no task waits on the processor it gives none and changes nothing.
pub dequeue_task-Dequeues :
    (c : ℕ) (s : Tasks) (q : ℕ → ℕ → List ℕ) → IsQueues s q → Dequeues c s q (dequeue_task c s)
unfolding dequeue_task dequeue_at
dequeue_task-Dequeues c s q old =
    let bits = (s.runqueue c).bitmap in
    elim (Option-cases (find_index bits 64 0)) [
      | inl e ↦
          let clear = subst (Finds bits 64 0) e (find_index-Finds bits 64 0) in
          rw e (
            refl,
            λ p. elim (ltb_cases p 64) [
              | inl lt ↦
                  nil_of_bit (q c p)
                    (sym (old.bits c p) ∙ clear p (omega arith) (omega (arith, lt)))
              | inr le ↦ old.levels c p (omega (arith, le))
            ],
          )
      | inr (p, e) ↦
          let (set, _, _) = subst (Finds bits 64 0) e (find_index-Finds bits 64 0) in
          rw e (first_of (q c p) p refl e (sym (old.bits c p) ∙ set))
    ]
  where
    first_of :
        (xs : List ℕ) (p : ℕ)
        → q c p ≡ xs
        → find_index (s.runqueue c).bitmap 64 0 ≡ some p
        → not (is_nil xs) ≡ true
        → Dequeues c s q (take_head c p ((s.runqueue c).heads p) s)
    first_of [] p at e set = absurd (true_ne_false (sym set))
    first_of (x ∷ rest) p at e set =
        let head : (s.runqueue c).heads p ≡ some x =
          (subst (IsChain (next_of s) ((s.runqueue c).heads p)) at (old.chains c p)).0 in
        let level : p < priority_levels = elim (ltb_cases p priority_levels) [
          | inl lt ↦ lt
          | inr le ↦ absurd (filled x rest (sym at ∙ old.levels c p le))
        ] in
        let lower : (r : ℕ) → r < p → q c r ≡ [] = λ r lt. nil_of_bit (q c r) (
          sym (old.bits c r)
          ∙ find_index_first (s.runqueue c).bitmap 64 0 p e r (omega arith) lt) in
        rw head (take_head-Dequeues s q c p x rest old level at lower)
