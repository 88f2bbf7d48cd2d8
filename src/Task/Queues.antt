-- ===== src/Task/Queues.antt =====
-- The run queues of src/task.rs as lists: for each processor and priority, the tasks that wait, the
-- first one first.
pub mod Entering
pub mod Leaving
use rynex.Prelude.{
  ℕ, zero, suc, ◌+◌, ◌-◌, ◌≤◌, ◌<◌, ◌≡◌, ◌≢◌, inl, inr, refl, ap, ap₂, sym, subst, ◌∙◌, arith, Bool,
  true, false, not, List, [], ◌∷◌, ◌++◌, Option, none, some, ◌&&◌, ◌||◌, ◌==◌, leb, if◌then◌else◌,
  length, update, update_self, update_ne, elem, Bool-cases, true_ne_false,
}
use native.Mathlib.Decide.{ℕ_discrete}
use rynex.Prelude.Sums.{total, total-change, total-congr}
use rynex.Task.State.{Task, RunQueue, Tasks, max_tasks, priority_levels, set_next}
use rynex.Task.Chain.{IsChain, IsOnce, last, IsChain-frame}

abbrev pub next_of : Tasks → ℕ → Option ℕ
next_of s i = (s.tasks i).runqueue_next

abbrev pub is_nil : List ℕ → Bool
is_nil [] = true
is_nil (x ∷ xs) = false

pub record IsQueues (s : Tasks) (q : ℕ → ℕ → List ℕ) : Type 0 where
  pub chains : (c p : ℕ) → IsChain (next_of s) ((s.runqueue c).heads p) (q c p)
  pub lasts : (c p : ℕ) → (s.runqueue c).tails p ≡ last (q c p)
  pub bits : (c p : ℕ) → (s.runqueue c).bitmap p ≡ not (is_nil (q c p))
  pub once : (c p : ℕ) → IsOnce (q c p)
  pub apart :
      (c p c' p' t : ℕ) → elem t (q c p) ≡ true → elem t (q c' p') ≡ true → (c ≡ c') × (p ≡ p')
  pub tids : (c p t : ℕ) → elem t (q c p) ≡ true → t < max_tasks
  pub levels : (c p : ℕ) → priority_levels ≤ p → q c p ≡ []
  pub counts : (c : ℕ) → (s.runqueue c).nr_running ≡ total priority_levels (λ p. length (q c p))

-- The lists with one replaced.
abbrev pub set_list : (ℕ → ℕ → List ℕ) → ℕ → ℕ → List ℕ → ℕ → ℕ → List ℕ
set_list q c p xs c' p' = if c' == c && p' == p then xs else q c' p'

-- A field of a run queue in a state where it is written at one level of one processor.
pub level-update :
    {A : Type 0} (F : RunQueue → ℕ → A) (f : ℕ → RunQueue) (c p : ℕ) (rq : RunQueue) (v : A)
    → F rq ≡ update (F (f c)) p v
    → (c' p' : ℕ) → F (update f c rq c') p' ≡ (if c' == c && p' == p then v else F (f c') p')
level-update F f c p rq v e c' p' = elim (ℕ_discrete c c') [
  | yes at ↦
      subst (λ k. F (update f c rq k) p' ≡ (if k == c && p' == p then v else F (f k) p')) at
        (ap (λ r. F r p') (update_self f c rq)
          ∙ ap (λ g. g p') e
          ∙ elim (ℕ_discrete p p') [ yes at' ↦ ground (arith, at') | no ne ↦ ground (arith, ne) ])
  | no ne ↦ ap (λ r. F r p') (update_ne f rq ne) ∙ ground (arith, ne)
]

pub level_same :
    {A : Type 0} (F : RunQueue → A) (f : ℕ → RunQueue) (c : ℕ) (rq : RunQueue)
    → F rq ≡ F (f c)
    → (c' : ℕ) → F (update f c rq c') ≡ F (f c')
level_same F f c rq e c' = elim (ℕ_discrete c c') [
  | yes at ↦ subst (λ k. F (update f c rq k) ≡ F (f k)) at (ap F (update_self f c rq) ∙ e)
  | no ne ↦ ap F (update_ne f rq ne)
]

is_here : (c c' p p' : ℕ) → (c' == c && p' == p) ≡ true → (c' ≡ c) × (p' ≡ p)
is_here c c' p p' e = ground (arith, e)

-- A field that the write keeps, as one written with what it had at a level.
pub level-kept :
    {A : Type 0} (F : RunQueue → ℕ → A) (f : ℕ → RunQueue) (c p : ℕ) (rq : RunQueue)
    → F rq ≡ F (f c)
    → (c' p' : ℕ)
    → F (update f c rq c') p' ≡ (if c' == c && p' == p then F (f c) p else F (f c') p')
level-kept F f c p rq e c' p' =
    ap (λ g. g p') (level_same F f c rq e c') ∙ elim (Bool-cases (c' == c && p' == p)) [
      | inl here ↦
          let (cc', pp') = is_here c c' p p' here in
          ap₂ (λ d r. F (f d) r) cc' pp' ∙ ground (arith, here)
      | inr away ↦ ground (arith, away)
    ]

-- What holds of the lists once one of them is another.
module _ (s s' : Tasks) (q : ℕ → ℕ → List ℕ) (c p : ℕ) (xs : List ℕ) (head : Option ℕ)
    (old : IsQueues s q) (level : p < priority_levels)
    (heads' : (d r : ℕ)
      → (s'.runqueue d).heads r ≡ (if d == c && r == p then head else (s.runqueue d).heads r))
    (tails' : (d r : ℕ)
      → (s'.runqueue d).tails r ≡ (if d == c && r == p then last xs else (s.runqueue d).tails r))
    (bits' : (d r : ℕ)
      → (s'.runqueue d).bitmap r
        ≡ (if d == c && r == p then not (is_nil xs) else (s.runqueue d).bitmap r))
    (here : IsChain (next_of s') head xs)
    (elsewhere : (d r : ℕ)
      → (d == c && r == p) ≡ false
      → IsChain (next_of s') ((s.runqueue d).heads r) (q d r))
    (single : IsOnce xs)
    (own : (t : ℕ)
      → elem t xs ≡ true
      → (t < max_tasks) × ((d r : ℕ) → elem t (q d r) ≡ true → (d ≡ c) × (r ≡ p)))
    (count : (s'.runqueue c).nr_running + length (q c p) ≡ (s.runqueue c).nr_running + length xs)
    (others : (d : ℕ) → c ≢ d → (s'.runqueue d).nr_running ≡ (s.runqueue d).nr_running) where
  abbrev q' : ℕ → ℕ → List ℕ
  q' = set_list q c p xs

  at_here : (d r : ℕ) → (d == c && r == p) ≡ true → q' d r ≡ xs
  at_here d r e = ground (arith, e)

  at_else : (d r : ℕ) → (d == c && r == p) ≡ false → q' d r ≡ q d r
  at_else d r e = ground (arith, e)

  set_chains : (d r : ℕ) → IsChain (next_of s') ((s'.runqueue d).heads r) (q' d r)
  set_chains d r = elim (Bool-cases (d == c && r == p)) [
    | inl e ↦
        let h : (s'.runqueue d).heads r ≡ head = ground (arith, heads' d r, e) in
        subst (λ o. IsChain (next_of s') o (q' d r)) (sym h)
          (subst (IsChain (next_of s') head) (sym (at_here d r e)) here)
    | inr e ↦
        let h : (s'.runqueue d).heads r ≡ (s.runqueue d).heads r = ground (arith, heads' d r, e) in
        subst (λ o. IsChain (next_of s') o (q' d r)) (sym h)
          (subst (IsChain (next_of s') ((s.runqueue d).heads r)) (sym (at_else d r e))
            (elsewhere d r e))
  ]

  set_lasts : (d r : ℕ) → (s'.runqueue d).tails r ≡ last (q' d r)
  set_lasts d r = elim (Bool-cases (d == c && r == p)) [
    | inl e ↦ ground (arith, tails' d r, e)
    | inr e ↦ ground (arith, tails' d r, e, old.lasts d r)
  ]

  set_bits : (d r : ℕ) → (s'.runqueue d).bitmap r ≡ not (is_nil (q' d r))
  set_bits d r = elim (Bool-cases (d == c && r == p)) [
    | inl e ↦ ground (arith, bits' d r, e)
    | inr e ↦ ground (arith, bits' d r, e, old.bits d r)
  ]

  set-IsOnce : (d r : ℕ) → IsOnce (q' d r)
  set-IsOnce d r = elim (Bool-cases (d == c && r == p)) [
    | inl e ↦ subst IsOnce (sym (at_here d r e)) single
    | inr e ↦ subst IsOnce (sym (at_else d r e)) (old.once d r)
  ]

  in_here : (d r t : ℕ) → (d == c && r == p) ≡ true → elem t (q' d r) ≡ true → elem t xs ≡ true
  in_here d r t e h = sym (ap (elem t) (at_here d r e)) ∙ h

  in_else :
      (d r t : ℕ) → (d == c && r == p) ≡ false → elem t (q' d r) ≡ true → elem t (q d r) ≡ true
  in_else d r t e h = sym (ap (elem t) (at_else d r e)) ∙ h

  set_apart :
      (d r d' r' t : ℕ) → elem t (q' d r) ≡ true → elem t (q' d' r') ≡ true → (d ≡ d') × (r ≡ r')
  set_apart d r d' r' t h h' = elim (Bool-cases (d == c && r == p)) [
    | inl e ↦
        let (dc, rp) = is_here c d p r e in
        elim (Bool-cases (d' == c && r' == p)) [
          | inl e' ↦ let (dc', rp') = is_here c d' p r' e' in (dc ∙ sym dc', rp ∙ sym rp')
          | inr e' ↦
              let (dc', rp') = (own t (in_here d r t e h)).1 d' r' (in_else d' r' t e' h') in
              (dc ∙ sym dc', rp ∙ sym rp')
        ]
    | inr e ↦ elim (Bool-cases (d' == c && r' == p)) [
      | inl e' ↦
          let (dc', rp') = is_here c d' p r' e' in
          let (dc, rp) = (own t (in_here d' r' t e' h')).1 d r (in_else d r t e h) in
          (dc ∙ sym dc', rp ∙ sym rp')
      | inr e' ↦ old.apart d r d' r' t (in_else d r t e h) (in_else d' r' t e' h')
    ]
  ]

  set_tids : (d r t : ℕ) → elem t (q' d r) ≡ true → t < max_tasks
  set_tids d r t h = elim (Bool-cases (d == c && r == p)) [
    | inl e ↦ (own t (in_here d r t e h)).0
    | inr e ↦ old.tids d r t (in_else d r t e h)
  ]

  set_counts : (d : ℕ) → (s'.runqueue d).nr_running ≡ total priority_levels (λ r. length (q' d r))
  set_counts d = elim (ℕ_discrete c d) [
    | no ne ↦
        others d ne
        ∙ old.counts d
        ∙ sym (
            total-congr priority_levels (λ r. length (q d r)) (λ r. length (q' d r))
              (λ r lt. ap length (at_else d r (ground (arith, ne)))))
    | yes e ↦
        subst (λ k. (s'.runqueue k).nr_running ≡ total priority_levels (λ r. length (q' k r))) e
          (let changed =
              total-change priority_levels (λ r. length (q c r)) (λ r. length (q' c r)) p level
                (λ r ne. ap length (at_else c r (ground (arith, ne)))) in
            let now : length (q' c p) ≡ length xs = ap length (at_here c p (ground arith)) in
            omega (arith, changed, now, count, old.counts c))
  ]

  pub set-IsQueues : IsQueues s' q'
  set-IsQueues = record {
    chains = set_chains;
    lasts = set_lasts;
    bits = set_bits;
    once = set-IsOnce;
    apart = set_apart;
    tids = set_tids;
    levels = λ d r le. at_else d r (ground (arith, le, level)) ∙ old.levels d r le;
    counts = set_counts;
  }
