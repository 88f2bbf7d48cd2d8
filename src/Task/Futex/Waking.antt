-- ===== src/Task/Futex/Waking.antt =====
-- What one round of `futex_wake` of src/task.rs makes of the run queues and of the task that it wakes.
use rynex.Prelude.{
  ℕ, ◌<◌, ◌≡◌, ◌≢◌, refl, ap, sym, subst, ◌∙◌, arith, true, false, List, [], ◌∷◌, ◌++◌, Option,
  none, some, ◌==◌, if◌then◌else◌, update_self, update_ne, elem, true_ne_false,
}
use native.Mathlib.Decide.{ℕ_discrete}
use rynex.Task.State.{
  TaskState, Task, Tasks, max_tasks, priority_levels, task_idx, put_task, set_next,
}
use rynex.Task.RunQueue.{link_tail, enqueue_task}
use rynex.Task.Chain.{IsChain-frame, elem-append}
use rynex.Task.Queues.{IsQueues, next_of, set_list}
use rynex.Task.Queues.Entering.{enqueue_task-IsQueues}
use rynex.Task.Futex.{is_blocked, is_waiting, awake, wake_one}

-- What is looked at in a task, beside its link.
abbrev pub face : Task → ((ℕ × TaskState) × (ℕ × ℕ)) × ℕ × ℕ × ℕ
face t = (((t.id, t.state), (t.prio, t.blocked_on)), t.cpu, t.wakeup_tick, t.futex_deadline)

set_next-face :
    (i : ℕ) (v : Option ℕ) (s : Tasks) (j : ℕ) → face ((set_next i v s).tasks j) ≡ face (s.tasks j)
set_next-face i v s j = elim (ℕ_discrete i j) [
  | yes e ↦
      subst (λ k. face ((set_next i v s).tasks k) ≡ face (s.tasks k)) e
        (ap face (update_self s.tasks i _))
  | no ne ↦ ap face (update_ne s.tasks _ ne)
]

link_tail-face :
    (c tid p : ℕ) (o : Option ℕ) (s : Tasks) (j : ℕ)
    → face ((link_tail c tid p o s).tasks j) ≡ face (s.tasks j)
unfolding link_tail
link_tail-face c tid p none s j = refl
link_tail-face c tid p (some l) s j = set_next-face (task_idx l) (some tid) s j

enqueue_task-face :
    (tid p : ℕ) (s : Tasks) (j : ℕ) → face ((enqueue_task tid p s).tasks j) ≡ face (s.tasks j)
unfolding enqueue_task
enqueue_task-face tid p s j =
    link_tail-face _ tid p _ (set_next (task_idx tid) none s) j
    ∙ set_next-face (task_idx tid) none s j

-- The queues are well formed, no task that is blocked waits in one, and a task stands at its pid.
pub record IsSound (s : Tasks) (q : ℕ → ℕ → List ℕ) : Type 0 where
  pub queues : IsQueues s q
  pub out :
      (i c p : ℕ) → i < max_tasks → is_blocked (s.tasks i).state ≡ true → elem i (q c p) ≡ false
  pub placed : (i : ℕ) → i < max_tasks → (s.tasks i).id ≢ 0 → (s.tasks i).id ≡ i
  pub prios : (i : ℕ) → i < max_tasks → (s.tasks i).prio < priority_levels

-- A write to a task that keeps its link and its processor.
pub IsQueues-put_task :
    (i : ℕ) (t : Task) (s : Tasks) (q : ℕ → ℕ → List ℕ)
    → t.runqueue_next ≡ (s.tasks i).runqueue_next
    → IsQueues s q
    → IsQueues (put_task i t s) q
IsQueues-put_task i t s q same old = record {
  chains = λ c p.
      IsChain-frame (next_of s) (next_of (put_task i t s)) ((s.runqueue c).heads p) (q c p)
        (λ j h. elim (ℕ_discrete i j) [
          | yes e ↦
              subst (λ k. next_of (put_task i t s) k ≡ next_of s k) e
                (ap (λ (u : Task). u.runqueue_next) (update_self s.tasks i t) ∙ same)
          | no ne ↦ ap (λ (u : Task). u.runqueue_next) (update_ne s.tasks t ne)
        ])
        (old.chains c p);
  lasts = old.lasts;
  bits = old.bits;
  once = old.once;
  apart = old.apart;
  tids = old.tids;
  levels = old.levels;
  counts = old.counts;
}

module _ (s : Tasks) (q : ℕ → ℕ → List ℕ) (i uaddr : ℕ) (sound : IsSound s q) (lt : i < max_tasks)
    (waits : is_waiting uaddr (s.tasks i) ≡ true) where
  abbrev t : Task
  t = s.tasks i

  blocked : is_blocked t.state ≡ true
  unfolding is_waiting
  blocked = ground (arith, waits)

  at : t.id ≡ i
  unfolding is_waiting
  at = sound.placed i lt (ground (arith, waits))

  abbrev c : ℕ
  c = t.cpu

  abbrev pub q1 : ℕ → ℕ → List ℕ
  q1 = set_list q c t.prio (q c t.prio ++ i ∷ [])

  pub woken_face : (j : ℕ) → i ≢ j → face ((wake_one i s).tasks j) ≡ face (s.tasks j)
  unfolding wake_one
  woken_face j ne =
      enqueue_task-face t.id t.prio (put_task i (awake t) s) j
      ∙ ap face (update_ne s.tasks (awake t) ne)

  pub woken_self : face ((wake_one i s).tasks i) ≡ face (awake t)
  unfolding wake_one
  woken_self =
      enqueue_task-face t.id t.prio (put_task i (awake t) s) i
      ∙ ap face (update_self s.tasks i (awake t))

  -- The task that is woken, and every other one.
  pub woken_case :
      (j : ℕ)
      → face ((wake_one i s).tasks j) ≡ (if j == i then face (awake t) else face (s.tasks j))
  woken_case j = elim (ℕ_discrete i j) [
    | yes e ↦
        let self : (i == i) ≡ true = ground arith in
        subst
          (λ k.
            face ((wake_one i s).tasks k) ≡ (if k == i then face (awake t) else face (s.tasks k)))
          e (rw self woken_self)
    | no ne ↦ let other : (j == i) ≡ false = ground (arith, ne) in rw other (woken_face j ne)
  ]

  woken-IsQueues : IsQueues (wake_one i s) q1
  unfolding wake_one
  woken-IsQueues =
      let s1 = put_task i (awake t) s in
      let cpu : (s1.tasks i).cpu ≡ c = ap (λ (u : Task). u.cpu) (update_self s.tasks i (awake t)) in
      let entered =
        enqueue_task-IsQueues i t.prio s1 q (IsQueues-put_task i (awake t) s q refl sound.queues) lt
          (sound.prios i lt) (λ d r. sound.out i d r lt blocked) in
      subst (λ k. IsQueues (enqueue_task k t.prio s1) q1) (sym at)
        (subst
          (λ d. IsQueues (enqueue_task i t.prio s1) (set_list q d t.prio (q d t.prio ++ i ∷ [])))
          cpu entered)

  pub wake_one-IsSound : IsSound (wake_one i s) q1
  wake_one-IsSound = record {
    queues = woken-IsQueues;
    out = λ j d r lt' b. elim (ℕ_discrete i j) [
      | yes e ↦
          let ready : is_blocked ((wake_one i s).tasks j).state ≡ false =
            subst (λ k. is_blocked ((wake_one i s).tasks k).state ≡ false) e
              (ap (λ f. is_blocked f.0.0.1) woken_self) in
          absurd (true_ne_false (sym b ∙ ready))
      | no ne ↦
          let before : is_blocked (s.tasks j).state ≡ true =
            sym (ap (λ f. is_blocked f.0.0.1) (woken_face j ne)) ∙ b in
          let other = sound.out j d r lt' before in
          let here = sound.out j c t.prio lt' before in
          ground (arith, other, here, ne, elem-append j (q c t.prio) (i ∷ []))
    ];
    placed = λ j lt' ne'. elim (ℕ_discrete i j) [
      | yes e ↦ subst (λ k. ((wake_one i s).tasks k).id ≡ k) e (ap (λ f. f.0.0.0) woken_self ∙ at)
      | no ne ↦
          let same = ap (λ f. f.0.0.0) (woken_face j ne) in
          same ∙ sound.placed j lt' (λ z. ne' (same ∙ z))
    ];
    prios = λ j lt'. elim (ℕ_discrete i j) [
      | yes e ↦
          subst (λ k. ((wake_one i s).tasks k).prio < priority_levels) e
            (subst (λ n. n < priority_levels) (sym (ap (λ f. f.0.1.0) woken_self))
              (sound.prios i lt))
      | no ne ↦
          subst (λ n. n < priority_levels) (sym (ap (λ f. f.0.1.0) (woken_face j ne)))
            (sound.prios j lt')
    ];
  }
