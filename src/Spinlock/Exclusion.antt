-- ===== src/Spinlock/Exclusion.antt =====
-- Mutual exclusion of the locks of src/spinlock.rs.
use rynex.Prelude.{ℕ, ◌≡◌, ap, sym, ◌∙◌, arith, Bool, true, false, update, update_ne, true_ne_false}
use native.Mathlib.Decide.{ℕ_discrete}
use rynex.Spinlock.State.{
  Pc, Cpus, boot, irq_save, irq_restore, lock_start, lock_round, unlock_store, unlock_restore, Step,
  Reach,
}

abbrev pub holds : Pc → Bool
holds (Pc.holding was) = true
holds Pc.outside = false
holds (Pc.spinning was) = false
holds (Pc.restoring was) = false

abbrev pub inside : Pc → Bool
inside Pc.outside = false
inside (Pc.holding was) = true
inside (Pc.spinning was) = true
inside (Pc.restoring was) = true

-- The lock is marked while a processor holds it, one at most does, and no processor takes an
-- interrupt from `lock` to the end of `unlock`.
pub record IsExclusive (s : Cpus) : Type 0 where
  pub marked : (i : ℕ) → holds (s.pc i) ≡ true → s.locked ≡ true
  pub single : (i j : ℕ) → holds (s.pc i) ≡ true → holds (s.pc j) ≡ true → i ≡ j
  pub masked : (i : ℕ) → inside (s.pc i) ≡ true → s.enabled i ≡ false

boot-IsExclusive : (enabled : ℕ → Bool) → IsExclusive (boot enabled)
boot-IsExclusive enabled = record {
  marked = λ i h. ground arith;
  single = λ i j h h'. ground arith;
  masked = λ i h. ground arith;
}

locks-IsExclusive :
    (i : ℕ) (s : Cpus) → s.pc i ≡ Pc.outside → IsExclusive s → IsExclusive (lock_start i s)
unfolding lock_start irq_save
locks-IsExclusive i s e v = record {
  marked = λ j h. ground (arith, e, v.marked j);
  single = λ j k h h'. ground (arith, e, v.single j k);
  masked = λ j h. ground (arith, e, v.masked j);
}

spins-IsExclusive :
    (i : ℕ) (was : Bool) (s : Cpus)
    → s.pc i ≡ Pc.spinning was
    → IsExclusive s
    → IsExclusive (lock_round i was s)
unfolding lock_round
spins-IsExclusive i was s e v = record {
  marked = λ j h. ground (arith, e, v.marked j);
  single = λ j k h h'. ground (arith, e, v.single j k, v.marked j, v.marked k);
  masked = λ j h. ground (arith, ap inside e, v.masked j, v.masked i);
}

stores-IsExclusive :
    (i : ℕ) (was : Bool) (s : Cpus)
    → s.pc i ≡ Pc.holding was
    → IsExclusive s
    → IsExclusive (unlock_store i was s)
unfolding unlock_store
stores-IsExclusive i was s e v = record {
  marked = λ j h. ground (arith, ap holds e, v.single i j);
  single = λ j k h h'. ground (arith, e, v.single j k);
  masked = λ j h. ground (arith, ap inside e, v.masked j, v.masked i);
}

restores-IsExclusive :
    (i : ℕ) (was : Bool) (s : Cpus)
    → s.pc i ≡ Pc.restoring was
    → IsExclusive s
    → IsExclusive (unlock_restore i was s)
unfolding unlock_restore irq_restore
restores-IsExclusive i was s e v = record {
  marked = λ j h. ground (arith, e, v.marked j);
  single = λ j k h h'. ground (arith, e, v.single j k);
  masked = λ j h. ground (arith, e, v.masked j);
}

sets-IsExclusive :
    (i : ℕ) (b : Bool) (s : Cpus)
    → s.pc i ≡ Pc.outside
    → IsExclusive s
    → IsExclusive (record s { enabled = update s.enabled i b })
sets-IsExclusive i b s e v = record {
  marked = v.marked;
  single = v.single;
  masked = λ j h. elim (ℕ_discrete i j) [
    | yes same ↦ absurd (true_ne_false (sym h ∙ ap (λ k. inside (s.pc k)) (sym same) ∙ ap inside e))
    | no ne ↦ update_ne s.enabled b ne ∙ v.masked j h
  ];
}

Step-IsExclusive : {s t : Cpus} → Step s t → IsExclusive s → IsExclusive t
Step-IsExclusive {s} (Step.locks i e) v = locks-IsExclusive i s e v
Step-IsExclusive {s} (Step.spins i was e) v = spins-IsExclusive i was s e v
Step-IsExclusive {s} (Step.stores i was e) v = stores-IsExclusive i was s e v
Step-IsExclusive {s} (Step.restores i was e) v = restores-IsExclusive i was s e v
Step-IsExclusive {s} (Step.sets i b e) v = sets-IsExclusive i b s e v

-- In every state that any number of processors reach from boot, in any interleaving, the lock is
-- marked while it is held, at most one processor holds it, and no processor takes an interrupt from
-- `lock` to the end of `unlock`.
pub Reach-IsExclusive : (enabled : ℕ → Bool) (s : Cpus) → Reach enabled s → IsExclusive s
Reach-IsExclusive enabled s Reach.booted = boot-IsExclusive enabled
Reach-IsExclusive enabled s (Reach.later {s = u} r step) =
    Step-IsExclusive step (Reach-IsExclusive enabled u r)

-- A free lock that a processor takes and gives back, with no other step between, is free again, and
-- every processor stands where it was and has the interrupt flag that it had.
pub unlock-lock :
    (i : ℕ) (s : Cpus)
    → s.locked ≡ false
    → s.pc i ≡ Pc.outside
    → let t =
        unlock_restore i
          (s.enabled i)
          (unlock_store i (s.enabled i) (lock_round i (s.enabled i) (lock_start i s))) in
      (t.locked ≡ false) × ((j : ℕ) → t.enabled j ≡ s.enabled j) × ((j : ℕ) → t.pc j ≡ s.pc j)
unfolding unlock_restore unlock_store lock_round lock_start irq_restore irq_save
unlock-lock i s free out =
    (ground (arith, free), λ j. ground (arith, free), λ j. ground (arith, free, out))
