-- ===== src/Spinlock/Tests.antt =====
-- The theorems on src/spinlock.rs with two processors.
use rynex.Prelude.{refl, true}
use rynex.Spinlock.State.{Cpus, boot, lock_start, lock_round, Step, Reach, irq_save}
use rynex.Spinlock.Exclusion.{IsExclusive, Reach-IsExclusive}

abbrev start : Cpus
start = boot (λ _. true)

-- Processor 0 holds the lock, and processor 1 waits for it.
abbrev contended : Cpus
contended = lock_round 1 true (lock_start 1 (lock_round 0 true (lock_start 0 start)))

contended-Reach : Reach (λ _. true) contended
unfolding lock_start lock_round irq_save
contended-Reach =
    Reach.later
      (Reach.later
        (Reach.later (Reach.later Reach.booted (Step.locks 0 refl)) (Step.spins 0 true refl))
        (Step.locks 1 refl))
      (Step.spins 1 true refl)

Reach-IsExclusive_example : IsExclusive contended
Reach-IsExclusive_example = Reach-IsExclusive (λ _. true) contended contended-Reach
