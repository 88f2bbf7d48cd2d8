-- ===== src/Spinlock/State.antt =====
-- The state of one lock of src/spinlock.rs with the processors around it, and the steps of `lock`
-- and `unlock` between which other processors act. A lock of a Mutex and the drop of its guard are
-- the same steps.
use rynex.Prelude.{ℕ, ◌≡◌, Bool, true, false, if◌then◌else◌, update}

-- Where a processor is: outside, in the loop of `lock`, behind `lock`, or in `unlock` behind the
-- store; with the flag that `irq_save` gave.
pub data Pc : Type 0 where
  outside : Pc
  spinning : Bool → Pc
  holding : Bool → Pc
  restoring : Bool → Pc

-- `enabled` is the interrupt flag of each processor.
pub record Cpus : Type 0 where
  pub locked : Bool
  pub enabled : ℕ → Bool
  pub pc : ℕ → Pc

abbrev pub boot : (ℕ → Bool) → Cpus
boot enabled = record { locked = false; enabled = enabled; pc = λ _. Pc.outside }

unfoldable pub irq_save : ℕ → Cpus → Bool × Cpus
irq_save i s = (s.enabled i, record s { enabled = update s.enabled i false })

unfoldable pub irq_restore : ℕ → Bool → Cpus → Cpus
irq_restore i was s = record s { enabled = update s.enabled i was }

-- `lock` up to its loop.
unfoldable pub lock_start : ℕ → Cpus → Cpus
lock_start i s = let (was, s') = irq_save i s in record s' { pc = update s'.pc i (Pc.spinning was) }

-- A round of the loop: the exchange succeeds on a free lock.
unfoldable pub lock_round : ℕ → Bool → Cpus → Cpus
lock_round i was s =
    if s.locked then s else record s { locked = true; pc = update s.pc i (Pc.holding was) }

-- The store of `unlock`.
unfoldable pub unlock_store : ℕ → Bool → Cpus → Cpus
unlock_store i was s = record s { locked = false; pc = update s.pc i (Pc.restoring was) }

unfoldable pub unlock_restore : ℕ → Bool → Cpus → Cpus
unlock_restore i was s =
    let s' = irq_restore i was s in record s' { pc = update s'.pc i Pc.outside }

-- A step of one processor. Outside, it may set its interrupt flag.
pub data Step (s : Cpus) : Cpus → Type 0 where
  locks : (i : ℕ) → s.pc i ≡ Pc.outside → Step s (lock_start i s)
  spins : (i : ℕ) (was : Bool) → s.pc i ≡ Pc.spinning was → Step s (lock_round i was s)
  stores : (i : ℕ) (was : Bool) → s.pc i ≡ Pc.holding was → Step s (unlock_store i was s)
  restores : (i : ℕ) (was : Bool) → s.pc i ≡ Pc.restoring was → Step s (unlock_restore i was s)
  sets :
      (i : ℕ) (b : Bool)
      → s.pc i ≡ Pc.outside
      → Step s (record s { enabled = update s.enabled i b })

pub data Reach (enabled : ℕ → Bool) : Cpus → Type 0 where
  booted : Reach enabled (boot enabled)
  later : {s t : Cpus} → Reach enabled s → Step s t → Reach enabled t
