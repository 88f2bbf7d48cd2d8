-- ===== src/Ipc/Mailbox/Taking.antt =====
-- What an attempt of the receiving calls of src/ipc.rs does to the queues.
use rynex.Prelude.{
  ℕ, ◌+◌, ◌-◌, ◌%◌, ◌<◌, ◌≡◌, ◌≢◌, refl, ap, ap₂, sym, ◌∙◌, arith, List, [], ◌∷◌, Option, none,
  some, ◌==◌, if◌then◌else◌,
}
use native.Mathlib.Nat.{mod-eq_of_lt}
use rynex.Prelude.Ring.{window, window_mod, window_uncons}
use rynex.Ipc.State.{Ipc, Port, port_slots}
use rynex.Ipc.Pages.{dequeue}
use rynex.Ipc.Ports.{port_idx_by_id_locked}
use rynex.Ipc.Recv.{Taken, take_at, take_attempt}
use rynex.Ipc.Mailbox.{IsWell, mailbox, queue, port_at, queue-update}

-- The page is the first one of the id's queue, and leaves it; the other queues stay.
pub Removes : ℕ → ℕ → (ℕ → Port) → (ℕ → Port) → Type 0
Removes id page ports ports' =
    (q : List ℕ) × (queue id ports ≡ some (page ∷ q))
    × ((id' : ℕ) → queue id' ports' ≡ (if id' == id then some q else queue id' ports))

abbrev pub Takes : ℕ → Ipc → Taken × Ipc → Type 0
Takes id s (Taken.got page w, s') = Removes id page s.ports s'.ports × IsWell s'
Takes id s (Taken.nothing w, s') = (s' ≡ s) × (queue id s.ports ≡ some [])
Takes id s (Taken.gone, s') = (s' ≡ s) × (queue id s.ports ≡ none)

dequeued-IsTable : (s : Ipc) (i : ℕ) → IsWell s → IsWell (dequeue i s)
unfolding dequeue
dequeued-IsTable s i v = record {
  heads = λ j. ground (arith, v.heads j);
  counts = λ j. ground (arith, v.counts j);
  fresh = λ j lt u. ground (arith, v.fresh j);
  unique = λ j k lt lt' u u' e. ground (arith, v.unique j k);
  blank = λ j n u. ground (arith, v.blank j n, v.blank i n);
}

mailbox_uncons :
    (p : Port)
    → p.head < port_slots
    → p.count ≢ 0
    → mailbox p
      ≡ p.slots p.head ∷ window port_slots p.slots ((p.head + 1) % port_slots) (p.count - 1)
mailbox_uncons p lt ne =
    window_uncons port_slots p.slots p.head p.count ne
    ∙ ap₂ ◌∷◌ (ap p.slots (mod-eq_of_lt lt))
        (sym (window_mod port_slots p.slots (p.head + 1) (p.count - 1)))

dequeue-Removes :
    (s : Ipc) (id i : ℕ)
    → IsWell s
    → port_at id s.ports ≡ some i
    → (s.ports i).count ≢ 0
    → Removes id ((s.ports i).slots (s.ports i).head) s.ports (dequeue i s).ports
unfolding dequeue Removes
dequeue-Removes s id i v at ne = (
  window port_slots (s.ports i).slots (((s.ports i).head + 1) % port_slots) ((s.ports i).count - 1),
  rw at (ap some (mailbox_uncons (s.ports i) (v.heads i) ne)),
  λ id'. queue-update id id' s.ports s.next_port_id i _ v at refl refl,
)

empty_queue :
    (s : Ipc) (id i : ℕ)
    → port_at id s.ports ≡ some i
    → (s.ports i).count ≡ 0
    → queue id s.ports ≡ some []
empty_queue s id i at e =
    rw at (ap (λ n. some (window port_slots (s.ports i).slots (s.ports i).head n)) e)

take_at-Takes :
    (id : ℕ) (s : Ipc) (o : Option ℕ) → IsWell s → port_at id s.ports ≡ o → Takes id s (take_at o s)
unfolding take_at
take_at-Takes id s none v at = (refl, rw at refl)
take_at-Takes id s (some i) v at =
    ground (arith, dequeue-Removes s id i v at, dequeued-IsTable s i v, empty_queue s id i at)

-- An attempt of the receiving calls at a well-formed table takes the first page out of the queue of
-- the port and out of no other, or finds the queue empty, or finds no port of the id, and changes
-- nothing in these two cases; the table stays well formed.
pub take_attempt-Takes : (id : ℕ) (s : Ipc) → IsWell s → Takes id s (take_attempt id s)
unfolding take_attempt port_idx_by_id_locked
take_attempt-Takes id s v = take_at-Takes id s (port_at id s.ports) v refl
