-- ===== src/Ipc/Mailbox/Creating.antt =====
-- What `ipc_create` of src/ipc.rs does to the queues, and that `ipc_connect` finds the port.
use rynex.Prelude.{
  ℕ, ◌+◌, ◌^◌, ◌<◌, ◌≡◌, ◌≢◌, inl, inr, ap, sym, subst, ◌∙◌, arith, true, false, not, List, [],
  some, ◌==◌, if◌then◌else◌, update_ne, Option-cases, true_ne_false,
}
use native.Mathlib.Decide.{ℕ_discrete}
use rynex.Prelude.Find.{find_index, Finds, find_index-Finds, find_index-congr, find_index_only}
use rynex.Ipc.State.{Ipc, max_ports}
use rynex.Ipc.Ports.{has_id, create_at}
use rynex.Ipc.Mailbox.{IsWell, queue, port_at, port_at-Found, Found}

-- A free index, as the search gives it.
abbrev pub IsFree : Ipc → ℕ → Type 0
IsFree s i = (i < max_ports) × ((s.ports i).used ≡ false)

pub slot-IsFree :
    (s : Ipc) (i : ℕ) → find_index (λ j. not (s.ports j).used) max_ports 0 ≡ some i → IsFree s i
slot-IsFree s i e =
    let (passes, _, below) =
      subst (Finds (λ j. not (s.ports j).used) max_ports 0) e
        (find_index-Finds (λ j. not (s.ports j).used) max_ports 0) in
    (omega (arith, below), ground (arith, passes))

-- No port has an id that was not given yet.
pub unused_id :
    (s : Ipc) (i : ℕ) → IsWell s → i < max_ports → has_id s.next_port_id (s.ports i) ≡ false
unfolding has_id
unused_id s i v lt = ground (arith, v.fresh i lt)

pub created-IsTable :
    (name : List ℕ) (s : Ipc) (i : ℕ)
    → IsWell s
    → IsFree s i
    → s.next_port_id + 1 < 2 ^ 64
    → IsWell (create_at name i s).1
unfolding create_at
created-IsTable name s i v f below = record {
  heads = λ j. ground (arith, v.heads j);
  counts = λ j. ground (arith, v.counts j);
  fresh = λ j lt u. ground (arith, v.fresh j lt);
  unique = λ j k lt lt' u u' e. ground (arith, v.unique j k lt lt', v.fresh j lt, v.fresh k lt');
  blank = λ j n u. ground (arith, v.blank j n, v.blank i n);
}

module _ (name : List ℕ) (s : Ipc) (i : ℕ) (v : IsWell s) (f : IsFree s i) where
  passes : has_id s.next_port_id ((create_at name i s).1.ports i) ≡ true
  unfolding has_id create_at
  passes = ground arith

  pub other_kept : (j : ℕ) → i ≢ j → (create_at name i s).1.ports j ≡ s.ports j
  unfolding create_at
  other_kept j ne = update_ne s.ports _ ne

  new_found : port_at s.next_port_id (create_at name i s).1.ports ≡ some i
  unfolding create_at
  new_found =
      find_index_only (λ j. has_id s.next_port_id ((create_at name i s).1.ports j)) max_ports 0 i
        (omega arith) (omega (arith, f.0)) passes
        (λ k le lt h. elim (ℕ_discrete i k) [
          | yes e ↦ sym e
          | no ne ↦ absurd (
              true_ne_false (
                sym h
                ∙ ap (has_id s.next_port_id) (other_kept k ne)
                ∙ unused_id s k v (omega arith)))
        ])

  other_found :
      (id : ℕ) → id ≢ s.next_port_id → port_at id (create_at name i s).1.ports ≡ port_at id s.ports
  unfolding create_at has_id
  other_found id ne =
      find_index-congr (λ j. has_id id ((create_at name i s).1.ports j))
        (λ j. has_id id (s.ports j)) max_ports 0 (λ j le lt. ground (arith, f.1))

  pub created-queue :
      (id : ℕ)
      → queue id (create_at name i s).1.ports
        ≡ (if id == s.next_port_id then some [] else queue id s.ports)
  unfolding Found create_at
  created-queue id = elim (ℕ_discrete id s.next_port_id) [
    | yes e ↦ ground (arith, e, new_found)
    | no ne ↦ elim (Option-cases (port_at id s.ports)) [
      | inl o ↦ ground (arith, o, other_found id ne)
      | inr (j, o) ↦
          let used = (port_at-Found id s.ports j o).1 in
          let differs : i ≢ j = λ e. ground (arith, f.1, used, e) in
          ground (arith, o, other_found id ne, other_kept j differs)
    ]
  ]
