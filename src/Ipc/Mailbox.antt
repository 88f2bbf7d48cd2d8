-- ===== src/Ipc/Mailbox.antt =====
-- The abstract view of the ports of src/ipc.rs: a map from port ids to queues of message pages.
pub mod Posting
pub mod Taking
pub mod Creating
pub mod Naming
pub mod Making
pub mod Draining
pub mod Closing
use rynex.Prelude.{
  ℕ, zero, suc, ◌+◌, ◌-◌, ◌%◌, ◌≤◌, ◌<◌, ◌≡◌, ◌≢◌, ◌⊎◌, inl, inr, refl, ap, sym, subst, ◌∙◌, arith,
  Bool, true, false, List, [], ◌∷◌, ◌++◌, Option, none, some, ◌&&◌, ◌==◌, if◌then◌else◌, update,
  update_self, update_ne, Option-cases, Bool-cases,
}
use native.Mathlib.Decide.{ℕ_discrete}
use rynex.Prelude.Ring.{window}
use rynex.Prelude.Find.{
  find_index, Finds, find_index-Finds, find_index-congr, find_index_only, find_index_misses,
}
use rynex.Ipc.State.{Ipc, Port, max_ports, port_slots}
use rynex.Ipc.Ports.{has_id, port_idx_by_id_locked}

-- The pages queued at a port, the oldest first.
abbrev pub mailbox : Port → List ℕ
mailbox p = window port_slots p.slots p.head p.count

pub record IsTable (ports : ℕ → Port) (next : ℕ) : Type 0 where
  pub heads : (i : ℕ) → (ports i).head < port_slots
  pub counts : (i : ℕ) → (ports i).count ≤ port_slots
  pub fresh : (i : ℕ) → i < max_ports → (ports i).used ≡ true → (ports i).id < next
  pub unique :
      (i j : ℕ)
      → i < max_ports
      → j < max_ports
      → (ports i).used ≡ true
      → (ports j).used ≡ true
      → (ports i).id ≡ (ports j).id
      → i ≡ j
  -- A port that is not in use has no name left in it.
  pub blank : (i n : ℕ) → (ports i).used ≡ false → (ports i).name n ≡ 0

abbrev pub IsWell : Ipc → Type 0
IsWell s = IsTable s.ports s.next_port_id

abbrev pub port_at : ℕ → (ℕ → Port) → Option ℕ
port_at id ports = find_index (λ i. has_id id (ports i)) max_ports 0

abbrev queue_at : Option ℕ → (ℕ → Port) → Option (List ℕ)
queue_at none ports = none
queue_at (some i) ports = some (mailbox (ports i))

-- The queue of an id, if a port has the id.
abbrev pub queue : ℕ → (ℕ → Port) → Option (List ℕ)
queue id ports = queue_at (port_at id ports) ports

pub has_id-used : (id : ℕ) (p : Port) → has_id id p ≡ true → (p.used ≡ true) × (p.id ≡ id)
unfolding has_id
has_id-used id p h = ground arith

-- What a lookup that succeeds says.
pub Found : ℕ → (ℕ → Port) → ℕ → Type 0
Found id ports i = (i < max_ports) × ((ports i).used ≡ true) × ((ports i).id ≡ id)

pub port_at-Found :
    (id : ℕ) (ports : ℕ → Port) (i : ℕ) → port_at id ports ≡ some i → Found id ports i
unfolding Found
port_at-Found id ports i e =
    let (passes, _, below) =
      subst (Finds (λ j. has_id id (ports j)) max_ports 0) e
        (find_index-Finds (λ j. has_id id (ports j)) max_ports 0) in
    let (used, same) = has_id-used id (ports i) passes in (omega (arith, below), used, same)

-- The lookup goes by the marks and the ids alone.
pub port_at-congr :
    (id : ℕ) (ports ports' : ℕ → Port)
    → ((i : ℕ) → (ports' i).used ≡ (ports i).used)
    → ((i : ℕ) → (ports' i).id ≡ (ports i).id)
    → port_at id ports' ≡ port_at id ports
unfolding has_id
port_at-congr id ports ports' used same =
    find_index-congr (λ i. has_id id (ports' i)) (λ i. has_id id (ports i)) max_ports 0
      (λ i le lt. ground (arith, used i, same i))

-- One port's queue changes, the others' stay.
pub queue-update :
    (id id' : ℕ) (ports : ℕ → Port) (next i : ℕ) (p : Port)
    → IsTable ports next
    → port_at id ports ≡ some i
    → p.used ≡ (ports i).used
    → p.id ≡ (ports i).id
    → queue id' (update ports i p) ≡ (if id' == id then some (mailbox p) else queue id' ports)
unfolding Found
queue-update id id' ports next i p v at used same =
    ap (λ o. queue_at o (update ports i p))
      (port_at-congr id' ports (update ports i p) (λ j. ground arith) (λ j. ground arith))
    ∙ elim (ℕ_discrete id' id) [
      | yes e ↦ ground (arith, at, e, update_self ports i p)
      | no ne ↦ elim (Option-cases (port_at id' ports)) [
        | inl o ↦ ground (arith, o)
        | inr (j, o) ↦
            let differs : i ≢ j = λ e. ne (
              sym (port_at-Found id' ports j o).2
              ∙ ap (λ k. (ports k).id) (sym e)
              ∙ (port_at-Found id ports i at).2) in
            ground (arith, o, update_ne ports p differs)
      ]
    ]
