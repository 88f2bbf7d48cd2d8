-- ===== src/Ipc/Mailbox/Making.antt =====
-- `ipc_create` of src/ipc.rs as a whole.
use rynex.Prelude.{
  ℕ, ◌+◌, ◌^◌, ◌≤◌, ◌<◌, ◌≡◌, refl, arith, false, not, [], Option, none, some, ◌==◌, if◌then◌else◌,
}
use rynex.Prelude.Find.{find_index, find_index_misses}
use rynex.Ipc.State.{Ipc, Ret, max_ports, name_len}
use rynex.Ipc.Ports.{
  has_id, slice, bad_name, port_idx_by_name_locked, create_at, create_named, ipc_create, connected,
  ipc_connect,
}
use rynex.Ipc.Mailbox.{IsWell, queue}
use rynex.Ipc.Mailbox.Creating.{IsFree, slot-IsFree, created-IsTable, created-queue, unused_id}
use rynex.Ipc.Mailbox.Naming.{length-slice, created-named}

-- What a call may do: nothing, or make a port of a fresh id, with an empty queue, that
-- `ipc_connect` finds by the name.
abbrev pub Creates : ℕ → ℕ → Ipc → Ret × Ipc → Type 0
Creates name_ptr len s (Ret.err e, s') = s' ≡ s
Creates name_ptr len s (Ret.ok id, s') =
    (queue id s.ports ≡ none)
    × ((id' : ℕ) → queue id' s'.ports ≡ (if id' == id then some [] else queue id' s.ports))
    × (ipc_connect name_ptr len s' ≡ Ret.ok id)
    × IsWell s'

fresh_id : (s : Ipc) → IsWell s → queue s.next_port_id s.ports ≡ none
fresh_id s v =
    rw
      (find_index_misses (λ i. has_id s.next_port_id (s.ports i)) max_ports 0
        (λ k le lt. unused_id s k v (omega arith)))
      refl

fits : (name_ptr len : ℕ) → bad_name name_ptr len ≡ false → len ≤ name_len
fits name_ptr len fine = ground (arith, fine)

connected_new :
    (name_ptr len : ℕ) (s : Ipc) (i : ℕ)
    → IsWell s
    → IsFree s i
    → bad_name name_ptr len ≡ false
    → port_idx_by_name_locked (slice s.bytes name_ptr len) s ≡ none
    → ipc_connect name_ptr len (create_at (slice s.bytes name_ptr len) i s).1
      ≡ Ret.ok s.next_port_id
unfolding ipc_connect connected create_at
connected_new name_ptr len s i v f fine missing = ground (
  arith,
  fine,
  created-named (slice s.bytes name_ptr len) s i v f
      (omega (arith, length-slice s.bytes name_ptr len, fits name_ptr len fine)) missing,
)

create_named-Creates :
    (name_ptr len : ℕ) (s : Ipc) (known slot : Option ℕ)
    → IsWell s
    → s.next_port_id + 1 < 2 ^ 64
    → bad_name name_ptr len ≡ false
    → port_idx_by_name_locked (slice s.bytes name_ptr len) s ≡ known
    → find_index (λ i. not (s.ports i).used) max_ports 0 ≡ slot
    → Creates name_ptr len s (create_named (slice s.bytes name_ptr len) known slot s)
unfolding create_named create_at
create_named-Creates name_ptr len s (some j) slot v room fine e e' = refl
create_named-Creates name_ptr len s none none v room fine e e' = refl
create_named-Creates name_ptr len s none (some i) v room fine e e' =
    let f = slot-IsFree s i e' in
    let name = slice s.bytes name_ptr len in
    (
      fresh_id s v,
      created-queue name s i v f,
      connected_new name_ptr len s i v f fine e,
      created-IsTable name s i v f room,
    )

-- While fewer than 2^64 - 1 ids were given, `ipc_create` at a well-formed table changes nothing and
-- answers an error, or makes a port whose id had no queue, gives it the empty queue, leaves every
-- other queue, and lets `ipc_connect` answer the id for the name; the table stays well formed.
pub ipc_create-Creates :
    (name_ptr len : ℕ) (s : Ipc)
    → IsWell s
    → s.next_port_id + 1 < 2 ^ 64
    → Creates name_ptr len s (ipc_create name_ptr len s)
unfolding ipc_create
ipc_create-Creates name_ptr len s v room = ground (
  arith,
  create_named-Creates name_ptr len s (port_idx_by_name_locked (slice s.bytes name_ptr len) s)
      (find_index (λ i. not (s.ports i).used) max_ports 0) v room,
)
