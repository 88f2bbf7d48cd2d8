-- ===== src/Ipc/Ports.antt =====
-- The port table of src/ipc.rs: lookups, `ipc_create`, `ipc_connect` and `ipc_close`.
use rynex.Prelude.{
  ℕ, zero, suc, ◌+◌, ◌-◌, ◌%◌, ◌^◌, Bool, true, List, [], ◌∷◌, Option, none, some, not, ◌&&◌, ◌||◌,
  ◌==◌, ltb, if◌then◌else◌, update, length,
}
use rynex.Prelude.Find.{find_index}
use rynex.Ipc.State.{
  Ipc, Port, Caller, Ret, WakeWord, max_ports, port_slots, name_len, esrch, enomem, eexist, einval,
  empty_port, futex_wake,
}
use rynex.Ipc.Pages.{free_page}

unfoldable pub has_id : ℕ → Port → Bool
has_id id port = port.used && port.id == id

unfoldable pub port_idx_by_id_locked : ℕ → Ipc → Option ℕ
port_idx_by_id_locked id s = find_index (λ i. has_id id (s.ports i)) max_ports 0

-- The bytes of a name agree with those stored from position `j` on.
unfoldable pub name_eq : (ℕ → ℕ) → ℕ → List ℕ → Bool
name_eq stored j [] = true
name_eq stored j (c ∷ cs) = stored j == c && name_eq stored (j + 1) cs

unfoldable pub has_name : List ℕ → Port → Bool
has_name name port =
    port.used
    && (name_eq port.name 0 name && (length name == name_len || port.name (length name) == 0))

unfoldable pub port_idx_by_name_locked : List ℕ → Ipc → Option ℕ
port_idx_by_name_locked name s =
    if ltb name_len (length name)
    then none
    else find_index (λ i. has_name name (s.ports i)) max_ports 0

unfoldable pub store_name : (ℕ → ℕ) → ℕ → List ℕ → ℕ → ℕ
store_name stored j [] = stored
store_name stored j (c ∷ cs) = store_name (update stored j c) (j + 1) cs

-- The slice of `n` bytes at an address.
unfoldable pub slice : (ℕ → ℕ) → ℕ → ℕ → List ℕ
slice mem a zero = []
slice mem a (suc n) = mem a ∷ slice mem (a + 1) n

-- The port is entered at a free index.
unfoldable pub create_at : List ℕ → ℕ → Ipc → Ret × Ipc
create_at name i s =
    let p = s.ports i in
    (
      Ret.ok s.next_port_id,
      record s {
        next_port_id = (s.next_port_id + 1) % 2 ^ 64;
        ports = update s.ports i (record p {
          used = true;
          id = s.next_port_id;
          name = store_name p.name 0 name;
          head = 0;
          count = 0;
          wake_recv = 0;
          wake_send = 0;
        });
      },
    )

unfoldable pub create_named : List ℕ → Option ℕ → Option ℕ → Ipc → Ret × Ipc
create_named name (some _) slot s = (Ret.err eexist, s)
create_named name none none s = (Ret.err enomem, s)
create_named name none (some i) s = create_at name i s

abbrev pub bad_name : ℕ → ℕ → Bool
bad_name name_ptr len = name_ptr == 0 || (len == 0 || ltb name_len len)

unfoldable pub ipc_create : ℕ → ℕ → Ipc → Ret × Ipc
ipc_create name_ptr len s =
    let name = slice s.bytes name_ptr len in
    let made =
      create_named name (port_idx_by_name_locked name s)
        (find_index (λ i. not (s.ports i).used) max_ports 0) s in
    if bad_name name_ptr len then (Ret.err einval, s) else made

unfoldable pub connected : Option ℕ → Ipc → Ret
connected none s = Ret.err esrch
connected (some i) s = Ret.ok (s.ports i).id

unfoldable pub ipc_connect : ℕ → ℕ → Ipc → Ret
ipc_connect name_ptr len s =
    if bad_name name_ptr len
    then Ret.err einval
    else connected (port_idx_by_name_locked (slice s.bytes name_ptr len) s) s

-- A queued page is given back, and its slot cleared.
unfoldable pub drop_slot : Caller → ℕ → ℕ → Ipc → Ipc
drop_slot env i k s =
    let p = s.ports i in
    let s' = free_page env (p.slots k) s in
    if p.slots k == 0 then s else record s' {
      ports = update s'.ports i (record (s'.ports i) { slots = update (s'.ports i).slots k 0 });
    }

-- The loop over the queued pages, from the `j`-th on, `n` of them.
unfoldable pub drain : Caller → ℕ → ℕ → ℕ → Ipc → Ipc
drain env zero j i s = s
drain env (suc n) j i s =
    drain env n (j + 1) i (drop_slot env i (((s.ports i).head + j) % port_slots) s)

unfoldable pub close_at : Caller → Option ℕ → Ipc → Ret × Ipc
close_at env none s = (Ret.err esrch, s)
close_at env (some i) s =
    let s1 = drain env (s.ports i).count 0 i s in
    let s2 = futex_wake (WakeWord.wake_recv_of i) (2 ^ 32 - 1) s1 in
    let s3 = futex_wake (WakeWord.wake_send_of i) (2 ^ 32 - 1) s2 in
    (Ret.ok 0, record s3 { ports = update s3.ports i empty_port })

unfoldable pub ipc_close : Caller → ℕ → Ipc → Ret × Ipc
ipc_close env port_id s = close_at env (find_index (λ i. has_id port_id (s.ports i)) max_ports 0) s
