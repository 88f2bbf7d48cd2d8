-- ===== src/Ipc/Pages.antt =====
-- Message pages of src/ipc.rs: taken from the page allocator, filled, queued, read and given back.
use rynex.Prelude.{
  ℕ, ◌+◌, ◌-◌, ◌%◌, Bool, true, false, Option, none, some, not, ◌&&◌, ◌==◌, ltb, min, if◌then◌else◌,
  update,
}
use rynex.Buddy.State.{Buddy}
use rynex.Buddy.Alloc.{alloc}
use rynex.Buddy.Free.{free}
use rynex.Ipc.State.{
  Ipc, MsgHeader, Caller, Ret, no_header, in_range, copy_bytes, efault, ipc_msg_header, port_slots,
}

-- A page that the allocator gave is filled with zeros.
unfoldable pub got_page : Option ℕ × Buddy → Ipc → Option ℕ × Ipc
got_page (none, b) s = (none, record s { buddy = b })
got_page (some page, b) s = (
  some page,
  record s {
    buddy = b;
    headers = update s.headers page no_header;
    bytes = λ a. if in_range page 4096 a then 0 else s.bytes a;
  },
)

unfoldable pub alloc_page : Ipc → Option ℕ × Ipc
alloc_page s = got_page (alloc 0 s.buddy) s

unfoldable pub free_page : Caller → ℕ → Ipc → Ipc
free_page env page s = record s { buddy = free page 0 env.site s.buddy }

-- The page goes behind the last one in the mailbox.
unfoldable pub enqueue : ℕ → ℕ → Ipc → Ipc
enqueue idx page s =
    let port = s.ports idx in
    let i2 = (port.head + port.count) % port_slots in
    record s {
      ports =
          update s.ports idx
            (record port { slots = update port.slots i2 page; count = port.count + 1 });
    }

-- The page at the head leaves the mailbox; its slot keeps its value.
unfoldable pub dequeue : ℕ → Ipc → Ipc
dequeue idx s =
    let port = s.ports idx in
    record s {
      ports =
          update s.ports idx
            (record port { head = (port.head + 1) % port_slots; count = port.count - 1 });
    }

-- The header is written and the payload copied in. `false` if the payload is in no user memory:
-- then the page is free again.
unfoldable pub fill_page : Caller → Bool → ℕ → ℕ → MsgHeader → ℕ → Ipc → Bool × Ipc
fill_page env kernel_buf buf len header page s =
    let s1 = record s { headers = update s.headers page header } in
    let faulty = not kernel_buf && not (env.user_range_valid buf len false) in
    let s2 = record s1 { bytes = copy_bytes buf (page + ipc_msg_header) len s1.bytes } in
    let freed = free_page env page s1 in
    if ltb 0 len then (if faulty then (false, freed) else (true, s2)) else (true, s1)

-- What a receiver does with the page that it took out of the mailbox: the payload is copied out as
-- far as it fits, and the page is free again.
unfoldable pub deliver_ex : Caller → Bool → ℕ → ℕ → ℕ → Ipc → (Ret × ℕ) × Ipc
deliver_ex env kernel_buf buf max_len page s =
    let header = s.headers page in
    let len = header.len in
    let out_len = min len max_len in
    let copies = ltb 0 out_len && not (buf == 0) in
    let faulty = not kernel_buf && not (env.user_range_valid buf out_len true) in
    let s1 = record s { bytes = copy_bytes (page + ipc_msg_header) buf out_len s.bytes } in
    let freed = free_page env page s in
    let freed1 = free_page env page s1 in
    if copies
    then (if faulty then ((Ret.err efault, 0), freed) else ((Ret.ok len, header.reply_id), freed1))
    else ((Ret.ok len, header.reply_id), freed)

-- The same in user memory, the token left out.
unfoldable pub deliver : Caller → ℕ → ℕ → ℕ → Ipc → Ret × Ipc
deliver env buf max_len page s =
    let ((ret, _), s') = deliver_ex env false buf max_len page s in (ret, s')
