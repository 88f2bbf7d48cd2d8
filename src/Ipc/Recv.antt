-- ===== src/Ipc/Recv.antt =====
-- The receiving calls of src/ipc.rs: `ipc_recv`, `ipc_recv_ex`, `ipc_peek`, `ipc_peek_ex`.
use rynex.Prelude.{
  ℕ, ◌+◌, ◌-◌, ◌*◌, ◌%◌, ◌^◌, Bool, false, List, [], ◌∷◌, Option, none, some, ltb, if◌then◌else◌,
}
use rynex.Ipc.State.{Ipc, Caller, Ret, WakeWord, esrch, eagain, futex_wake}
use rynex.Ipc.Pages.{dequeue, deliver_ex}
use rynex.Ipc.Ports.{port_idx_by_id_locked}
use rynex.Ipc.Send.{Block}

-- A page taken, with the word to wake; an empty mailbox, with the word to block on; or no port.
pub data Taken : Type 0 where
  got : ℕ → WakeWord → Taken
  nothing : WakeWord → Taken
  gone : Taken

unfoldable pub take_at : Option ℕ → Ipc → Taken × Ipc
take_at none s = (Taken.gone, s)
take_at (some idx) s =
    let port = s.ports idx in
    if ltb 0 port.count
    then (Taken.got (port.slots port.head) (WakeWord.wake_send_of idx), dequeue idx s)
    else (Taken.nothing (WakeWord.wake_recv_of idx), s)

unfoldable pub take_attempt : ℕ → Ipc → Taken × Ipc
take_attempt port_id s = take_at (port_idx_by_id_locked port_id s) s

-- The loop of `ipc_recv_ex_impl`, behind an attempt. `none`: still blocked.
unfoldable pub recv_loop :
    (ℕ → Ipc → (Ret × ℕ) × Ipc) → ℕ → List Block → Taken × Ipc → Option (Ret × ℕ) × Ipc
recv_loop finish port_id blocks (Taken.gone, s) = (some (Ret.err esrch, 0), s)
recv_loop finish port_id blocks (Taken.got page w, s) =
    let (answer, s') = finish page (futex_wake w 1 s) in (some answer, s')
recv_loop finish port_id [] (Taken.nothing w, s) = (none, s)
recv_loop finish port_id (b ∷ blocks) (Taken.nothing w, s) =
    let again = recv_loop finish port_id blocks (take_attempt port_id (b.meanwhile s)) in
    if b.blocked then again else (some (Ret.err eagain, 0), s)

unfoldable pub ipc_recv_ex_impl :
    Caller → Bool → ℕ → ℕ → ℕ → List Block → Ipc → Option (Ret × ℕ) × Ipc
ipc_recv_ex_impl env kernel_buf port_id buf max_len blocks s =
    recv_loop (deliver_ex env kernel_buf buf max_len) port_id blocks (take_attempt port_id s)

-- `ipc_recv` is the same loop without the token.
unfoldable pub without_token : Option (Ret × ℕ) × Ipc → Option Ret × Ipc
without_token (none, s) = (none, s)
without_token (some (ret, _), s) = (some ret, s)

unfoldable pub ipc_recv : Caller → ℕ → ℕ → ℕ → List Block → Ipc → Option Ret × Ipc
ipc_recv env port_id buf max_len blocks s =
    without_token
      (recv_loop (deliver_ex env false buf max_len) port_id blocks (take_attempt port_id s))

-- The system call's packing: the token in the high half, the length in the low half.
unfoldable pub pack : Ret × ℕ → Ret
pack (Ret.err e, token) = Ret.err e
pack (Ret.ok len, token) =
    let low = if ltb (2 ^ 32 - 1) len then 2 ^ 32 - 1 else len in
    Ret.ok ((token % 2 ^ 32) * 2 ^ 32 + low)

-- The calls that do not block: an empty mailbox answers 0.
unfoldable pub peeked : (ℕ → Ipc → (Ret × ℕ) × Ipc) → Taken × Ipc → (Ret × ℕ) × Ipc
peeked finish (Taken.gone, s) = ((Ret.err esrch, 0), s)
peeked finish (Taken.nothing w, s) = ((Ret.ok 0, 0), s)
peeked finish (Taken.got page w, s) = finish page (futex_wake w 1 s)

unfoldable pub ipc_peek_ex_impl : Caller → Bool → ℕ → ℕ → ℕ → Ipc → (Ret × ℕ) × Ipc
ipc_peek_ex_impl env kernel_buf port_id buf max_len s =
    peeked (deliver_ex env kernel_buf buf max_len) (take_attempt port_id s)

unfoldable pub ipc_peek : Caller → ℕ → ℕ → ℕ → Ipc → Ret × Ipc
ipc_peek env port_id buf max_len s =
    let ((ret, _), s') = peeked (deliver_ex env false buf max_len) (take_attempt port_id s) in
    (ret, s')
