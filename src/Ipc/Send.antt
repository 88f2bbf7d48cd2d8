-- ===== src/Ipc/Send.antt =====
-- `ipc_send` of src/ipc.rs. An attempt is what it does while it holds IPC_LOCK; while it is blocked
-- on a futex, other tasks act.
use rynex.Prelude.{
  ℕ, ◌%◌, ◌^◌, Bool, true, false, List, [], ◌∷◌, Option, none, some, ltb, if◌then◌else◌,
}
use rynex.Ipc.State.{
  Ipc, Caller, Ret, WakeWord, port_slots, ipc_msg_max, esrch, eagain, enomem, efault, emsgsize,
  futex_wake,
}
use rynex.Ipc.Pages.{alloc_page, fill_page, enqueue}
use rynex.Ipc.Ports.{port_idx_by_id_locked}

-- A message posted, with the word to wake; a full mailbox, with the word to block on; or an error.
pub data Sent : Type 0 where
  posted : WakeWord → Sent
  full : WakeWord → Sent
  failed : ℕ → Sent

-- A call of `block_on_futex`: its answer, and what the other tasks do until it returns.
pub record Block : Type 0 where
  pub blocked : Bool
  pub meanwhile : Ipc → Ipc

unfoldable pub post_filled : ℕ → ℕ → Bool × Ipc → Sent × Ipc
post_filled idx page (false, s) = (Sent.failed efault, s)
post_filled idx page (true, s) = (Sent.posted (WakeWord.wake_recv_of idx), enqueue idx page s)

-- The header as `ipc_send` writes it: the token keeps the zero of the fresh page.
unfoldable pub send_page : Caller → ℕ → ℕ → ℕ → ℕ → Option ℕ × Ipc → Sent × Ipc
send_page env idx buf len msg_type (none, s) = (Sent.failed enomem, s)
send_page env idx buf len msg_type (some page, s) =
    let header = record (s.headers page) {
      src_pid = env.current_task_id;
      msg_type = msg_type;
      len = len % 2 ^ 32;
    } in
    post_filled idx page (fill_page env false buf len header page s)

unfoldable pub send_at : Caller → Option ℕ → ℕ → ℕ → ℕ → Ipc → Sent × Ipc
send_at env none buf len msg_type s = (Sent.failed esrch, s)
send_at env (some idx) buf len msg_type s =
    let sent = send_page env idx buf len msg_type (alloc_page s) in
    if ltb (s.ports idx).count port_slots then sent else (Sent.full (WakeWord.wake_send_of idx), s)

unfoldable pub send_attempt : Caller → ℕ → ℕ → ℕ → ℕ → Ipc → Sent × Ipc
send_attempt env port_id buf len msg_type s =
    send_at env (port_idx_by_id_locked port_id s) buf len msg_type s

-- The loop: what follows an attempt, with the blocks still to come. `none`: still blocked.
unfoldable pub send_loop : (Ipc → Sent × Ipc) → List Block → Sent × Ipc → Option Ret × Ipc
send_loop attempt blocks (Sent.posted w, s) = (some (Ret.ok 0), futex_wake w 1 s)
send_loop attempt blocks (Sent.failed e, s) = (some (Ret.err e), s)
send_loop attempt [] (Sent.full w, s) = (none, s)
send_loop attempt (b ∷ blocks) (Sent.full w, s) =
    let again = send_loop attempt blocks (attempt (b.meanwhile s)) in
    if b.blocked then again else (some (Ret.err eagain), s)

unfoldable pub ipc_send : Caller → ℕ → ℕ → ℕ → ℕ → List Block → Ipc → Option Ret × Ipc
ipc_send env port_id buf len msg_type blocks s =
    let attempt = send_attempt env port_id buf len msg_type in
    let sent = send_loop attempt blocks (attempt s) in
    if ltb ipc_msg_max len then (some (Ret.err emsgsize), s) else sent
