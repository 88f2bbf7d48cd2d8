-- ===== src/Ipc/Call.antt =====
-- `ipc_call` of src/ipc.rs: a request posted under a fresh token, and the wait for its reply.
use rynex.Prelude.{
  ℕ, ◌%◌, ◌^◌, Bool, List, [], ◌∷◌, Option, none, some, not, ◌&&◌, ◌==◌, ltb, min, if◌then◌else◌,
}
use rynex.Ipc.State.{
  Ipc, Caller, Ret, MsgHeader, WakeWord, port_slots, max_replies, ipc_msg_max, einval, esrch,
  eagain, enomem, emsgsize, copy_bytes, futex_wake,
}
use rynex.Ipc.Pages.{alloc_page, fill_page}
use rynex.Ipc.Ports.{port_idx_by_id_locked}
use rynex.Ipc.Send.{Sent, Block, post_filled}
use rynex.Ipc.Reply.{reply_alloc_locked, reply_free_locked}

unfoldable pub call_page : Caller → Bool → ℕ → ℕ → ℕ → ℕ → Option ℕ × Ipc → Sent × Ipc
call_page env kernel_buf reply_id idx buf len (none, s) = (Sent.failed enomem, s)
call_page env kernel_buf reply_id idx buf len (some page, s) =
    let header : MsgHeader = record {
      src_pid = env.current_task_id;
      reply_id = reply_id;
      msg_type = 0;
      len = len % 2 ^ 32;
    } in
    post_filled idx page (fill_page env kernel_buf buf len header page s)

unfoldable pub call_at : Caller → Bool → ℕ → Option ℕ → ℕ → ℕ → Ipc → Sent × Ipc
call_at env kernel_buf reply_id none buf len s = (Sent.failed esrch, s)
call_at env kernel_buf reply_id (some idx) buf len s =
    let sent = call_page env kernel_buf reply_id idx buf len (alloc_page s) in
    if ltb (s.ports idx).count port_slots then sent else (Sent.full (WakeWord.wake_send_of idx), s)

-- Every error of an attempt frees the reply slot.
unfoldable pub call_failed : Caller → ℕ → Sent × Ipc → Sent × Ipc
call_failed env reply_id (Sent.failed e, s) = (Sent.failed e, reply_free_locked env reply_id s)
call_failed env reply_id (Sent.full w, s) = (Sent.full w, s)
call_failed env reply_id (Sent.posted w, s) = (Sent.posted w, s)

unfoldable pub call_attempt : Caller → Bool → ℕ → ℕ → ℕ → ℕ → Ipc → Sent × Ipc
call_attempt env kernel_buf reply_id port_id buf len s =
    call_failed env reply_id
      (call_at env kernel_buf reply_id (port_idx_by_id_locked port_id s) buf len s)

-- The reply is copied out as far as it fits, and the slot is free again.
unfoldable pub finish_call : Caller → ℕ → ℕ → ℕ → Ipc → Ret × Ipc
finish_call env reply_id out out_len s =
    let r = s.replies reply_id in
    let rlen = min r.len out_len in
    let copied = record s { bytes = copy_bytes r.page out rlen s.bytes } in
    let s' = if ltb 0 rlen && not (out == 0) then copied else s in
    (Ret.ok r.len, reply_free_locked env reply_id s')

-- The wait for the reply, with the blocks still to come. `none`: still blocked.
unfoldable pub reply_loop : Caller → ℕ → ℕ → ℕ → List Block → Ipc → Option Ret × Ipc
reply_loop env reply_id out out_len [] s =
    let (ret, s') = finish_call env reply_id out out_len s in
    if not (ltb reply_id max_replies && (s.replies reply_id).used)
    then (some (Ret.err esrch), reply_free_locked env reply_id s)
    else if (s.replies reply_id).done
    then (some ret, s')
    else (none, s)
reply_loop env reply_id out out_len (b ∷ blocks) s =
    let (ret, s') = finish_call env reply_id out out_len s in
    let again = reply_loop env reply_id out out_len blocks (b.meanwhile s) in
    let gave_up : Option Ret × Ipc = (some (Ret.err eagain), reply_free_locked env reply_id s) in
    if not (ltb reply_id max_replies && (s.replies reply_id).used)
    then (some (Ret.err esrch), reply_free_locked env reply_id s)
    else if (s.replies reply_id).done
    then (some ret, s')
    else if b.blocked
    then again
    else gave_up

-- The loop that posts, behind an attempt; then the wait.
unfoldable pub call_loop :
    Caller → (Ipc → Sent × Ipc) → ℕ → ℕ → ℕ → List Block → Sent × Ipc → Option Ret × Ipc
call_loop env attempt reply_id out out_len blocks (Sent.posted w, s) =
    reply_loop env reply_id out out_len blocks (futex_wake w 1 s)
call_loop env attempt reply_id out out_len blocks (Sent.failed e, s) = (some (Ret.err e), s)
call_loop env attempt reply_id out out_len [] (Sent.full w, s) = (none, s)
call_loop env attempt reply_id out out_len (b ∷ blocks) (Sent.full w, s) =
    let again = call_loop env attempt reply_id out out_len blocks (attempt (b.meanwhile s)) in
    if b.blocked then again else (some (Ret.err eagain), reply_free_locked env reply_id s)

unfoldable pub call_with :
    Caller → Bool → ℕ → ℕ → ℕ → ℕ → ℕ → List Block → Option ℕ × Ipc → Option Ret × Ipc
call_with env kernel_buf port_id buf len out out_len blocks (none, s) = (some (Ret.err enomem), s)
call_with env kernel_buf port_id buf len out out_len blocks (some reply_id, s) =
    let attempt = call_attempt env kernel_buf reply_id port_id buf len in
    call_loop env attempt reply_id out out_len blocks (attempt s)

unfoldable pub ipc_call_impl :
    Caller → Bool → ℕ → ℕ → ℕ → ℕ → ℕ → List Block → Ipc → Option Ret × Ipc
ipc_call_impl env kernel_buf port_id buf len out out_len blocks s =
    let called =
      call_with env kernel_buf port_id buf len out out_len blocks (reply_alloc_locked env s) in
    if ltb ipc_msg_max len then (some (Ret.err emsgsize), s) else called

-- The old calls for shared memory do nothing.
unfoldable pub shm_setup : Caller → ℕ → ℕ → Ret
shm_setup env partner_id vaddr =
    if partner_id == 0
    then Ret.err einval
    else if env.current_task_id == 0
    then Ret.err einval
    else Ret.ok 0
