-- ===== src/Ipc/Reply.antt =====
-- Reply slots of src/ipc.rs, and `ipc_reply`.
use rynex.Prelude.{
  ℕ, ◌-◌, ◌%◌, ◌^◌, true, false, Option, none, some, not, ◌&&◌, ◌||◌, ◌==◌, ltb, leb, min,
  if◌then◌else◌, update,
}
use rynex.Prelude.Find.{find_index}
use rynex.Ipc.State.{
  Ipc, Caller, Ret, WakeWord, max_replies, ipc_msg_max, esrch, copy_bytes, futex_wake,
}
use rynex.Ipc.Pages.{alloc_page, free_page}

unfoldable pub enter_reply : Caller → ℕ → Option ℕ → Ipc → Option ℕ × Ipc
enter_reply env page none s = (none, free_page env page s)
enter_reply env page (some i) s = (
  some i,
  record s {
    replies =
        update s.replies i (record { used = true; page = page; len = 0; done = false; wake = 0 });
  },
)

-- Slot 0 is never given.
unfoldable pub reply_with : Caller → Option ℕ × Ipc → Option ℕ × Ipc
reply_with env (none, s) = (none, s)
reply_with env (some page, s) =
    enter_reply env page (find_index (λ i. not (s.replies i).used) (max_replies - 1) 1) s

unfoldable pub reply_alloc_locked : Caller → Ipc → Option ℕ × Ipc
reply_alloc_locked env s = reply_with env (alloc_page s)

unfoldable pub reply_free_locked : Caller → ℕ → Ipc → Ipc
reply_free_locked env id s =
    let r = s.replies id in
    let s' = if r.page == 0 then s else free_page env r.page s in
    if ltb id max_replies && r.used
    then record s' { replies = update s'.replies id (record r { used = false; page = 0 }) }
    else s

-- The caller's answer is written into the slot's page, once.
unfoldable pub ipc_reply : ℕ → ℕ → ℕ → Ipc → Ret × Ipc
ipc_reply id buf len s =
    let r = s.replies id in
    let n = min len ipc_msg_max in
    let copies = ltb 0 n && not (buf == 0) in
    let s1 = if copies then record s { bytes = copy_bytes buf r.page n s.bytes } else s in
    let s2 = record s1 {
      replies = update s1.replies id (record r { len = n % 2 ^ 32; done = true });
    } in
    if leb max_replies id || not r.used
    then (Ret.err esrch, s)
    else if r.done
    then (Ret.ok 0, s)
    else (Ret.ok n, futex_wake (WakeWord.wake_reply_of id) 1 s2)
