-- ===== src/Ipc/System.antt =====
-- The calls of src/ipc.rs of all tasks together: each part that holds IPC_LOCK is one step, and the
-- steps of different tasks follow one another in any order.
use rynex.Prelude.{ℕ, ◌+◌, ◌^◌, ◌<◌, ◌≡◌, refl, sym, subst, ◌∙◌, arith, Bool, Option, none, some}
use rynex.Buddy.State.{Buddy}
use rynex.Buddy.Alloc.{alloc}
use rynex.Ipc.State.{Ipc, Caller, Ret, WakeWord, boot, futex_wake, port_slots}
use rynex.Ipc.Pages.{alloc_page, free_page, deliver_ex}
use rynex.Ipc.Ports.{port_idx_by_id_locked, ipc_create, ipc_close}
use rynex.Ipc.Send.{Sent, send_attempt}
use rynex.Ipc.Recv.{Taken, take_attempt}
use rynex.Ipc.Reply.{reply_with, enter_reply, reply_alloc_locked, reply_free_locked, ipc_reply}
use rynex.Ipc.Call.{call_page, call_at, call_failed, call_attempt, finish_call}
use rynex.Ipc.Mailbox.{IsWell, port_at}
use rynex.Ipc.Mailbox.Posting.{
  Posts, SameTable, same-IsWell, got_page-SameTable, fill_page-SameTable, post_filled-Posts,
  full_length, send_attempt-Posts,
}
use rynex.Ipc.Mailbox.Taking.{Takes, take_attempt-Takes}
use rynex.Ipc.Mailbox.Making.{Creates, ipc_create-Creates}
use rynex.Ipc.Mailbox.Closing.{Closes, ipc_close-Closes}

pub data Step (s : Ipc) : Ipc → Type 0 where
  creates : (p len : ℕ) → s.next_port_id + 1 < 2 ^ 64 → Step s (ipc_create p len s).1
  closes : (env : Caller) (id : ℕ) → Step s (ipc_close env id s).1
  sends : (env : Caller) (id buf len t : ℕ) → Step s (send_attempt env id buf len t s).1
  calls :
      (env : Caller) (k : Bool) (token id buf len : ℕ)
      → Step s (call_attempt env k token id buf len s).1
  takes : (id : ℕ) → Step s (take_attempt id s).1
  delivers :
      (env : Caller) (k : Bool) (buf max page : ℕ) → Step s (deliver_ex env k buf max page s).1
  opens : (env : Caller) → Step s (reply_alloc_locked env s).1
  answers : (id buf len : ℕ) → Step s (ipc_reply id buf len s).1
  finishes : (env : Caller) (id out len : ℕ) → Step s (finish_call env id out len s).1
  frees : (env : Caller) (id : ℕ) → Step s (reply_free_locked env id s)
  wakes : (w : WakeWord) (n : ℕ) → Step s (futex_wake w n s)

pub data Reach (b : Buddy) (mem : ℕ → ℕ) : Ipc → Type 0 where
  booted : Reach b mem (boot b mem)
  later : {s t : Ipc} → Reach b mem s → Step s t → Reach b mem t

boot-IsWell : (b : Buddy) (mem : ℕ → ℕ) → IsWell (boot b mem)
boot-IsWell b mem = record {
  heads = λ i. omega arith;
  counts = λ i. omega arith;
  fresh = λ i lt u. ground arith;
  unique = λ i j lt lt' u u' e. ground arith;
  blank = λ i n u. refl;
}

Posts-IsWell : (id : ℕ) (s : Ipc) (r : Sent × Ipc) → IsWell s → Posts id s r → IsWell r.1
Posts-IsWell id s (Sent.posted w, t) v p = p.1
Posts-IsWell id s (Sent.full w, t) v p = subst IsWell (sym p.0) v
Posts-IsWell id s (Sent.failed e, t) v p = p.1

Takes-IsWell : (id : ℕ) (s : Ipc) (r : Taken × Ipc) → IsWell s → Takes id s r → IsWell r.1
Takes-IsWell id s (Taken.got page w, t) v p = p.1
Takes-IsWell id s (Taken.nothing w, t) v p = subst IsWell (sym p.0) v
Takes-IsWell id s (Taken.gone, t) v p = subst IsWell (sym p.0) v

Creates-IsWell : (p len : ℕ) (s : Ipc) (r : Ret × Ipc) → IsWell s → Creates p len s r → IsWell r.1
Creates-IsWell p len s (Ret.err e, t) v c = subst IsWell (sym c) v
Creates-IsWell p len s (Ret.ok n, t) v (_, _, _, w) = w

Closes-IsWell :
    (env : Caller) (id : ℕ) (s : Ipc) (r : Ret × Ipc) → IsWell s → Closes env id s r → IsWell r.1
Closes-IsWell env id s (Ret.err e, t) v c = subst IsWell (sym c.0) v
Closes-IsWell env id s (Ret.ok n, t) v (_, _, w) = w

reply_free-SameTable : (env : Caller) (id : ℕ) (s : Ipc) → SameTable s (reply_free_locked env id s)
unfolding reply_free_locked free_page
reply_free-SameTable env id s = ground arith

-- An attempt of `ipc_call` treats the queues as one of `ipc_send` does.
call_page-Posts :
    (env : Caller) (k : Bool) (token id i buf len : ℕ) (s : Ipc) (r : Option ℕ × Ipc)
    → IsWell s
    → port_at id s.ports ≡ some i
    → (s.ports i).count < port_slots
    → SameTable s r.1
    → Posts id s (call_page env k token i buf len r)
unfolding call_page
call_page-Posts env k token id i buf len s (none, t) v at room same =
    (same.0, same-IsWell s t same v)
call_page-Posts env k token id i buf len s (some page, t) v at room same =
    post_filled-Posts s id i page _ v at room (fill_page-SameTable env k buf len _ page s t same)

call_at-Posts :
    (env : Caller) (k : Bool) (token id buf len : ℕ) (s : Ipc) (o : Option ℕ)
    → IsWell s
    → port_at id s.ports ≡ o
    → Posts id s (call_at env k token o buf len s)
unfolding call_at alloc_page
call_at-Posts env k token id buf len s none v at = (refl, v)
call_at-Posts env k token id buf len s (some i) v at = ground (
  arith,
  call_page-Posts env k token id i buf len s (alloc_page s) v at,
  got_page-SameTable (alloc 0 s.buddy) s,
  full_length s id i v at,
)

call_failed-Posts :
    (env : Caller) (token id : ℕ) (s : Ipc) (r : Sent × Ipc)
    → Posts id s r
    → Posts id s (call_failed env token r)
unfolding call_failed
call_failed-Posts env token id s (Sent.posted w, t) p = p
call_failed-Posts env token id s (Sent.full w, t) p = p
call_failed-Posts env token id s (Sent.failed e, t) p =
    let same = reply_free-SameTable env token t in
    (same.0 ∙ p.0, same-IsWell t (reply_free_locked env token t) same p.1)

call_attempt-Posts :
    (env : Caller) (k : Bool) (token id buf len : ℕ) (s : Ipc)
    → IsWell s
    → Posts id s (call_attempt env k token id buf len s)
unfolding call_attempt port_idx_by_id_locked
call_attempt-Posts env k token id buf len s v =
    call_failed-Posts env token id s (call_at env k token (port_at id s.ports) buf len s)
      (call_at-Posts env k token id buf len s (port_at id s.ports) v refl)

deliver_ex-SameTable :
    (env : Caller) (k : Bool) (buf max page : ℕ) (s : Ipc)
    → SameTable s (deliver_ex env k buf max page s).1
unfolding deliver_ex free_page
deliver_ex-SameTable env k buf max page s = ground arith

ipc_reply-SameTable : (id buf len : ℕ) (s : Ipc) → SameTable s (ipc_reply id buf len s).1
unfolding ipc_reply
ipc_reply-SameTable id buf len s = ground arith

finish_call-SameTable :
    (env : Caller) (id out len : ℕ) (s : Ipc) → SameTable s (finish_call env id out len s).1
unfolding finish_call reply_free_locked free_page
finish_call-SameTable env id out len s = ground arith

enter_reply-SameTable :
    (env : Caller) (page : ℕ) (o : Option ℕ) (before s : Ipc)
    → SameTable before s
    → SameTable before (enter_reply env page o s).1
unfolding enter_reply free_page
enter_reply-SameTable env page none before s same = same
enter_reply-SameTable env page (some i) before s same = same

reply_with-SameTable :
    (env : Caller) (before : Ipc) (r : Option ℕ × Ipc)
    → SameTable before r.1
    → SameTable before (reply_with env r).1
unfolding reply_with
reply_with-SameTable env before (none, s) same = same
reply_with-SameTable env before (some page, s) same = enter_reply-SameTable env page _ before s same

reply_alloc-SameTable : (env : Caller) (s : Ipc) → SameTable s (reply_alloc_locked env s).1
unfolding reply_alloc_locked alloc_page
reply_alloc-SameTable env s =
    reply_with-SameTable env s (alloc_page s) (got_page-SameTable (alloc 0 s.buddy) s)

Step-IsWell : {s t : Ipc} → Step s t → IsWell s → IsWell t
Step-IsWell {s} (creates p len room) v =
    Creates-IsWell p len s (ipc_create p len s) v (ipc_create-Creates p len s v room)
Step-IsWell {s} (closes env id) v =
    Closes-IsWell env id s (ipc_close env id s) v (ipc_close-Closes env id s v)
Step-IsWell {s} (sends env id buf len t) v =
    Posts-IsWell id s (send_attempt env id buf len t s) v (send_attempt-Posts env id buf len t s v)
Step-IsWell {s} (calls env k token id buf len) v =
    Posts-IsWell id s (call_attempt env k token id buf len s) v
      (call_attempt-Posts env k token id buf len s v)
Step-IsWell {s} (takes id) v = Takes-IsWell id s (take_attempt id s) v (take_attempt-Takes id s v)
Step-IsWell {s} (delivers env k buf max page) v =
    same-IsWell s (deliver_ex env k buf max page s).1 (deliver_ex-SameTable env k buf max page s) v
Step-IsWell {s} (opens env) v =
    same-IsWell s (reply_alloc_locked env s).1 (reply_alloc-SameTable env s) v
Step-IsWell {s} (answers id buf len) v =
    same-IsWell s (ipc_reply id buf len s).1 (ipc_reply-SameTable id buf len s) v
Step-IsWell {s} (finishes env id out len) v =
    same-IsWell s (finish_call env id out len s).1 (finish_call-SameTable env id out len s) v
Step-IsWell {s} (frees env id) v =
    same-IsWell s (reply_free_locked env id s) (reply_free-SameTable env id s) v
Step-IsWell {s} (wakes w n) v = v

-- In every state that the calls reach from boot, in any interleaving, the port table is well formed:
-- no two ports in use have one id, every id was given already, and no mailbox holds more than 64
-- pages or has its head out of range.
pub Reach-IsWell : (b : Buddy) (mem : ℕ → ℕ) (s : Ipc) → Reach b mem s → IsWell s
Reach-IsWell b mem s booted = boot-IsWell b mem
Reach-IsWell b mem s (later {s = u} r step) = Step-IsWell step (Reach-IsWell b mem u r)
