-- ===== src/Ipc/Answer.antt =====
-- Reply slots of src/ipc.rs: their tokens, the one answer that counts, and the wait of `ipc_call`.
use rynex.Prelude.{
  ℕ, ◌-◌, ◌<◌, ◌≡◌, refl, ap, arith, Bool, true, false, not, List, [], ◌∷◌, Option, none, some,
}
use rynex.Prelude.Find.{find_index, Finds, find_index-Finds}
use rynex.Buddy.State.{Buddy}
use rynex.Buddy.Alloc.{alloc}
use rynex.Ipc.State.{Ipc, Caller, Ret, max_replies}
use rynex.Ipc.Pages.{got_page, alloc_page, free_page}
use rynex.Ipc.Send.{Sent, Block}
use rynex.Ipc.Reply.{enter_reply, reply_with, reply_alloc_locked, reply_free_locked}
use rynex.Ipc.Call.{call_failed, call_attempt, finish_call, reply_loop, call_loop, call_with}

-- A token given is one of 1, ..., 63, for a slot that was free and waits for an answer.
abbrev pub IsToken : Ipc → Option ℕ × Ipc → Type 0
IsToken s (none, s') = s'.replies ≡ s.replies
IsToken s (some id, s') =
    (0 < id)
    × (id < max_replies)
    × ((s.replies id).used ≡ false)
    × ((s'.replies id).used ≡ true)
    × ((s'.replies id).done ≡ false)

got_page-replies : (r : Option ℕ × Buddy) (s : Ipc) → (got_page r s).1.replies ≡ s.replies
unfolding got_page
got_page-replies (none, b) s = refl
got_page-replies (some page, b) s = refl

enter_reply-IsToken :
    (env : Caller) (page : ℕ) (before s : Ipc) (o : Option ℕ)
    → s.replies ≡ before.replies
    → Finds (λ i. not (s.replies i).used) (max_replies - 1) 1 o
    → IsToken before (enter_reply env page o s)
unfolding enter_reply free_page
enter_reply-IsToken env page before s none e f = e
enter_reply-IsToken env page before s (some i) e (passes, above, below) =
    ground (arith, passes, ap (λ replies. (replies i).used) e)

reply_with-IsToken :
    (env : Caller) (before : Ipc) (r : Option ℕ × Ipc)
    → r.1.replies ≡ before.replies
    → IsToken before (reply_with env r)
unfolding reply_with
reply_with-IsToken env before (none, s) e = e
reply_with-IsToken env before (some page, s) e =
    enter_reply-IsToken env page before s
      (find_index (λ i. not (s.replies i).used) (max_replies - 1) 1) e
      (find_index-Finds (λ i. not (s.replies i).used) (max_replies - 1) 1)

-- The token of a call is never 0, which means that no reply is expected; it names one of 63 slots
-- that was free, and that waits for an answer from then on. Without a token no slot changes.
pub reply_alloc_locked-IsToken : (env : Caller) (s : Ipc) → IsToken s (reply_alloc_locked env s)
unfolding reply_alloc_locked alloc_page
reply_alloc_locked-IsToken env s =
    reply_with-IsToken env s (alloc_page s) (got_page-replies (alloc 0 s.buddy) s)

freed :
    (env : Caller) (id : ℕ) (s : Ipc)
    → id < max_replies
    → ((reply_free_locked env id s).replies id).used ≡ false
unfolding reply_free_locked free_page
freed env id s lt = ground arith

finished :
    (env : Caller) (id out out_len : ℕ) (s : Ipc)
    → id < max_replies
    → ((finish_call env id out out_len s).1.replies id).used ≡ false
unfolding finish_call reply_free_locked free_page
finished env id out out_len s lt = ground arith

-- A call that has not ended, or whose slot is free again.
abbrev pub Ends : ℕ → Option Ret × Ipc → Type 0
Ends id (none, s) = true ≡ true
Ends id (some r, s) = (s.replies id).used ≡ false

reply_loop-Ends :
    (env : Caller) (id out out_len : ℕ) (blocks : List Block) (s : Ipc)
    → id < max_replies
    → Ends id (reply_loop env id out out_len blocks s)
unfolding reply_loop
reply_loop-Ends env id out out_len [] s lt =
    ground (arith, freed env id s lt, finished env id out out_len s lt)
reply_loop-Ends env id out out_len (b ∷ blocks) s lt = ground (
  arith,
  freed env id s lt,
  finished env id out out_len s lt,
  reply_loop-Ends env id out out_len blocks (b.meanwhile s) lt,
)

-- An attempt that failed has freed the slot.
abbrev Failed : ℕ → Sent × Ipc → Type 0
Failed id (Sent.failed e, s) = (s.replies id).used ≡ false
Failed id (_, s) = true ≡ true

call_failed-Failed :
    (env : Caller) (id : ℕ) (r : Sent × Ipc) → id < max_replies → Failed id (call_failed env id r)
unfolding call_failed
call_failed-Failed env id (Sent.failed e, s) lt = freed env id s lt
call_failed-Failed env id (Sent.full w, s) lt = refl
call_failed-Failed env id (Sent.posted w, s) lt = refl

call_loop-Ends :
    (env : Caller) (attempt : Ipc → Sent × Ipc) (id out out_len : ℕ) (blocks : List Block)
    (r : Sent × Ipc)
    → id < max_replies
    → ((s : Ipc) → Failed id (attempt s))
    → Failed id r
    → Ends id (call_loop env attempt id out out_len blocks r)
unfolding call_loop
call_loop-Ends env attempt id out out_len blocks (Sent.posted w, s) lt each f =
    reply_loop-Ends env id out out_len blocks _ lt
call_loop-Ends env attempt id out out_len blocks (Sent.failed e, s) lt each f = f
call_loop-Ends env attempt id out out_len [] (Sent.full w, s) lt each f = refl
call_loop-Ends env attempt id out out_len (b ∷ blocks) (Sent.full w, s) lt each f = ground (
  arith,
  freed env id s lt,
  call_loop-Ends env attempt id out out_len blocks (attempt (b.meanwhile s)) lt each
      (each (b.meanwhile s)),
)

-- Whatever the other tasks do while it blocks, a call under a token in range that ends, with a reply
-- or with an error on any path, leaves the slot of its token free.
pub call_with-Ends :
    (env : Caller) (k : Bool) (port_id buf len out out_len : ℕ) (blocks : List Block) (id : ℕ)
    (s : Ipc)
    → id < max_replies
    → Ends id (call_with env k port_id buf len out out_len blocks (some id, s))
unfolding call_with call_attempt
call_with-Ends env k port_id buf len out out_len blocks id s lt =
    call_loop-Ends env (call_attempt env k id port_id buf len) id out out_len blocks
      (call_attempt env k id port_id buf len s) lt (λ t. call_failed-Failed env id _ lt)
      (call_failed-Failed env id _ lt)
