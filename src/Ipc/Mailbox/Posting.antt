-- ===== src/Ipc/Mailbox/Posting.antt =====
-- What an attempt of `ipc_send` and of `ipc_call`, src/ipc.rs, does to the queues.
use rynex.Prelude.{
  ℕ, ◌+◌, ◌%◌, ◌≤◌, ◌<◌, ◌≡◌, refl, ap, sym, subst, ◌∙◌, arith, Bool, true, false, List, [], ◌∷◌,
  ◌++◌, Option, none, some, ◌==◌, if◌then◌else◌, length,
}
use rynex.Prelude.Ring.{length-window, window-push}
use rynex.Buddy.Alloc.{alloc}
use rynex.Buddy.State.{Buddy}
use rynex.Ipc.State.{Ipc, Port, MsgHeader, Caller, port_slots}
use rynex.Ipc.Pages.{got_page, alloc_page, free_page, fill_page, enqueue}
use rynex.Ipc.Ports.{port_idx_by_id_locked}
use rynex.Ipc.Send.{Sent, post_filled, send_page, send_at, send_attempt}
use rynex.Ipc.Mailbox.{IsTable, IsWell, mailbox, queue, port_at, queue-update}

-- The page is the last one of the id's queue; the other queues stay.
pub Appends : ℕ → ℕ → (ℕ → Port) → (ℕ → Port) → Type 0
Appends id page ports ports' =
    (q : List ℕ) × (queue id ports ≡ some q)
    × (length q < port_slots)
    × ((id' : ℕ)
        → queue id' ports' ≡ (if id' == id then some (q ++ page ∷ []) else queue id' ports))

-- What an attempt may do: append a page, nothing at a full mailbox, nothing to the ports on an
-- error.
abbrev pub Posts : ℕ → Ipc → Sent × Ipc → Type 0
Posts id s (Sent.posted w, s') = ((page : ℕ) × Appends id page s.ports s'.ports) × IsWell s'
Posts id s (Sent.full w, s') =
    (s' ≡ s) × ((q : List ℕ) × (queue id s.ports ≡ some q) × (length q ≡ port_slots))
Posts id s (Sent.failed e, s') = (s'.ports ≡ s.ports) × IsWell s'

-- The table of ports and the next id are as before.
abbrev pub SameTable : Ipc → Ipc → Type 0
SameTable s s' = (s'.ports ≡ s.ports) × (s'.next_port_id ≡ s.next_port_id)

pub got_page-SameTable : (r : Option ℕ × Buddy) (s : Ipc) → SameTable s (got_page r s).1
unfolding got_page
got_page-SameTable (none, b) s = (refl, refl)
got_page-SameTable (some page, b) s = (refl, refl)

pub fill_page-SameTable :
    (env : Caller) (k : Bool) (buf len : ℕ) (h : MsgHeader) (page : ℕ) (before s : Ipc)
    → SameTable before s
    → SameTable before (fill_page env k buf len h page s).1
unfolding fill_page free_page
fill_page-SameTable env k buf len h page before s same = ground (arith, same.0, same.1)

enqueued-IsTable :
    (s : Ipc) (i page : ℕ) → IsWell s → (s.ports i).count < port_slots → IsWell (enqueue i page s)
unfolding enqueue
enqueued-IsTable s i page v room = record {
  heads = λ j. ground (arith, v.heads j);
  counts = λ j. ground (arith, v.counts j);
  fresh = λ j lt u. ground (arith, v.fresh j);
  unique = λ j k lt lt' u u' e. ground (arith, v.unique j k);
  blank = λ j n u. ground (arith, v.blank j n, v.blank i n);
}

enqueue-Appends :
    (s : Ipc) (id i page : ℕ)
    → IsWell s
    → port_at id s.ports ≡ some i
    → (s.ports i).count < port_slots
    → Appends id page s.ports (enqueue i page s).ports
unfolding enqueue Appends
enqueue-Appends s id i page v at room = (
  mailbox (s.ports i),
  rw at refl,
  omega (arith, length-window port_slots (s.ports i).slots (s.ports i).head (s.ports i).count),
  λ id'.
      queue-update id id' s.ports s.next_port_id i _ v at refl refl
      ∙ ap (λ q. if id' == id then some q else queue id' s.ports)
          (window-push port_slots (s.ports i).slots (s.ports i).head (s.ports i).count
            (((s.ports i).head + (s.ports i).count) % port_slots) page room refl),
)

pub same-IsWell : (s s' : Ipc) → SameTable s s' → IsWell s → IsWell s'
same-IsWell s s' (ports, next) v =
    subst (λ p. IsTable p s'.next_port_id) (sym ports) (subst (λ n. IsTable s.ports n) (sym next) v)

pub post_filled-Posts :
    (s : Ipc) (id i page : ℕ) (r : Bool × Ipc)
    → IsWell s
    → port_at id s.ports ≡ some i
    → (s.ports i).count < port_slots
    → SameTable s r.1
    → Posts id s (post_filled i page r)
unfolding post_filled
post_filled-Posts s id i page (false, s1) v at room same = (same.0, same-IsWell s s1 same v)
post_filled-Posts s id i page (true, s1) v at room same =
    let well = same-IsWell s s1 same v in
    let at1 : port_at id s1.ports ≡ some i = ap (port_at id) same.0 ∙ at in
    let room1 : (s1.ports i).count < port_slots =
      subst (λ ports. (ports i).count < port_slots) (sym same.0) room in
    (
      (
        page,
        subst (λ ports. Appends id page ports (enqueue i page s1).ports) same.0
            (enqueue-Appends s1 id i page well at1 room1),
      ),
      enqueued-IsTable s1 i page well room1,
    )

send_page-Posts :
    (env : Caller) (id i buf len t : ℕ) (s : Ipc) (r : Option ℕ × Ipc)
    → IsWell s
    → port_at id s.ports ≡ some i
    → (s.ports i).count < port_slots
    → SameTable s r.1
    → Posts id s (send_page env i buf len t r)
unfolding send_page
send_page-Posts env id i buf len t s (none, s1) v at room same = (same.0, same-IsWell s s1 same v)
send_page-Posts env id i buf len t s (some page, s1) v at room same =
    post_filled-Posts s id i page _ v at room
      (fill_page-SameTable env false buf len _ page s s1 same)

pub full_length :
    (s : Ipc) (id i : ℕ)
    → IsWell s
    → port_at id s.ports ≡ some i
    → port_slots ≤ (s.ports i).count
    → (q : List ℕ) × (queue id s.ports ≡ some q) × (length q ≡ port_slots)
full_length s id i v at le = (
  mailbox (s.ports i),
  rw at refl,
  omega (
    arith,
    length-window port_slots (s.ports i).slots (s.ports i).head (s.ports i).count,
    v.counts i,
  ),
)

send_at-Posts :
    (env : Caller) (id buf len t : ℕ) (s : Ipc) (o : Option ℕ)
    → IsWell s
    → port_at id s.ports ≡ o
    → Posts id s (send_at env o buf len t s)
unfolding send_at alloc_page
send_at-Posts env id buf len t s none v at = (refl, v)
send_at-Posts env id buf len t s (some i) v at = ground (
  arith,
  send_page-Posts env id i buf len t s (alloc_page s) v at,
  got_page-SameTable (alloc 0 s.buddy) s,
  full_length s id i v at,
)

-- An attempt of `ipc_send` at a well-formed table either appends one page to the queue of the port
-- and to no other queue, or finds 64 pages in it and changes nothing, or fails and leaves every
-- port; the table stays well formed.
pub send_attempt-Posts :
    (env : Caller) (id buf len t : ℕ) (s : Ipc)
    → IsWell s
    → Posts id s (send_attempt env id buf len t s)
unfolding send_attempt port_idx_by_id_locked
send_attempt-Posts env id buf len t s v =
    send_at-Posts env id buf len t s (port_at id s.ports) v refl
