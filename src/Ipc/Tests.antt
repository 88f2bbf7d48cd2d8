-- ===== src/Ipc/Tests.antt =====
-- The theorems on src/ipc.rs at small states: one port, named "a".
use rynex.Prelude.{ℕ, ◌≡◌, refl, arith, true, false, [], ◌∷◌, some, update}
use rynex.Prelude.Find.{find_index}
use rynex.Buddy.State.{Buddy, init}
use rynex.Ipc.State.{Ipc, Caller, MsgHeader, Ret, boot, eagain, port_slots}
use rynex.Ipc.Ports.{
  ipc_create, ipc_close, port_idx_by_id_locked, has_id, port_idx_by_name_locked, has_name,
  create_named, create_at, slice,
}
use rynex.Ipc.Send.{send_attempt, Block}
use rynex.Ipc.Recv.{take_attempt}
use rynex.Ipc.Call.{call_with, call_loop, call_attempt, call_failed, call_at}
use rynex.Ipc.Mailbox.{IsWell}
use rynex.Ipc.Mailbox.Posting.{Posts, send_attempt-Posts}
use rynex.Ipc.Mailbox.Taking.{Takes, take_attempt-Takes}
use rynex.Ipc.Mailbox.Making.{Creates, ipc_create-Creates}
use rynex.Ipc.Mailbox.Closing.{Closes, ipc_close-Closes}
use rynex.Ipc.Answer.{call_with-Ends}
use rynex.Ipc.System.{Reach, Step, Reach-IsWell}

abbrev task : Caller
task = record { current_task_id = 7; user_range_valid = λ _ _ _. true; site = (5, 6) }

-- Sixteen free pages from 1 MiB on, and the name "a" at address 0x50.
abbrev pages : Buddy
pages = record (init 0x100000 16) { free_lists = update (λ _. []) 4 (0x100000 ∷ []) }

abbrev memory : ℕ → ℕ
memory = update (λ _. 0) 0x50 97

abbrev fresh : Ipc
fresh = boot pages memory

abbrev one_port : Ipc
one_port = (ipc_create 0x50 1 fresh).1

-- A port with one message.
abbrev one_message : Ipc
one_message = (send_attempt task 1 0x50 1 3 one_port).1

port_made : (ipc_create 0x50 1 fresh).0 ≡ Ret.ok 1
unfolding ipc_create port_idx_by_name_locked find_index has_name create_named create_at slice
port_made = refl

one_message-Reach : Reach pages memory one_message
one_message-Reach =
    Reach.later (Reach.later Reach.booted (Step.creates 0x50 1 (omega arith)))
      (Step.sends task 1 0x50 1 3)

Reach-IsWell_example : IsWell one_message
Reach-IsWell_example = Reach-IsWell pages memory one_message one_message-Reach

fresh-IsWell : IsWell fresh
fresh-IsWell = Reach-IsWell pages memory fresh Reach.booted

one_message-IsWell : IsWell one_message
one_message-IsWell = Reach-IsWell pages memory one_message one_message-Reach

send_attempt-Posts_example : Posts 1 one_message (send_attempt task 1 0x50 1 4 one_message)
send_attempt-Posts_example = send_attempt-Posts task 1 0x50 1 4 one_message one_message-IsWell

take_attempt-Takes_example : Takes 1 one_message (take_attempt 1 one_message)
take_attempt-Takes_example = take_attempt-Takes 1 one_message one_message-IsWell

ipc_create-Creates_example : Creates 0x50 1 fresh (ipc_create 0x50 1 fresh)
ipc_create-Creates_example = ipc_create-Creates 0x50 1 fresh fresh-IsWell (omega arith)

ipc_close-Closes_example : Closes task 1 one_message (ipc_close task 1 one_message)
ipc_close-Closes_example = ipc_close-Closes task 1 one_message one_message-IsWell

-- Slot 1 waits for an answer in the page at 0x100000.
abbrev called : Ipc
called = record one_port {
  replies =
      update one_port.replies 1
        (record { used = true; page = 0x100000; len = 0; done = false; wake = 0 });
}

-- The queue of the port is full, and the wait for room ends without any.
abbrev crowded : Ipc
crowded = record (boot pages memory) {
  ports = λ i. record ((boot pages memory).ports i) { used = true; id = 1; count = port_slots };
  replies = λ _. record { used = true; page = 0x100000; len = 0; done = false; wake = 0 };
}

abbrev gives_up : Block
gives_up = record { blocked = false; meanwhile = λ s. s }

call_gives_up :
    (call_with task false 1 0x50 1 0x900 8 (gives_up ∷ []) (some 1, crowded)).0
    ≡ some (Ret.err eagain)
unfolding call_with call_loop call_attempt call_failed call_at port_idx_by_id_locked find_index
    has_id
call_gives_up = refl

-- The error frees the slot.
call_with-Ends_example :
    ((call_with task false 1 0x50 1 0x900 8 (gives_up ∷ []) (some 1, crowded)).1.replies 1).used
    ≡ false
unfolding call_with call_loop call_attempt call_failed call_at port_idx_by_id_locked find_index
    has_id
call_with-Ends_example =
    call_with-Ends task false 1 0x50 1 0x900 8 (gives_up ∷ []) 1 crowded (omega arith)

abbrev note : MsgHeader
note = record { src_pid = 7; reply_id = 1; msg_type = 0; len = 1 }
