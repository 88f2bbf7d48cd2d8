-- ===== src/Ipc/State.antt =====
-- The state of src/ipc.rs: the port table, the reply slots, the page allocator, and the memory that
-- the messages are copied through.
use rynex.Prelude.{ℕ, ◌+◌, ◌-◌, Bool, false, List, [], ◌∷◌, ◌&&◌, leb, ltb, if◌then◌else◌}
use rynex.Buddy.State.{Buddy}

abbrev pub max_ports : ℕ
max_ports = 32

abbrev pub port_slots : ℕ
port_slots = 64

abbrev pub name_len : ℕ
name_len = 16

abbrev pub ipc_msg_header : ℕ
ipc_msg_header = 32

abbrev pub ipc_msg_max : ℕ
ipc_msg_max = 4096 - ipc_msg_header

abbrev pub max_replies : ℕ
max_replies = 64

-- The error numbers of src/task.rs that the calls answer, negated.
abbrev pub esrch : ℕ
esrch = 3

abbrev pub eagain : ℕ
eagain = 11

abbrev pub enomem : ℕ
enomem = 12

abbrev pub efault : ℕ
efault = 14

abbrev pub eexist : ℕ
eexist = 17

abbrev pub einval : ℕ
einval = 22

abbrev pub emsgsize : ℕ
emsgsize = 90

-- An `i64` answer: a count or an id, or a negated error number.
pub data Ret : Type 0 where
  ok : ℕ → Ret
  err : ℕ → Ret

pub record MsgHeader : Type 0 where
  pub src_pid : ℕ
  pub reply_id : ℕ
  pub msg_type : ℕ
  pub len : ℕ

abbrev pub no_header : MsgHeader
no_header = record { src_pid = 0; reply_id = 0; msg_type = 0; len = 0 }

pub record Port : Type 0 where
  pub used : Bool
  pub id : ℕ
  pub name : ℕ → ℕ
  pub slots : ℕ → ℕ
  pub head : ℕ
  pub count : ℕ
  pub wake_recv : ℕ
  pub wake_send : ℕ

abbrev pub empty_port : Port
empty_port = record {
  used = false;
  id = 0;
  name = λ _. 0;
  slots = λ _. 0;
  head = 0;
  count = 0;
  wake_recv = 0;
  wake_send = 0;
}

pub record ReplySlot : Type 0 where
  pub used : Bool
  pub page : ℕ
  pub len : ℕ
  pub done : Bool
  pub wake : ℕ

abbrev pub empty_reply : ReplySlot
empty_reply = record { used = false; page = 0; len = 0; done = false; wake = 0 }

-- The address of a futex word: a port's two, by the port's index, and a reply slot's.
pub data WakeWord : Type 0 where
  wake_recv_of : ℕ → WakeWord
  wake_send_of : ℕ → WakeWord
  wake_reply_of : ℕ → WakeWord

-- The header at the start of a page is kept apart from the bytes; a page is either a message page,
-- read from byte 32 on, or a reply page, whose header is never read. `woken` lists the calls of
-- `futex_wake`, the last one first.
pub record Ipc : Type 0 where
  pub ports : ℕ → Port
  pub next_port_id : ℕ
  pub replies : ℕ → ReplySlot
  pub buddy : Buddy
  pub headers : ℕ → MsgHeader
  pub bytes : ℕ → ℕ
  pub woken : List (WakeWord × ℕ)

-- What the calls learn of the task that makes them from src/task.rs, and the site that the
-- allocator records.
pub record Caller : Type 0 where
  pub current_task_id : ℕ
  pub user_range_valid : ℕ → ℕ → Bool → Bool
  pub site : ℕ × ℕ

-- The state at boot, with the pages of `b` and the memory `mem`.
abbrev pub boot : Buddy → (ℕ → ℕ) → Ipc
boot b mem = record {
  ports = λ _. empty_port;
  next_port_id = 1;
  replies = λ _. empty_reply;
  buddy = b;
  headers = λ _. no_header;
  bytes = mem;
  woken = [];
}

abbrev pub futex_wake : WakeWord → ℕ → Ipc → Ipc
futex_wake w n s = record s { woken = (w, n) ∷ s.woken }

-- Whether `a` is one of the `n` addresses from `start` on.
abbrev pub in_range : ℕ → ℕ → ℕ → Bool
in_range start n a = leb start a && ltb a (start + n)

-- `copy_nonoverlapping`: `n` bytes from `src` to `dst`.
abbrev pub copy_bytes : ℕ → ℕ → ℕ → (ℕ → ℕ) → ℕ → ℕ
copy_bytes src dst n mem a = if in_range dst n a then mem (src + (a - dst)) else mem a
