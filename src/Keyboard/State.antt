-- ===== src/Keyboard/State.antt =====
-- The state of src/keyboard.rs, its ring, and `push_char` and `pop_char`, interrupts disabled.
use rynex.Prelude.{
  ℕ, ◌+◌, ◌-◌, ◌%◌, ◌^◌, Bool, List, [], ◌∷◌, Option, none, some, ◌==◌, ltb, if◌then◌else◌, update,
}
use rynex.Tty.State.{TtyDevice, push_input}

abbrev pub buffer_size : ℕ
buffer_size = 256

-- `key_count` is a 64-bit counter; `woken` counts the calls of `futex_wake`, `tty` is TTY_DEVICE.
pub record Keyboard : Type 0 where
  pub ring_buf : ℕ → ℕ
  pub ring_head : ℕ
  pub ring_tail : ℕ
  pub key_count : ℕ
  pub shift : Bool
  pub capslock : Bool
  pub ctrl : Bool
  pub extended : Bool
  pub break_pending : Bool
  pub tty : TtyDevice
  pub woken : ℕ

unfoldable pub ring_push : ℕ → Keyboard → Keyboard
ring_push c s =
    let next = (s.ring_head + 1) % buffer_size in
    if next == s.ring_tail
    then record s {
      ring_tail = (s.ring_tail + 1) % buffer_size;
      ring_buf = update s.ring_buf s.ring_head c;
      ring_head = next;
    }
    else record s { ring_buf = update s.ring_buf s.ring_head c; ring_head = next }

unfoldable pub ring_pop : Keyboard → Option ℕ × Keyboard
ring_pop s =
    if s.ring_head == s.ring_tail
    then (none, s)
    else (some (s.ring_buf s.ring_tail), record s { ring_tail = (s.ring_tail + 1) % buffer_size })

abbrev pub ring_reset : Keyboard → Keyboard
ring_reset s = record s { ring_head = 0; ring_tail = 0 }

unfoldable pub push_char : ℕ → Keyboard → Keyboard
push_char c s =
    let s' = ring_push c s in
    record s' {
      key_count = (s'.key_count + 1) % 2 ^ 64;
      tty = push_input c s'.tty;
      woken = s'.woken + 1;
    }

unfoldable pub push_seq : List ℕ → Keyboard → Keyboard
push_seq [] s = s
push_seq (c ∷ bytes) s = push_seq bytes (push_char c s)

-- The counter goes down for a character that was there.
unfoldable pub counted : Option ℕ × Keyboard → Option ℕ × Keyboard
counted (none, s) = (none, s)
counted (some c, s) = (some c, record s { key_count = (s.key_count + 2 ^ 64 - 1) % 2 ^ 64 })

unfoldable pub pop_char : Keyboard → Option ℕ × Keyboard
pop_char s = counted (ring_pop s)

abbrev pub has_pending_input : Keyboard → Bool
has_pending_input s = ltb 0 s.key_count
