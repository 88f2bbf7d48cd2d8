-- ===== src/Keyboard/Tests.antt =====
-- The theorems on src/keyboard.rs at small states.
use rynex.Prelude.{ℕ, ◌≡◌, refl, arith, true, false, length, some}
use rynex.Prelude.Ring.{length-window}
use rynex.Tty.State.{new}
use rynex.Keyboard.State.{
  Keyboard, buffer_size, push_char, pop_char, has_pending_input, ring_push, ring_pop, counted,
}
use rynex.Keyboard.Handler.{handle_byte, handle_key, press, key_char, keyboard_interrupt_handler}
use rynex.Keyboard.Ring.{IsRing, waiting, pop_all, pop_all-push_char}

abbrev idle : Keyboard
idle = record {
  ring_buf = λ _. 0;
  ring_head = 0;
  ring_tail = 0;
  key_count = 0;
  shift = false;
  capslock = false;
  ctrl = false;
  extended = false;
  break_pending = false;
  tty = new;
  woken = 0;
}

-- Shift pressed, then the key a.
shifted_a :
    (pop_char (keyboard_interrupt_handler 1 0x1E (keyboard_interrupt_handler 1 0x2A idle))).0
    ≡ some 65
unfolding keyboard_interrupt_handler handle_byte handle_key press key_char push_char ring_push
    pop_char ring_pop counted
shifted_a = refl

idle-IsRing : IsRing idle
idle-IsRing = record { head_in = omega arith; tail_in = omega arith }

-- One character waits.
abbrev one_char : Keyboard
one_char = record idle { ring_buf = λ _. 97; ring_head = 1; key_count = 1 }

one_char-IsRing : IsRing one_char
one_char-IsRing = record { head_in = omega arith; tail_in = omega arith }

-- 255 characters wait.
abbrev crowded : Keyboard
crowded = record idle { ring_buf = λ _. 97; ring_head = 255; key_count = 255 }

crowded-IsRing : IsRing crowded
crowded-IsRing = record { head_in = omega arith; tail_in = omega arith }

pop_all-push_char_example :
    let t = pop_all 255 (push_char 98 crowded) in
    (length (waiting t) ≡ 0) × (has_pending_input t ≡ true)
pop_all-push_char_example =
    pop_all-push_char 98 crowded crowded-IsRing (length-window {A = ℕ} buffer_size (λ _. 97) 0 255)
      refl
