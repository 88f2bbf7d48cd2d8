-- ===== src/Tty/Tests.antt =====
-- The theorems on src/tty.rs at small states.
use rynex.Tty.State.{TtyDevice, new, push_input, tty_buffer_size}

-- Two bytes and the end of their line wait.
abbrev line_waits : TtyDevice
line_waits = push_input 10 (push_input 98 (push_input 97 new))

-- A queue full of the letter a.
abbrev full_of_a : TtyDevice
full_of_a = record new { input = record new.input { buf = λ _. 97; count = tty_buffer_size } }
