-- ===== src/Tty/Stuck.antt =====
-- A full queue without the end of a line, in src/tty.rs.
use rynex.Prelude.{ℕ, ◌≡◌, false, List, [], ◌∷◌, length}
use rynex.Tty.State.{TtyDevice, tty_buffer_size, push_input}
use rynex.Tty.Queue.{contents, has_line}
use rynex.Tty.Discipline.{IsCanonical}

-- Bytes typed one after the other.
unfoldable pub push_all : List ℕ → TtyDevice → TtyDevice
push_all [] s = s
push_all (c ∷ cs) s = push_all cs (push_input c s)

-- All 4096 places are taken, and none holds the end of a line.
pub record IsStuck (s : TtyDevice) : Type 0 where
  pub canonical : IsCanonical s
  pub full : length (contents s.input) ≡ tty_buffer_size
  pub no_line : has_line (contents s.input) ≡ false
