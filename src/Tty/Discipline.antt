-- ===== src/Tty/Discipline.antt =====
-- The line discipline of src/tty.rs in canonical mode: what a byte typed and a read do.
use rynex.Prelude.{
  ℕ, ◌<◌, ◌≡◌, ap, sym, subst, ◌∙◌, arith, true, List, [], ◌∷◌, ◌++◌, ◌||◌, leb, if◌then◌else◌,
  length,
}
use rynex.Prelude.Ring.{window-push, length-window}
use rynex.Tty.State.{
  InputBuffer, TtyDevice, tty_buffer_size, ends_line, has_flag, icanon_bit, interrupts, store_byte,
  put_char_raw, push_input,
}
use rynex.Tty.Queue.{IsInput, IsReady, contents, has_line, first_line, has_line-append}

-- A terminal in canonical mode whose input is well formed.
pub record IsCanonical (s : TtyDevice) : Type 0 where
  pub on : has_flag icanon_bit s.termios ≡ true
  pub formed : IsInput s.input
  pub ready : IsReady s.input

stored :
    (c : ℕ) (i : InputBuffer)
    → IsInput i
    → i.count < tty_buffer_size
    → contents (store_byte true c i) ≡ contents i ++ c ∷ []
unfolding store_byte
stored c i v room = window-push tty_buffer_size i.buf i.tail i.count i.head c room v.head_at

stored-IsInput :
    (c : ℕ) (i : InputBuffer)
    → IsInput i
    → i.count < tty_buffer_size
    → IsInput (store_byte true c i)
unfolding store_byte
stored-IsInput c i v room = record {
  tail_in = v.tail_in;
  count_in = omega (arith, room);
  head_at = omega (arith, v.head_at, v.tail_in, room);
}

stored-IsReady :
    (c : ℕ) (i : InputBuffer)
    → IsInput i
    → i.count < tty_buffer_size
    → IsReady i
    → IsReady (store_byte true c i)
unfolding store_byte
stored-IsReady c i v room r =
    ap (λ b. b || ends_line c) r
    ∙ sym (has_line-append (contents i) c)
    ∙ ap has_line (sym (stored c i v room))

shown-input : (c : ℕ) (s : TtyDevice) → (put_char_raw c s).input ≡ s.input
unfolding put_char_raw
shown-input c s = ground arith

shown-termios : (c : ℕ) (s : TtyDevice) → (put_char_raw c s).termios ≡ s.termios
unfolding put_char_raw
shown-termios c s = ground arith

pushed-termios : (c : ℕ) (s : TtyDevice) → (push_input c s).termios ≡ s.termios
unfolding push_input
pushed-termios c s = ground (arith, shown-termios c s)

pushed-input :
    (c : ℕ) (s : TtyDevice)
    → has_flag icanon_bit s.termios ≡ true
    → (push_input c s).input ≡ (
        if interrupts s c || leb tty_buffer_size s.input.count
        then s.input
        else store_byte true c s.input)
unfolding push_input
pushed-input c s on = ground (arith, on)

-- What a byte typed does to the bytes that wait.
abbrev pub typed : ℕ → TtyDevice → List ℕ
typed c s =
    if interrupts s c || leb tty_buffer_size (length (contents s.input))
    then contents s.input
    else contents s.input ++ c ∷ []

Keeps : InputBuffer → InputBuffer → List ℕ → Type 0
Keeps i i' q = (contents i' ≡ q) × IsInput i' × IsReady i'

kept :
    (i : InputBuffer) (s : TtyDevice)
    → IsCanonical s
    → i ≡ s.input
    → Keeps s.input i (contents s.input)
unfolding Keeps
kept i s v e = (ap contents e, subst IsInput (sym e) v.formed, subst IsReady (sym e) v.ready)

grown :
    (c : ℕ) (i : InputBuffer) (s : TtyDevice)
    → IsCanonical s
    → s.input.count < tty_buffer_size
    → i ≡ store_byte true c s.input
    → Keeps s.input i (contents s.input ++ c ∷ [])
unfolding Keeps
grown c i s v room e = (
  ap contents e ∙ stored c s.input v.formed room,
  subst IsInput (sym e) (stored-IsInput c s.input v.formed room),
  subst IsReady (sym e) (stored-IsReady c s.input v.formed room v.ready),
)

input_typed :
    (c : ℕ) (s : TtyDevice) → IsCanonical s → Keeps s.input (push_input c s).input (typed c s)
input_typed c s v = ground (
  arith,
  pushed-input c s v.on,
  kept (push_input c s).input s v,
  grown c (push_input c s).input s v,
  length-window tty_buffer_size s.input.buf s.input.tail s.input.count,
)

-- In canonical mode a byte typed goes behind those that wait, unless it is the interrupt character
-- or 4096 bytes wait; the mark of a complete line stays right, and the queue well formed.
pub push_input-typed :
    (c : ℕ) (s : TtyDevice)
    → IsCanonical s
    → (contents (push_input c s).input ≡ typed c s) × IsCanonical (push_input c s)
unfolding Keeps
push_input-typed c s v =
    let (same, formed, ready) = input_typed c s v in
    (
      same,
      record {
        on = ap (has_flag icanon_bit) (pushed-termios c s) ∙ v.on;
        formed = formed;
        ready = ready;
      },
    )

-- What a read does to the bytes that wait.
abbrev pub Gives : ℕ → TtyDevice → List ℕ × TtyDevice → Type 0
Gives n s (bytes, s') =
    (◌≡◌ {A = List ℕ × List ℕ} (bytes, contents s'.input)
      (if has_line (contents s.input)
        then first_line true n (contents s.input)
        else ([], contents s.input)))
    × IsCanonical s'
