-- ===== src/Tty/State.antt =====
-- The state of src/tty.rs and its operations on input and settings, the locks held.
use rynex.Prelude.{
  ℕ, zero, suc, ◌+◌, ◌-◌, ◌%◌, Bool, true, false, not, List, [], ◌∷◌, Option, none, some, ◌&&◌,
  ◌||◌, ◌==◌, leb, if◌then◌else◌, update, bit_and, ◌⊎◌, inl, inr,
}

abbrev pub tty_buffer_size : ℕ
tty_buffer_size = 4096

-- The bits of `c_lflag`.
abbrev pub isig_bit : ℕ
isig_bit = 1

abbrev pub icanon_bit : ℕ
icanon_bit = 2

abbrev pub echo_bit : ℕ
echo_bit = 8

abbrev pub echoe_bit : ℕ
echoe_bit = 16

abbrev pub sigint : ℕ
sigint = 2

pub record InputBuffer : Type 0 where
  pub buf : ℕ → ℕ
  pub head : ℕ
  pub tail : ℕ
  pub count : ℕ
  pub line_ready : Bool
  pub echo : Bool
  pub canonical : Bool

pub record Termios : Type 0 where
  pub c_iflag : ℕ
  pub c_oflag : ℕ
  pub c_cflag : ℕ
  pub c_lflag : ℕ
  pub c_cc : ℕ → ℕ

pub record Winsize : Type 0 where
  pub ws_row : ℕ
  pub ws_col : ℕ
  pub ws_xpixel : ℕ
  pub ws_ypixel : ℕ

-- `screen` lists the strings written to the screen, the last one first; `signals` those sent to the
-- foreground process group.
pub record TtyDevice : Type 0 where
  pub input : InputBuffer
  pub termios : Termios
  pub winsize : Winsize
  pub fg_pgrp : ℕ
  pub screen : List (List ℕ)
  pub signals : List ℕ

abbrev default_cc : List ℕ
default_cc = 0x03 ∷ 0x1c ∷ 0x7f ∷ 0x15 ∷ 0x04 ∷ 0 ∷ 0 ∷ 0 ∷ 0x11 ∷ 0x13 ∷ 0x1a ∷ []

abbrev nth : List ℕ → ℕ → ℕ
nth [] n = 0
nth (x ∷ xs) zero = x
nth (x ∷ xs) (suc n) = nth xs n

abbrev pub new : TtyDevice
new = record {
  input = record {
    buf = λ _. 0;
    head = 0;
    tail = 0;
    count = 0;
    line_ready = false;
    echo = true;
    canonical = true;
  };
  termios = record {
    c_iflag = 0;
    c_oflag = 0;
    c_cflag = 0;
    c_lflag = icanon_bit + echo_bit + echoe_bit + isig_bit;
    c_cc = nth default_cc;
  };
  winsize = record { ws_row = 25; ws_col = 80; ws_xpixel = 0; ws_ypixel = 0 };
  fg_pgrp = 1;
  screen = [];
  signals = [];
}

abbrev pub has_flag : ℕ → Termios → Bool
has_flag flag t = not (bit_and t.c_lflag flag == 0)

abbrev pub ends_line : ℕ → Bool
ends_line c = c == 10 || c == 13

-- What a byte shows as; a control byte shows as nothing.
abbrev pub shown_as : ℕ → Option (List ℕ)
shown_as c =
    if c == 10
    then some (10 ∷ [])
    else if c == 13
    then some (13 ∷ [])
    else if c == 9
    then some (32 ∷ 32 ∷ 32 ∷ 32 ∷ [])
    else if c == 8 || c == 0x7F
    then some (8 ∷ 32 ∷ 8 ∷ [])
    else if leb 0x20 c && leb c 0x7E
    then some (c ∷ [])
    else none

unfoldable pub put_char_raw : ℕ → TtyDevice → TtyDevice
put_char_raw c s = elim (shown_as c) [
  | none ↦ s
  | some string ↦ record s { screen = string ∷ s.screen }
]

-- The byte behind the last one of the queue.
unfoldable pub store_byte : Bool → ℕ → InputBuffer → InputBuffer
store_byte canonical c i = record i {
  line_ready = i.line_ready || (canonical && ends_line c);
  buf = update i.buf i.head c;
  head = (i.head + 1) % tty_buffer_size;
  count = i.count + 1;
}

abbrev pub interrupts : TtyDevice → ℕ → Bool
interrupts s c =
    has_flag isig_bit s.termios && (not (s.termios.c_cc 0 == 0) && c == s.termios.c_cc 0)

unfoldable pub push_input : ℕ → TtyDevice → TtyDevice
push_input c s =
    let shown = put_char_raw c s in
    let echoed = if has_flag echo_bit s.termios && s.input.echo then shown else s in
    if interrupts s c
    then record s { signals = sigint ∷ s.signals }
    else if leb tty_buffer_size s.input.count
    then s
    else record echoed { input = store_byte (has_flag icanon_bit s.termios) c s.input }

-- Whether one of the `n` bytes from a place on ends a line.
unfoldable pub any_ends_line : (ℕ → ℕ) → ℕ → ℕ → Bool
any_ends_line buf i zero = false
any_ends_line buf i (suc n) = ends_line (buf (i % tty_buffer_size)) || any_ends_line buf (i + 1) n

abbrev pub advance : InputBuffer → InputBuffer
advance i = record i { tail = (i.tail + 1) % tty_buffer_size; count = i.count - 1 }

abbrev pub line_taken : InputBuffer → InputBuffer
line_taken i = record i { line_ready = any_ends_line i.buf i.tail i.count }

-- The loop of `pop_input`, with room for `n` bytes.
unfoldable pub pop_loop : Bool → ℕ → InputBuffer → List ℕ × InputBuffer
pop_loop canonical zero i = ([], i)
pop_loop canonical (suc n) i =
    let c = i.buf i.tail in
    let (rest, i') = pop_loop canonical n (advance i) in
    if i.count == 0
    then ([], i)
    else if canonical && ends_line c
    then (c ∷ [], line_taken (advance i))
    else (c ∷ rest, i')

unfoldable pub pop_input : ℕ → TtyDevice → List ℕ × TtyDevice
pop_input n s =
    let canonical = has_flag icanon_bit s.termios in
    let (bytes, i) = pop_loop canonical n s.input in
    if s.input.count == 0
    then ([], s)
    else if canonical && not s.input.line_ready
    then ([], s)
    else (bytes, record s { input = i })

abbrev pub get_fg_pgrp : TtyDevice → ℕ
get_fg_pgrp s = s.fg_pgrp

abbrev pub set_fg_pgrp : ℕ → TtyDevice → TtyDevice
set_fg_pgrp pg s = record s { fg_pgrp = pg }

abbrev pub set_termios : Termios → TtyDevice → TtyDevice
set_termios t s = record s {
  termios = t;
  input = record s.input {
    echo = not (bit_and t.c_lflag echo_bit == 0);
    canonical = not (bit_and t.c_lflag icanon_bit == 0);
  };
}

abbrev pub flush : TtyDevice → TtyDevice
flush s = record s { input = record s.input { head = 0; tail = 0; count = 0; line_ready = false } }

-- What `ioctl` reads at its argument, as the structure that the request expects there.
pub record Argument : Type 0 where
  pub termios : Termios
  pub winsize : Winsize
  pub int : ℕ

-- What `ioctl` writes at its argument.
pub data Written : Type 0 where
  unwritten : Written
  termios_written : Termios → Written
  winsize_written : Winsize → Written
  int_written : ℕ → Written

-- An error string: "EFAULT" or "ENOTTY".
pub data IoctlError : Type 0 where
  efault : IoctlError
  enotty : IoctlError

unfoldable pub ioctl : ℕ → ℕ → Argument → TtyDevice → (IoctlError ⊎ Written) × TtyDevice
ioctl request arg user s =
    let null : (IoctlError ⊎ Written) × TtyDevice = (inl IoctlError.efault, s) in
    if request == 0x5401
    then (if arg == 0 then null else (inr (Written.termios_written s.termios), s))
    else if request == 0x5402 || (request == 0x5403 || request == 0x5404)
    then (if arg == 0 then null else (inr Written.unwritten, set_termios user.termios s))
    else if request == 0x5413
    then (if arg == 0 then null else (inr (Written.winsize_written s.winsize), s))
    else if request == 0x5414
    then (if arg == 0 then null else (inr Written.unwritten, record s { winsize = user.winsize }))
    else if request == 0x540F
    then (if arg == 0 then null else (inr (Written.int_written (get_fg_pgrp s)), s))
    else if request == 0x5410
    then (if arg == 0 then null else (inr Written.unwritten, set_fg_pgrp user.int s))
    else if request == 0x540B
    then (inr Written.unwritten, flush s)
    else (inl IoctlError.enotty, s)
