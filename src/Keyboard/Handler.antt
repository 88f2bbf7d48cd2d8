-- ===== src/Keyboard/Handler.antt =====
-- The keyboard layout and the interrupt handler of src/keyboard.rs.
use rynex.Prelude.{
  ℕ, zero, suc, ◌-◌, ◌%◌, Bool, true, false, not, List, [], ◌∷◌, ◌&&◌, ◌||◌, ◌==◌, leb,
  if◌then◌else◌,
}
use rynex.Keyboard.State.{Keyboard, push_char, push_seq}

abbrev nth : List ℕ → ℕ → ℕ
nth [] n = 0
nth (x ∷ xs) zero = x
nth (x ∷ xs) (suc n) = nth xs n

-- SCANCODE_MAP; the unused keys from 0x3B on are 0.
abbrev scancode_map : List ℕ
scancode_map =
    0 ∷ 27 ∷ 49 ∷ 50 ∷ 51 ∷ 52 ∷ 53 ∷ 54 ∷ 55 ∷ 56 ∷ 57 ∷ 48 ∷ 45 ∷ 61 ∷ 8 ∷ 9 ∷ 113 ∷ 119 ∷ 101
    ∷ 114 ∷ 116 ∷ 121 ∷ 117 ∷ 105 ∷ 111 ∷ 112 ∷ 91 ∷ 93 ∷ 10 ∷ 0 ∷ 97 ∷ 115 ∷ 100 ∷ 102 ∷ 103 ∷ 104
    ∷ 106 ∷ 107 ∷ 108 ∷ 59 ∷ 39 ∷ 96 ∷ 0 ∷ 92 ∷ 122 ∷ 120 ∷ 99 ∷ 118 ∷ 98 ∷ 110 ∷ 109 ∷ 44 ∷ 46 ∷ 47
    ∷ 0 ∷ 42 ∷ 0 ∷ 32 ∷ 0 ∷ []

-- SCANCODE_SHIFT_MAP.
abbrev scancode_shift_map : List ℕ
scancode_shift_map =
    0 ∷ 27 ∷ 33 ∷ 64 ∷ 35 ∷ 36 ∷ 37 ∷ 94 ∷ 38 ∷ 42 ∷ 40 ∷ 41 ∷ 95 ∷ 43 ∷ 8 ∷ 9 ∷ 81 ∷ 87 ∷ 69 ∷ 82
    ∷ 84 ∷ 89 ∷ 85 ∷ 73 ∷ 79 ∷ 80 ∷ 123 ∷ 125 ∷ 10 ∷ 0 ∷ 65 ∷ 83 ∷ 68 ∷ 70 ∷ 71 ∷ 72 ∷ 74 ∷ 75 ∷ 76
    ∷ 58 ∷ 34 ∷ 126 ∷ 0 ∷ 124 ∷ 90 ∷ 88 ∷ 67 ∷ 86 ∷ 66 ∷ 78 ∷ 77 ∷ 60 ∷ 62 ∷ 63 ∷ 0 ∷ 42 ∷ 0 ∷ 32
    ∷ 0 ∷ []

abbrev to_ascii_uppercase : ℕ → ℕ
to_ascii_uppercase c = if leb 97 c && leb c 122 then c - 32 else c

abbrev is_ascii_alphabetic : ℕ → Bool
is_ascii_alphabetic c = (leb 65 c && leb c 90) || (leb 97 c && leb c 122)

unfoldable pub key_char : ℕ → Keyboard → ℕ
key_char sc s =
    let base = if s.shift then nth scancode_shift_map sc else nth scancode_map sc in
    if leb 128 sc then 0 else if s.capslock then to_ascii_uppercase base else base

-- The escape sequence of an extended key.
abbrev pub sequence_of : ℕ → List ℕ
sequence_of make =
    if make == 0x48
    then 27 ∷ 91 ∷ 65 ∷ []
    else if make == 0x50
    then 27 ∷ 91 ∷ 66 ∷ []
    else if make == 0x4D
    then 27 ∷ 91 ∷ 67 ∷ []
    else if make == 0x4B
    then 27 ∷ 91 ∷ 68 ∷ []
    else if make == 0x47
    then 27 ∷ 91 ∷ 72 ∷ []
    else if make == 0x4F
    then 27 ∷ 91 ∷ 70 ∷ []
    else if make == 0x49
    then 27 ∷ 91 ∷ 53 ∷ 126 ∷ []
    else if make == 0x51
    then 27 ∷ 91 ∷ 54 ∷ 126 ∷ []
    else []

abbrev pub is_released : ℕ → Bool
is_released sc = leb 128 (sc % 256)

abbrev pub make_of : ℕ → ℕ
make_of sc = sc % 128

unfoldable pub handle_extended : ℕ → Keyboard → Keyboard
handle_extended sc s = if is_released sc then s else push_seq (sequence_of (make_of sc)) s

-- A modifier key is pressed or released.
abbrev pub set_modifier : ℕ → Bool → Keyboard → Keyboard
set_modifier make down s =
    if make == 0x2A || make == 0x36
    then record s { shift = down }
    else if make == 0x1D
    then record s { ctrl = down }
    else s

-- A key that is no modifier is pressed.
unfoldable pub press : ℕ → Keyboard → Keyboard
press make s =
    let c = key_char make s in
    let control = push_char (c % 32) s in
    let plain = push_char c s in
    if s.ctrl && is_ascii_alphabetic c then control else if c == 0 then s else plain

unfoldable pub handle_key : ℕ → Keyboard → Keyboard
handle_key sc s =
    let s' = set_modifier (make_of sc) (not (is_released sc)) s in
    let pressed = press (make_of sc) s' in
    if is_released sc
    then s'
    else if make_of sc == 0x3A
    then record s' { capslock = not s'.capslock }
    else pressed

-- The handler of a byte `sc`, behind the test of the status register.
unfoldable pub handle_byte : ℕ → Keyboard → Keyboard
handle_byte sc s =
    let extended = handle_extended sc (record s { extended = false }) in
    let key = handle_key sc s in
    if sc == 0xF0
    then record s { break_pending = true }
    else if s.break_pending
    then set_modifier (make_of sc) false (record s { break_pending = false })
    else if sc == 0xE0
    then record s { extended = true }
    else if s.extended
    then extended
    else key

unfoldable pub keyboard_interrupt_handler : ℕ → ℕ → Keyboard → Keyboard
keyboard_interrupt_handler status sc s = if status % 2 == 0 then s else handle_byte sc s
