-- ===== src/Klog/State.antt =====
-- The state of src/klog.rs and its operations, interrupts disabled.
use rynex.Prelude.{
  ℕ, zero, suc, ◌+◌, ◌-◌, ◌*◌, ◌/◌, ◌%◌, ◌^◌, Bool, true, false, not, List, [], ◌∷◌, Option, none,
  some, ◌&&◌, ◌||◌, ◌==◌, ltb, leb, min, if◌then◌else◌, update,
}
use rynex.Prelude.Ring.{window}

abbrev pub log_msg_max : ℕ
log_msg_max = 160

abbrev pub log_ring_cap : ℕ
log_ring_cap = 128

abbrev pub fac_count : ℕ
fac_count = 14

abbrev pub log_debug : ℕ
log_debug = 7

pub record LogEntry : Type 0 where
  pub level : ℕ
  pub facility : ℕ
  pub tick : ℕ
  pub len : ℕ
  pub msg : ℕ → ℕ

-- A line on the serial console: the tick, the indices of the two names, and the bytes.
pub record Printed : Type 0 where
  pub tick : ℕ
  pub fac_name : ℕ
  pub level_name : ℕ
  pub text : List ℕ

-- `console` is the serial output, the last line first; `ticks` is the timer's count.
pub record Klog : Type 0 where
  pub ring : ℕ → LogEntry
  pub ring_head : ℕ
  pub ring_len : ℕ
  pub console_level : ℕ
  pub facility_mask : ℕ
  pub line_active : Bool
  pub line_level : ℕ
  pub line_fac : ℕ
  pub line_len : ℕ
  pub line : ℕ → ℕ
  pub ticks : ℕ
  pub console : List Printed

abbrev pub set_console_level : ℕ → Klog → Klog
set_console_level level s = record s { console_level = min level log_debug }

abbrev pub set_facility_mask : ℕ → Klog → Klog
set_facility_mask mask s = record s { facility_mask = mask }

-- A byte goes behind the line unless it ends a line or the line is full.
unfoldable pub append_byte : ℕ → Klog → Klog
append_byte b s =
    if b == 10 || b == 13
    then s
    else if ltb s.line_len log_msg_max
    then record s { line = update s.line s.line_len b; line_len = s.line_len + 1 }
    else s

unfoldable pub append_bytes : List ℕ → Klog → Klog
append_bytes [] s = s
append_bytes (b ∷ bytes) s = append_bytes bytes (append_byte b s)

-- The loop of `append_dec`, `i` free places left in front of `digits`. `none`: out of bounds.
unfoldable pub dec_digits : ℕ → ℕ → List ℕ → Option (List ℕ)
dec_digits zero v digits = if v == 0 then some digits else none
dec_digits (suc i) v digits =
    let rest = dec_digits i (v / 10) ((v % 10 + 48) ∷ digits) in
    if v == 0 then some digits else rest

unfoldable pub append_found : Option (List ℕ) → Klog → Option Klog
append_found none s = none
append_found (some digits) s = some (append_bytes digits s)

unfoldable pub append_dec : ℕ → Klog → Option Klog
append_dec v s =
    if v == 0 then some (append_bytes (48 ∷ []) s) else append_found (dec_digits 20 v []) s

abbrev pub hex_digit : ℕ → ℕ
hex_digit nibble = if ltb nibble 10 then 48 + nibble else 55 + nibble

-- The `n` last of the 16 digits.
unfoldable pub hex_digits : ℕ → ℕ → List ℕ
hex_digits zero v = []
hex_digits (suc n) v = hex_digit ((v / 2 ^ (n * 4)) % 16) ∷ hex_digits n v

unfoldable pub append_hex : ℕ → Klog → Klog
append_hex v s = append_bytes (hex_digits 16 v) s

unfoldable pub begin : ℕ → ℕ → Klog → Klog
begin level facility s = record s {
  line_active = true;
  line_level = level;
  line_fac = facility;
  line_len = 0;
}

unfoldable pub s : List ℕ → Klog → Klog
s text k = if k.line_active then append_bytes text k else k

unfoldable pub dec : ℕ → Klog → Option Klog
dec v k = let written = append_dec v k in if k.line_active then written else some k

unfoldable pub hex : ℕ → Klog → Klog
hex v k = if k.line_active then append_hex v k else k

-- The bytes of an entry or of the line.
abbrev pub text : (ℕ → ℕ) → ℕ → List ℕ
text msg len = window log_msg_max msg 0 len

abbrev pub printed : LogEntry → Printed
printed e = record {
  tick = e.tick;
  fac_name = min e.facility (fac_count - 1);
  level_name = min e.level log_debug;
  text = text e.msg e.len;
}

-- The entry that `end` commits.
abbrev pub pending : Klog → LogEntry
pending k = record {
  level = k.line_level;
  facility = k.line_fac;
  tick = k.ticks;
  len = k.line_len % 2 ^ 16;
  msg = k.line;
}

abbrev pub passes_filter : Klog → Bool
passes_filter k =
    not ((k.facility_mask / 2 ^ (k.line_fac % 32)) % 2 == 0) && leb k.line_level k.console_level

unfoldable pub end : Klog → Klog
end k =
    let k' = record k {
      line_active = false;
      ring = update k.ring k.ring_head (pending k);
      ring_head = (k.ring_head + 1) % log_ring_cap;
      ring_len = if ltb k.ring_len log_ring_cap then k.ring_len + 1 else k.ring_len;
    } in
    let line : Printed = record {
      tick = k.ticks;
      fac_name = min k.line_fac (fac_count - 1);
      level_name = min k.line_level log_debug;
      text = text k.line k.line_len;
    } in
    if k.line_active
    then (if passes_filter k then record k' { console = line ∷ k.console } else k')
    else k

unfoldable pub log : ℕ → ℕ → List ℕ → Klog → Klog
log level facility msg k = end (s msg (begin level facility k))

-- The lines that `dump` prints, oldest first, `n` of them from a position on.
unfoldable pub dump_from : ℕ → ℕ → Klog → List Printed
dump_from zero i k = []
dump_from (suc n) i k = printed (k.ring (i % log_ring_cap)) ∷ dump_from n (i + 1) k

unfoldable pub dump : Klog → List Printed
dump k = dump_from k.ring_len ((k.ring_head + log_ring_cap - k.ring_len) % log_ring_cap) k
