-- ===== src/Klog/Tests.antt =====
-- The theorems on src/klog.rs at small states.
use rynex.Prelude.{◌≡◌, refl, arith, true, false, [], ◌∷◌, ◌^◌, ◌-◌}
use rynex.Klog.State.{Klog, LogEntry, begin, s, end, log, append_bytes, append_byte}
use rynex.Klog.Line.{line_text}
use rynex.Klog.Ring.{IsLog, IsCommitted, entries, remember, log-remember}

abbrev empty_log : Klog
empty_log = record {
  ring = λ _. record { level = 0; facility = 0; tick = 0; len = 0; msg = λ _. 0 };
  ring_head = 0;
  ring_len = 0;
  console_level = 4;
  facility_mask = 2 ^ 32 - 1;
  line_active = false;
  line_level = 0;
  line_fac = 0;
  line_len = 0;
  line = λ _. 0;
  ticks = 9;
  console = [];
}

empty_log-IsLog : IsLog empty_log
empty_log-IsLog = record { head_in = omega arith; len_in = omega arith; line_in = omega arith }

-- A newline in the message is left out.
text_logged : line_text (log 3 5 (72 ∷ 10 ∷ 73 ∷ []) empty_log) ≡ 72 ∷ 73 ∷ []
unfolding log s begin append_bytes append_byte end
text_logged = refl

log-remember_example :
    (e : LogEntry) × (entries (log 3 5 (72 ∷ 10 ∷ 73 ∷ []) empty_log)
      ≡ remember (entries empty_log) e)
    × IsCommitted 3 5 (72 ∷ 10 ∷ 73 ∷ []) empty_log e
    × IsLog (log 3 5 (72 ∷ 10 ∷ 73 ∷ []) empty_log)
log-remember_example = log-remember 3 5 (72 ∷ 10 ∷ 73 ∷ []) empty_log empty_log-IsLog

abbrev begun : Klog
begun = record empty_log { line_active = true; line_level = 3; line_len = 2 }

begun-IsLog : IsLog begun
begun-IsLog = record { head_in = omega arith; len_in = omega arith; line_in = omega arith }
