-- ===== src/Klog/Ring.antt =====
-- The ring of src/klog.rs as a bounded history: the last 128 lines, oldest first.
use rynex.Prelude.{
  ℕ, zero, suc, ◌+◌, ◌-◌, ◌%◌, ◌^◌, ◌≤◌, ◌<◌, ◌≡◌, refl, ap, sym, ◌∙◌, arith, true, false, List, [],
  ◌∷◌, ◌++◌, ltb, if◌then◌else◌, take, length, update,
}
use rynex.Prelude.Ring.{window, window-push, window_from, window_uncons, length-window, window_mod}
use mathlib.Core.List.{map}
use rynex.Klog.State.{
  Klog, LogEntry, log_ring_cap, log_msg_max, begin, s, end, log, dump, dump_from, pending, printed,
  text, append_byte, append_bytes,
}
use rynex.Klog.Line.{printable, append_byte-len, line_text-append_bytes}

pub record IsLog (k : Klog) : Type 0 where
  pub head_in : k.ring_head < log_ring_cap
  pub len_in : k.ring_len ≤ log_ring_cap
  pub line_in : k.line_len ≤ log_msg_max

-- Where the oldest line stands, before reduction.
abbrev start : Klog → ℕ
start k = k.ring_head + log_ring_cap - k.ring_len

-- The lines kept, oldest first.
abbrev pub entries : Klog → List LogEntry
entries k = window log_ring_cap k.ring (start k) k.ring_len

abbrev pub drop_first {ℓ} : {A : Type ℓ} → List A → List A
drop_first [] = []
drop_first (x ∷ xs) = xs

-- A history that forgets its oldest line where it would have more than 128.
abbrev pub remember : List LogEntry → LogEntry → List LogEntry
remember es e = if ltb (length es) log_ring_cap then es ++ e ∷ [] else drop_first es ++ e ∷ []

room :
    (k : Klog)
    → IsLog k
    → k.ring_len < log_ring_cap
    → window log_ring_cap
        (update k.ring k.ring_head (pending k))
        ((k.ring_head + 1) % log_ring_cap + log_ring_cap - (k.ring_len + 1))
        (k.ring_len + 1)
      ≡ entries k ++ pending k ∷ []
room k v lt =
    window_from log_ring_cap (update k.ring k.ring_head (pending k))
      ((k.ring_head + 1) % log_ring_cap + log_ring_cap - (k.ring_len + 1)) (start k)
      (k.ring_len + 1) (omega (arith, v.head_in, v.len_in))
    ∙ window-push log_ring_cap k.ring (start k) k.ring_len k.ring_head (pending k) lt
        (omega (arith, v.head_in, v.len_in))

full :
    (k : Klog)
    → IsLog k
    → log_ring_cap ≤ k.ring_len
    → window log_ring_cap
        (update k.ring k.ring_head (pending k))
        ((k.ring_head + 1) % log_ring_cap + log_ring_cap - k.ring_len)
        k.ring_len
      ≡ drop_first (entries k) ++ pending k ∷ []
full k v le =
    let whole : k.ring_len ≡ log_ring_cap = omega (arith, le, v.len_in) in
    let more : k.ring_len ≡ k.ring_len - 1 + 1 = omega (arith, le) in
    window_from log_ring_cap (update k.ring k.ring_head (pending k))
      ((k.ring_head + 1) % log_ring_cap + log_ring_cap - k.ring_len) (start k + 1) k.ring_len
      (omega (arith, v.head_in, whole))
    ∙ ap (window log_ring_cap (update k.ring k.ring_head (pending k)) (start k + 1)) more
    ∙ window-push log_ring_cap k.ring (start k + 1) (k.ring_len - 1) k.ring_head (pending k)
        (omega (arith, whole)) (omega (arith, v.head_in, whole))
    ∙ ap (λ es. drop_first es ++ pending k ∷ [])
        (sym (window_uncons log_ring_cap k.ring (start k) k.ring_len (omega (arith, whole))))

-- A committed line is the newest of the history, which keeps the 128 newest; the ring stays well
-- formed, and the builder is closed. Without a line begun nothing changes.
pub end-remember :
    (k : Klog)
    → IsLog k
    → let k' = end k in
      (entries k' ≡ (if k.line_active then remember (entries k) (pending k) else entries k))
      × IsLog k'
      × (k'.line_active ≡ false)
unfolding end
end-remember k v = ground (
  arith,
  room k v,
  full k v,
  length-window log_ring_cap k.ring (start k) k.ring_len,
  v.head_in,
  v.len_in,
  v.line_in,
)

byte_kept :
    (b : ℕ) (k : Klog)
    → append_byte b k
      ≡ record k { line = (append_byte b k).line; line_len = (append_byte b k).line_len }
unfolding append_byte
byte_kept b k = ground arith

-- An append touches the line and its length only.
bytes_kept :
    (bytes : List ℕ) (k : Klog)
    → append_bytes bytes k
      ≡ record k { line = (append_bytes bytes k).line; line_len = (append_bytes bytes k).line_len }
unfolding append_bytes
bytes_kept [] k = refl
bytes_kept (b ∷ bytes) k =
    bytes_kept bytes (append_byte b k)
    ∙ ap {A = Klog} {B = Klog}
        (λ t. record t {
          line = (append_bytes bytes (append_byte b k)).line;
          line_len = (append_bytes bytes (append_byte b k)).line_len;
        })
        (byte_kept b k)

bytes_len :
    (bytes : List ℕ) (k : Klog)
    → k.line_len ≤ log_msg_max
    → (append_bytes bytes k).line_len ≤ log_msg_max
unfolding append_bytes
bytes_len [] k le = le
bytes_len (b ∷ bytes) k le = bytes_len bytes (append_byte b k) (append_byte-len b k le)

-- What `log` commits: the level, the facility, the tick, and the bytes of the message that end no
-- line, at most 160 of them.
pub IsCommitted : ℕ → ℕ → List ℕ → Klog → LogEntry → Type 0
IsCommitted level facility msg k e =
    (e.level ≡ level)
    × (e.facility ≡ facility)
    × (e.tick ≡ k.ticks)
    × (text e.msg e.len ≡ take log_msg_max (printable msg))

-- `log` adds one line to the history, with the level, the facility and the tick, and with those
-- bytes of the message that end no line, cut to 160; the ring stays well formed.
pub log-remember :
    (level facility : ℕ) (msg : List ℕ) (k : Klog)
    → IsLog k
    → (e : LogEntry) × (entries (log level facility msg k) ≡ remember (entries k) e)
      × IsCommitted level facility msg k e
      × IsLog (log level facility msg k)
unfolding log s begin IsCommitted
log-remember level facility msg k v =
    let done = end-remember built built-IsLog in
    (
      pending built,
      done.0
          ∙ ap
              (λ active. if active then remember (entries built) (pending built) else entries built)
              (ap (λ t. t.line_active) same)
          ∙ ap (λ t. remember (entries t) (pending built)) same,
      (
        ap (λ t. t.line_level) same,
        ap (λ t. t.line_fac) same,
        ap (λ t. t.ticks) same,
        ap (text built.line) small ∙ line_text-append_bytes msg begun (omega arith),
      ),
      done.1,
    )
  where
    begun : Klog
    begun = record k { line_active = true; line_level = level; line_fac = facility; line_len = 0 }

    built : Klog
    built = append_bytes msg begun

    same : built ≡ record begun { line = built.line; line_len = built.line_len }
    same = bytes_kept msg begun

    built-len : built.line_len ≤ log_msg_max
    built-len = bytes_len msg begun (omega arith)

    built-IsLog : IsLog built
    built-IsLog = record {
      head_in = omega (arith, ap (λ t. t.ring_head) same, v.head_in);
      len_in = omega (arith, ap (λ t. t.ring_len) same, v.len_in);
      line_in = built-len;
    }

    small : built.line_len % 2 ^ 16 ≡ built.line_len
    small = omega (arith, built-len)

dump_from-window :
    (n i : ℕ) (k : Klog) → dump_from n i k ≡ map printed (window log_ring_cap k.ring i n)
unfolding dump_from
dump_from-window zero i k = refl
dump_from-window (suc n) i k =
    ap (◌∷◌ (printed (k.ring (i % log_ring_cap)))) (dump_from-window n (i + 1) k)

-- `dump` prints the whole history, oldest line first.
pub dump-entries : (k : Klog) → dump k ≡ map printed (entries k)
unfolding dump
dump-entries k =
    dump_from-window k.ring_len (start k % log_ring_cap) k
    ∙ ap (map printed) (window_mod log_ring_cap k.ring (start k) k.ring_len)
