-- ===== src/Keyboard/Ring.antt =====
-- The ring of src/keyboard.rs as a queue of at most 255 characters, and its counter.
use rynex.Prelude.{
  ℕ, zero, suc, ◌+◌, ◌-◌, ◌%◌, ◌^◌, ◌<◌, ◌≡◌, ◌≢◌, refl, ap, ap₂, sym, ◌∙◌, arith, true, List, [],
  ◌∷◌, ◌++◌, Option, none, some, ltb, if◌then◌else◌, update, length, length-append,
}
use native.Mathlib.Nat.{mod-eq_of_lt}
use rynex.Prelude.Ring.{window, window-push, window_mod, window_uncons, length-window}
use rynex.Keyboard.State.{
  Keyboard, buffer_size, ring_push, ring_pop, push_char, counted, pop_char, has_pending_input,
}

pub record IsRing (s : Keyboard) : Type 0 where
  pub head_in : s.ring_head < buffer_size
  pub tail_in : s.ring_tail < buffer_size

abbrev fill : Keyboard → ℕ
fill s = (s.ring_head + buffer_size - s.ring_tail) % buffer_size

-- The characters that wait, the oldest first.
abbrev pub waiting : Keyboard → List ℕ
waiting s = window buffer_size s.ring_buf s.ring_tail (fill s)

abbrev pub drop_first : List ℕ → List ℕ
drop_first [] = []
drop_first (x ∷ xs) = xs

-- A queue that loses its oldest character where it would hold more than 255.
abbrev pub add_char : List ℕ → ℕ → List ℕ
add_char q c = if ltb (length q) 255 then q ++ c ∷ [] else drop_first q ++ c ∷ []

drop_first-length : (q : List ℕ) → length (drop_first q) ≡ length q - 1
drop_first-length [] = refl
drop_first-length (x ∷ q) = omega arith

add_char-length : (q : List ℕ) (c : ℕ) → length q ≡ 255 → length (add_char q c) ≡ 255
add_char-length q c e =
    ground (arith, e, length-append (drop_first q) (c ∷ []), drop_first-length q)

room :
    (c : ℕ) (s : Keyboard)
    → IsRing s
    → fill s < 255
    → window buffer_size
        (update s.ring_buf s.ring_head c)
        s.ring_tail
        (((s.ring_head + 1) % buffer_size + buffer_size - s.ring_tail) % buffer_size)
      ≡ waiting s ++ c ∷ []
room c s v lt =
    ap (window buffer_size (update s.ring_buf s.ring_head c) s.ring_tail) more
    ∙ window-push buffer_size s.ring_buf s.ring_tail (fill s) s.ring_head c (omega (arith, lt))
        (omega (arith, v.head_in, v.tail_in))
  where
    more : ((s.ring_head + 1) % buffer_size + buffer_size - s.ring_tail) % buffer_size ≡ fill s + 1
    more = omega (arith, lt, v.head_in, v.tail_in)

full :
    (c : ℕ) (s : Keyboard)
    → IsRing s
    → fill s ≡ 255
    → window buffer_size (update s.ring_buf s.ring_head c) ((s.ring_tail + 1) % buffer_size) (
        ((s.ring_head + 1) % buffer_size + buffer_size - (s.ring_tail + 1) % buffer_size)
        % buffer_size)
      ≡ drop_first (waiting s) ++ c ∷ []
full c s v e =
    window_mod buffer_size (update s.ring_buf s.ring_head c) (s.ring_tail + 1) (
      ((s.ring_head + 1) % buffer_size + buffer_size - (s.ring_tail + 1) % buffer_size)
      % buffer_size)
    ∙ ap (window buffer_size (update s.ring_buf s.ring_head c) (s.ring_tail + 1)) more
    ∙ window-push buffer_size s.ring_buf (s.ring_tail + 1) (fill s - 1) s.ring_head c
        (omega (arith, e)) (omega (arith, e, v.head_in, v.tail_in))
    ∙ ap (λ q. drop_first q ++ c ∷ [])
        (sym (window_uncons buffer_size s.ring_buf s.ring_tail (fill s) (omega (arith, e))))
  where
    more :
        ((s.ring_head + 1) % buffer_size + buffer_size - (s.ring_tail + 1) % buffer_size)
          % buffer_size
        ≡ fill s - 1 + 1
    more = omega (arith, e, v.head_in, v.tail_in)

next_meets :
    (s : Keyboard)
    → IsRing s
    → ((s.ring_head + 1) % buffer_size ≡ s.ring_tail → fill s ≡ 255)
      × ((s.ring_head + 1) % buffer_size ≢ s.ring_tail → fill s < 255)
next_meets s v =
    (λ e. omega (arith, e, v.head_in, v.tail_in), λ ne. omega (arith, ne, v.head_in, v.tail_in))

-- `push_char` adds the character to the queue, which then loses its oldest one if it held 255, and
-- counts it in either case.
pub push_char-add_char :
    (c : ℕ) (s : Keyboard)
    → IsRing s
    → (waiting (push_char c s) ≡ add_char (waiting s) c)
      × ((push_char c s).key_count ≡ (s.key_count + 1) % 2 ^ 64)
      × IsRing (push_char c s)
unfolding push_char ring_push
push_char-add_char c s v = ground (
  arith,
  (next_meets s v).0,
  (next_meets s v).1,
  room c s v,
  full c s v,
  length-window buffer_size s.ring_buf s.ring_tail (fill s),
  v.head_in,
  v.tail_in,
)

-- What a call of `pop_char` may give.
abbrev pub Pops : Keyboard → Option ℕ × Keyboard → Type 0
Pops s (none, s') = (waiting s ≡ []) × (s' ≡ s)
Pops s (some c, s') =
    (waiting s ≡ c ∷ waiting s') × (s'.key_count ≡ (s.key_count + 2 ^ 64 - 1) % 2 ^ 64) × IsRing s'

nothing_waits : (s : Keyboard) → IsRing s → s.ring_head ≡ s.ring_tail → waiting s ≡ []
nothing_waits s v e =
    let none_left : fill s ≡ 0 = omega (arith, e, v.tail_in) in
    ap (window buffer_size s.ring_buf s.ring_tail) none_left

oldest :
    (s : Keyboard)
    → IsRing s
    → s.ring_head ≢ s.ring_tail
    → waiting s
      ≡ s.ring_buf s.ring_tail
        ∷ window buffer_size s.ring_buf
            ((s.ring_tail + 1) % buffer_size)
            ((s.ring_head + buffer_size - (s.ring_tail + 1) % buffer_size) % buffer_size)
oldest s v ne =
    window_uncons buffer_size s.ring_buf s.ring_tail (fill s)
      (omega (arith, ne, v.head_in, v.tail_in))
    ∙ ap₂ ◌∷◌ (ap s.ring_buf (mod-eq_of_lt v.tail_in)) (
        sym (
          window_mod buffer_size s.ring_buf (s.ring_tail + 1)
            ((s.ring_head + buffer_size - (s.ring_tail + 1) % buffer_size) % buffer_size)
          ∙ ap (window buffer_size s.ring_buf (s.ring_tail + 1)) fewer))
  where
    fewer : (s.ring_head + buffer_size - (s.ring_tail + 1) % buffer_size) % buffer_size ≡ fill s - 1
    fewer = omega (arith, ne, v.head_in, v.tail_in)

popped-IsRing :
    (s : Keyboard)
    → IsRing s
    → IsRing (record s {
      ring_tail = (s.ring_tail + 1) % buffer_size;
      key_count = (s.key_count + 2 ^ 64 - 1) % 2 ^ 64;
    })
popped-IsRing s v = record { head_in = v.head_in; tail_in = omega arith }

-- `pop_char` takes the oldest character out of the queue and counts it off, or finds the queue empty
-- and changes nothing.
pub pop_char-Pops : (s : Keyboard) → IsRing s → Pops s (pop_char s)
unfolding pop_char ring_pop counted
pop_char-Pops s v = ground (arith, nothing_waits s v, oldest s v, popped-IsRing s v)

-- `n` calls of `pop_char`.
unfoldable pub pop_all : ℕ → Keyboard → Keyboard
pop_all zero s = s
pop_all (suc n) s = pop_all n (pop_char s).1

-- The counter is `extra` above the length of the queue.
abbrev IsOver : ℕ → Keyboard → Type 0
IsOver extra s =
    (s.key_count ≡ length (waiting s) + extra) × (extra + buffer_size < 2 ^ 64) × IsRing s

pop-IsOver :
    (extra : ℕ) (s : Keyboard) (r : Option ℕ × Keyboard)
    → IsOver extra s
    → length (waiting s) ≢ 0
    → Pops s r
    → IsOver extra r.1 × (length (waiting s) ≡ suc (length (waiting r.1)))
pop-IsOver extra s (none, t) o ne p = absurd (ne (ap length p.0))
pop-IsOver extra s (some c, t) (count, small, ring) ne (same, counts, ring') =
    let longer : length (waiting s) ≡ suc (length (waiting t)) = ap length same in
    let counted_off : t.key_count ≡ length (waiting t) + extra = omega (
      arith,
      counts,
      count,
      longer,
      small,
      length-window buffer_size s.ring_buf s.ring_tail (fill s),
    ) in
    ((counted_off, small, ring'), longer)

pop_all-IsOver :
    (n extra : ℕ) (s : Keyboard)
    → IsOver extra s
    → length (waiting s) ≡ n
    → IsOver extra (pop_all n s) × (length (waiting (pop_all n s)) ≡ 0)
unfolding pop_all
pop_all-IsOver zero extra s o e = (o, e)
pop_all-IsOver (suc n) extra s o e =
    let (o', shorter) =
      pop-IsOver extra s (pop_char s) o (omega (arith, e)) (pop_char-Pops s o.2) in
    pop_all-IsOver n extra (pop_char s).1 o' (omega (arith, e, shorter))

-- Where the head and the tail of the ring are in range, 255 characters wait and the counter says
-- so, a character that is typed leaves the counter one too high: when all that waited are read, and
-- the queue is empty, `has_pending_input` still says that there is input.
pub pop_all-push_char :
    (c : ℕ) (s : Keyboard)
    → IsRing s
    → length (waiting s) ≡ 255
    → s.key_count ≡ 255
    → let t = pop_all 255 (push_char c s) in (length (waiting t) ≡ 0) × (has_pending_input t ≡ true)
pop_all-push_char c s v e count =
    let (same, counts, ring) = push_char-add_char c s v in
    let still : length (waiting (push_char c s)) ≡ 255 =
      ap length same ∙ add_char-length (waiting s) c e in
    let (over, none_left) =
      pop_all-IsOver 255 1 (push_char c s) (omega (arith, counts, count, still), omega arith, ring)
        still in
    (none_left, ground (arith, over.0, none_left))
