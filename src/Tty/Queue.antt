-- ===== src/Tty/Queue.antt =====
-- The input of src/tty.rs as a queue of bytes, and the lines that it gives.
use rynex.Prelude.{
  ℕ, zero, suc, ◌+◌, ◌-◌, ◌%◌, ◌≤◌, ◌<◌, ◌≡◌, ◌≢◌, inl, inr, refl, ap, ap₂, sym, ◌∙◌, arith, Bool,
  true, false, List, [], ◌∷◌, ◌++◌, ◌&&◌, ◌||◌, if◌then◌else◌, ltb_cases,
}
use native.Mathlib.Nat.{mod-eq_of_lt}
use rynex.Prelude.Ring.{window, window_mod, window_uncons}
use rynex.Tty.State.{InputBuffer, tty_buffer_size, ends_line, any_ends_line, advance, pop_loop}

pub record IsInput (i : InputBuffer) : Type 0 where
  pub tail_in : i.tail < tty_buffer_size
  pub count_in : i.count ≤ tty_buffer_size
  pub head_at : i.head ≡ (i.tail + i.count) % tty_buffer_size

-- The bytes that wait, the oldest first.
abbrev pub contents : InputBuffer → List ℕ
contents i = window tty_buffer_size i.buf i.tail i.count

unfoldable pub has_line : List ℕ → Bool
has_line [] = false
has_line (c ∷ q) = ends_line c || has_line q

-- The mark of a complete line is right.
abbrev pub IsReady : InputBuffer → Type 0
IsReady i = i.line_ready ≡ has_line (contents i)

-- What a read of at most `n` bytes takes, and what it leaves: in canonical mode it stops behind the
-- end of a line.
pub first_line : Bool → ℕ → List ℕ → List ℕ × List ℕ
first_line canonical zero q = ([], q)
first_line canonical (suc n) [] = ([], [])
first_line canonical (suc n) (c ∷ q) =
    let (out, rest) = first_line canonical n q in
    if canonical && ends_line c then (c ∷ [], q) else (c ∷ out, rest)

pub any_ends_line-window :
    (buf : ℕ → ℕ) (i n : ℕ) → any_ends_line buf i n ≡ has_line (window tty_buffer_size buf i n)
unfolding any_ends_line has_line
any_ends_line-window buf i zero = refl
any_ends_line-window buf i (suc n) =
    ap (◌||◌ (ends_line (buf (i % tty_buffer_size)))) (any_ends_line-window buf (i + 1) n)

pub has_line-append : (q : List ℕ) (c : ℕ) → has_line (q ++ c ∷ []) ≡ has_line q || ends_line c
unfolding has_line
has_line-append [] c = ground arith
has_line-append (d ∷ q) c = ground (arith, has_line-append q c)

contents_uncons :
    (i : InputBuffer) → IsInput i → i.count ≢ 0 → contents i ≡ i.buf i.tail ∷ contents (advance i)
contents_uncons i v ne =
    window_uncons tty_buffer_size i.buf i.tail i.count ne
    ∙ ap₂ ◌∷◌ (ap i.buf (mod-eq_of_lt v.tail_in))
        (sym (window_mod tty_buffer_size i.buf (i.tail + 1) (i.count - 1)))

pub contents_empty : (i : InputBuffer) → i.count ≡ 0 → contents i ≡ []
contents_empty i e = ap (window tty_buffer_size i.buf i.tail) e

advance-IsInput : (i : InputBuffer) → IsInput i → i.count ≢ 0 → IsInput (advance i)
advance-IsInput i v ne = record {
  tail_in = omega arith;
  count_in = omega (arith, v.count_in);
  head_at = omega (arith, v.head_at, v.tail_in, v.count_in, ne);
}

first_line_empty : (k : Bool) (n : ℕ) → first_line k n [] ≡ ([], [])
unfolding first_line
first_line_empty k zero = refl
first_line_empty k (suc n) = refl

-- What the loop of `pop_input` is to give.
abbrev pub Reads : Bool → ℕ → InputBuffer → List ℕ × InputBuffer → Type 0
Reads k n i (bytes, i') =
    (◌≡◌ {A = List ℕ × List ℕ} (bytes, contents i') (first_line k n (contents i))) × IsInput i'

taken :
    (k : Bool) (n c : ℕ) (i : InputBuffer) (q : List ℕ)
    → contents i ≡ c ∷ q
    → first_line k (suc n) (contents i)
      ≡ (if k && ends_line c then (c ∷ [], q) else (c ∷ (first_line k n q).0, (first_line k n q).1))
unfolding first_line
taken k n c i q e = ap (first_line k (suc n)) e

pub pop_loop-Reads : (k : Bool) (n : ℕ) (i : InputBuffer) → IsInput i → Reads k n i (pop_loop k n i)
unfolding pop_loop first_line
pop_loop-Reads k zero i v = (refl, v)
pop_loop-Reads k (suc n) i v = elim (ltb_cases 0 i.count) [
  | inl some_left ↦
      let ne : i.count ≢ 0 = omega (arith, some_left) in
      let uncons = contents_uncons i v ne in
      let next = advance-IsInput i v ne in
      ground (
        arith,
        taken k n (i.buf i.tail) i (contents (advance i)) uncons,
        pop_loop-Reads k n (advance i) next,
        next,
        ne,
      )
  | inr none_left ↦
      let e : i.count ≡ 0 = omega (arith, none_left) in
      ground (arith, e, contents_empty i e, first_line_empty k (suc n), v)
]

pub pop_loop-IsReady :
    (n : ℕ) (i : InputBuffer) → IsInput i → IsReady i → IsReady (pop_loop true n i).1
unfolding pop_loop has_line
pop_loop-IsReady zero i v r = r
pop_loop-IsReady (suc n) i v r = elim (ltb_cases 0 i.count) [
  | inl some_left ↦
      let ne : i.count ≢ 0 = omega (arith, some_left) in
      let uncons = ap has_line (contents_uncons i v ne) in
      let next = advance-IsInput i v ne in
      ground (
        arith,
        r,
        uncons,
        pop_loop-IsReady n (advance i) next,
        any_ends_line-window i.buf (advance i).tail (advance i).count,
        ne,
      )
  | inr none_left ↦ let e : i.count ≡ 0 = omega (arith, none_left) in ground (arith, e, r)
]
