-- ===== src/Buddy/Quarantine/Fifo.antt =====
-- The quarantine of src/memory/buddy.rs as a bounded queue of page addresses.
use rynex.Prelude.{
  ℕ, zero, suc, ◌+◌, ◌-◌, ◌%◌, ◌≤◌, ◌<◌, ◌≡◌, refl, ap, sym, ◌∙◌, ◌≢◌, arith, Bool, List, [], ◌∷◌,
  ◌++◌, Option, none, some, update, if◌then◌else◌, ltb, length,
}
use mathlib.Core.Path.{ap₂}
use native.Mathlib.Nat.{mod-mod}
use rynex.Prelude.Ring.{window, length-window, window_from, window_uncons, window-push, window-pop}
use rynex.Buddy.State.{Buddy}
use rynex.Buddy.Bitmap.{pte_refc_inc}
use rynex.Buddy.Quarantine.{quarantine_max_cap, q_push, q_index, q_valid, q_drop, q_pop_from, q_pop}

pub record IsQueue (s : Buddy) : Type 0 where
  pub cap_fixed : s.quarantine_cap ≡ quarantine_max_cap
  pub head_in : s.quarantine_head < quarantine_max_cap
  pub count_in : s.quarantine_count ≤ quarantine_max_cap

-- Where the oldest entry stands, before reduction.
abbrev start : Buddy → ℕ
start s = s.quarantine_head + quarantine_max_cap - s.quarantine_count

-- The pages in quarantine, oldest first.
abbrev pub contents : Buddy → List ℕ
contents s = window quarantine_max_cap s.quarantine (start s) s.quarantine_count

-- The first entry that passes the test, and what stands behind it; the others are dropped.
pub first_valid : (ℕ → Bool) → List ℕ → Option ℕ × List ℕ
first_valid ok [] = (none, [])
first_valid ok (x ∷ xs) = if ok x then (some x, xs) else first_valid ok xs

pushed :
    (a : ℕ) (s : Buddy)
    → IsQueue s
    → s.quarantine_count < quarantine_max_cap
    → window quarantine_max_cap
        (update s.quarantine (s.quarantine_head % quarantine_max_cap) a)
        ((s.quarantine_head + 1) % s.quarantine_cap + quarantine_max_cap - (s.quarantine_count + 1))
        (s.quarantine_count + 1)
      ≡ contents s ++ a ∷ []
pushed a s v room =
    ap
      (λ cap.
        window quarantine_max_cap (update s.quarantine (s.quarantine_head % quarantine_max_cap) a)
          ((s.quarantine_head + 1) % cap + quarantine_max_cap - (s.quarantine_count + 1))
          (s.quarantine_count + 1))
      v.cap_fixed
    ∙ window_from quarantine_max_cap
        (update s.quarantine (s.quarantine_head % quarantine_max_cap) a)
        ((s.quarantine_head + 1) % quarantine_max_cap
          + quarantine_max_cap
          - (s.quarantine_count + 1))
        (start s) (s.quarantine_count + 1) (omega (arith, v.head_in, v.count_in))
    ∙ window-push quarantine_max_cap s.quarantine (start s) s.quarantine_count
        (s.quarantine_head % quarantine_max_cap) a room (omega (arith, v.head_in, v.count_in))

-- `q_push` appends the page and says so, or leaves the queue and refuses where it holds 1024; it
-- keeps the ring well formed.
pub q_push_fifo :
    (a : ℕ) (s : Buddy)
    → IsQueue s
    → let (b, s') = q_push a s in
      (b ≡ ltb (length (contents s)) quarantine_max_cap)
      × (contents s' ≡ (if b then contents s ++ a ∷ [] else contents s))
      × IsQueue s'
unfolding q_push
q_push_fifo a s v = ground (
  arith,
  length-window quarantine_max_cap s.quarantine (start s) s.quarantine_count,
  pushed a s v,
)

q_drop-IsQueue : (s : Buddy) → IsQueue s → IsQueue (q_drop s)
q_drop-IsQueue s v = record {
  cap_fixed = v.cap_fixed;
  head_in = v.head_in;
  count_in = omega (arith, v.count_in);
}

index_start : (s : Buddy) → IsQueue s → q_index s ≡ start s % quarantine_max_cap
index_start s v = rw v.cap_fixed (mod-mod (start s) quarantine_max_cap)

uncons :
    (s : Buddy)
    → IsQueue s
    → s.quarantine_count ≢ 0
    → contents s ≡ s.quarantine (q_index s) ∷ contents (q_drop s)
uncons s v ne =
    window_uncons quarantine_max_cap s.quarantine (start s) s.quarantine_count ne
    ∙ ap₂ ◌∷◌ (ap s.quarantine (sym (index_start s v))) (
        sym (
          window_from quarantine_max_cap (q_drop s).quarantine (start (q_drop s)) (start s + 1)
            (s.quarantine_count - 1) (omega (arith, v.count_in))
          ∙ window-pop quarantine_max_cap s.quarantine (start s) (s.quarantine_count - 1)
              (q_index s) 0 (omega arith) (index_start s v)))

contents-refc : (a : ℕ) (s : Buddy) → contents (pte_refc_inc a s) ≡ contents s
unfolding pte_refc_inc
contents-refc a s = ground arith

IsQueue-refc : (a : ℕ) (s : Buddy) → IsQueue s → IsQueue (pte_refc_inc a s)
unfolding pte_refc_inc
IsQueue-refc a s v = ground arith

-- What a call of `q_pop` gives, as a step of the queue.
abbrev pub Pops : Buddy → Option ℕ × Buddy → Type 0
Pops s (result, s') =
    (◌≡◌ {A = Option ℕ × List ℕ} (result, contents s') (first_valid (q_valid s) (contents s)))
    × IsQueue s'

q_pop_from-Pops : (n : ℕ) (s : Buddy) → IsQueue s → s.quarantine_count ≡ n → Pops s (q_pop_from n s)
unfolding q_pop_from first_valid
q_pop_from-Pops zero s v e =
    (ap (λ l. (none, l)) empty ∙ ap (first_valid (q_valid s)) (sym empty), v)
  where
    empty : contents s ≡ []
    empty = ap (window quarantine_max_cap s.quarantine (start s)) e
q_pop_from-Pops (suc n) s v e =
    let ne : s.quarantine_count ≢ 0 = omega arith in
    let rest = q_pop_from-Pops n (q_drop s) (q_drop-IsQueue s v) (omega (arith, e)) in
    ground (
      arith,
      uncons s v ne,
      contents-refc (s.quarantine (q_index s)) (q_drop s),
      IsQueue-refc (s.quarantine (q_index s)) (q_drop s) (q_drop-IsQueue s v),
    )

-- `q_pop` returns the oldest page in quarantine that is a managed address, and none if there is
-- none; it drops the entries in front of it and keeps those behind it, in order, and keeps the ring
-- well formed.
pub q_pop_fifo : (s : Buddy) → IsQueue s → Pops s (q_pop s)
unfolding q_pop
q_pop_fifo s v = q_pop_from-Pops s.quarantine_count s v refl
