-- ===== src/Prelude/Find.antt =====
-- The first index in a range that passes a test, as the table scans of the kernel look for it.
use Prim.Native.Nat.{ℕ, zero, suc, ◌+◌, ◌≤◌, ◌<◌}
use mathlib.Core.Path.{◌≡◌, refl, ap, sym, subst, ◌∙◌}
use mathlib.Core.Logic.{inl, inr}
use mathlib.Core.Bool.{Bool, true, false}
use mathlib.Core.Option.{Option, none, some}
use native.Mathlib.Decide.{ℕ_discrete}
use native.Mathlib.Omega.{arith}
use rynex.Prelude.Tests.{if◌then◌else◌, Option-cases, Bool-cases, true_ne_false}

-- The indices `i`, ..., `i + n - 1`.
unfoldable pub find_index : (ℕ → Bool) → ℕ → ℕ → Option ℕ
find_index ok zero i = none
find_index ok (suc n) i = if ok i then some i else find_index ok n (i + 1)

-- What a search may answer: an index in the range that passes, or none where no index does.
abbrev pub Finds : (ℕ → Bool) → ℕ → ℕ → Option ℕ → Type 0
Finds ok n i (some j) = (ok j ≡ true) × (i ≤ j) × (j < i + n)
Finds ok n i none = (j : ℕ) → i ≤ j → j < i + n → ok j ≡ false

extend :
    (ok : ℕ → Bool) (n i : ℕ) (o : Option ℕ)
    → ok i ≡ false
    → Finds ok n (i + 1) o
    → Finds ok (suc n) i o
extend ok n i (some j) fails f = (f.0, omega (arith, f.1), omega (arith, f.2))
extend ok n i none fails f = λ j le lt. elim (ℕ_discrete i j) [
  | yes e ↦ ap ok (sym_at e) ∙ fails
  | no ne ↦ f j (omega arith) (omega arith)
]
  where
    sym_at : {j : ℕ} → i ≡ j → j ≡ i
    sym_at e = omega (arith, e)

pub find_index-Finds : (ok : ℕ → Bool) (n i : ℕ) → Finds ok n i (find_index ok n i)
unfolding find_index
find_index-Finds ok zero i = λ j le lt. absurd (omega arith)
find_index-Finds ok (suc n) i =
    ground (arith, extend ok n i (find_index ok n (i + 1)), find_index-Finds ok n (i + 1))

-- Only what the test says of the indices in the range matters.
pub find_index-congr :
    (f g : ℕ → Bool) (n i : ℕ)
    → ((j : ℕ) → i ≤ j → j < i + n → f j ≡ g j)
    → find_index f n i ≡ find_index g n i
unfolding find_index
find_index-congr f g zero i e = refl
find_index-congr f g (suc n) i e =
    ground (arith, e i, find_index-congr f g n (i + 1) (λ j le lt. e j (omega arith) (omega arith)))

-- The one index in the range that passes is found.
pub find_index_only :
    (ok : ℕ → Bool) (n i j : ℕ)
    → i ≤ j
    → j < i + n
    → ok j ≡ true
    → ((k : ℕ) → i ≤ k → k < i + n → ok k ≡ true → k ≡ j)
    → find_index ok n i ≡ some j
find_index_only ok n i j le lt at only = elim (Option-cases (find_index ok n i)) [
  | inl e ↦
      absurd (true_ne_false (sym at ∙ subst (Finds ok n i) e (find_index-Finds ok n i) j le lt))
  | inr (k, e) ↦
      let (passes, above, below) = subst (Finds ok n i) e (find_index-Finds ok n i) in
      e ∙ ap some (only k above below passes)
]

pub find_index_misses :
    (ok : ℕ → Bool) (n i : ℕ)
    → ((k : ℕ) → i ≤ k → k < i + n → ok k ≡ false)
    → find_index ok n i ≡ none
find_index_misses ok n i fails = elim (Option-cases (find_index ok n i)) [
  | inl e ↦ e
  | inr (k, e) ↦
      let (passes, above, below) = subst (Finds ok n i) e (find_index-Finds ok n i) in
      absurd (true_ne_false (sym passes ∙ fails k above below))
]

-- More indices behind one that is found make no difference.
pub find_index_prefix :
    (ok : ℕ → Bool) (n m i k : ℕ) → find_index ok n i ≡ some k → n ≤ m → find_index ok m i ≡ some k
unfolding find_index
find_index_prefix ok zero m i k e le = absurd (ground (arith, e))
find_index_prefix ok (suc n) zero i k e le = absurd (omega (arith, le))
find_index_prefix ok (suc n) (suc m) i k e le =
    ground (arith, e, find_index_prefix ok n m (i + 1) k)

-- A last index that fails makes no difference.
pub find_index_longer :
    (ok : ℕ → Bool) (n i : ℕ) → ok (i + n) ≡ false → find_index ok (n + 1) i ≡ find_index ok n i
find_index_longer ok n i fails = elim (Option-cases (find_index ok n i)) [
  | inl e ↦
      let none_before = subst (Finds ok n i) e (find_index-Finds ok n i) in
      find_index_misses ok (n + 1) i (λ k le lt. elim (ℕ_discrete k (i + n)) [
        | yes at ↦ ap ok at ∙ fails
        | no ne ↦ none_before k le (omega (arith, lt, ne))
      ])
      ∙ sym e
  | inr (k, e) ↦ find_index_prefix ok n (n + 1) i k e (omega arith) ∙ sym e
]

-- Before the index that is found every index fails.
pub find_index_first :
    (ok : ℕ → Bool) (n i j : ℕ)
    → find_index ok n i ≡ some j
    → (k : ℕ) → i ≤ k
    → k < j
    → ok k ≡ false
unfolding find_index
find_index_first ok zero i j e k le lt = absurd (ground (arith, e))
find_index_first ok (suc n) i j e k le lt = elim (Bool-cases (ok i)) [
  | inl here ↦ absurd (ground (arith, e, here, le, lt))
  | inr fails ↦ elim (ℕ_discrete i k) [
    | yes at ↦ sym (ap ok at) ∙ fails
    | no ne ↦
        find_index_first ok n (i + 1) j (ground (arith, e, fails)) k (omega (arith, le, ne)) lt
  ]
]
