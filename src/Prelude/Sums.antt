-- ===== src/Prelude/Sums.antt =====
-- Sums of a family of numbers over the indices below a bound.
use Prim.Native.Nat.{ℕ, zero, suc, ◌+◌, ◌≤◌, ◌<◌}
use mathlib.Core.Path.{◌≡◌, refl}
use mathlib.Core.Logic.{◌≢◌}
use native.Mathlib.Decide.{dec_lt}
use native.Mathlib.Omega.{arith}

pub total : ℕ → (ℕ → ℕ) → ℕ
total zero f = 0
total (suc n) f = total n f + f n

pub total-congr : (n : ℕ) (f g : ℕ → ℕ) → ((i : ℕ) → i < n → g i ≡ f i) → total n g ≡ total n f
unfolding total
total-congr zero f g h = refl
total-congr (suc n) f g h =
    omega (arith, total-congr n f g (λ i p. h i (omega arith)), h n (omega arith))

-- Two families that agree but at one index.
pub total-change :
    (n : ℕ) (f g : ℕ → ℕ) (i : ℕ)
    → i < n
    → ((j : ℕ) → i ≢ j → g j ≡ f j)
    → total n g + f i ≡ total n f + g i
unfolding total
total-change zero f g i p h = absurd (omega arith)
total-change (suc n) f g i p h = elim (dec_lt i n) [
  | yes below ↦ omega (arith, total-change n f g i below h, h n (omega arith))
  | no last ↦
      let e : i ≡ n = omega arith in ground (arith, total-congr n f g (λ j q. h j (omega arith)))
]

pub le-total : (n : ℕ) (f : ℕ → ℕ) (i : ℕ) → i < n → f i ≤ total n f
unfolding total
le-total zero f i p = absurd (omega arith)
le-total (suc n) f i p = elim (dec_lt i n) [
  | yes below ↦ omega (arith, le-total n f i below)
  | no last ↦ let e : i ≡ n = omega arith in ground arith
]

pub total_zero : (n : ℕ) → total n (λ _. 0) ≡ 0
unfolding total
total_zero zero = refl
total_zero (suc n) = omega (arith, total_zero n)
