-- ===== src/Prelude/Bits.antt =====
-- Exclusive or of a multiple of 2 ^ k with 2 ^ k, and the mask of k ones, at every k.
use Prim.Native.Nat.{digits, bit_xor-bitwise, differ, bit_and, bit_and-bitwise, min}
use Prim.Native.Nat.{ℕ, zero, suc, ◌+◌, ◌-◌, ◌*◌, ◌/◌, ◌%◌, ◌^◌, ◌≤◌, ◌<◌, bit_xor}
use mathlib.Core.Path.{◌≡◌, refl, ap, sym, subst, ◌∙◌}
use mathlib.Core.Logic.{◌⊎◌, inl, inr}
use native.Mathlib.Decide.{ℕ_discrete}
use native.Mathlib.Nat.{
  pow-suc, pow-zero, mul-mod_right, div-add-mod, mul-add-mod_self_left, mod-lt, mod-eq_of_lt,
  mul-one, mul_assoc, le_refl,
}
use native.Mathlib.Omega.{arith}

-- The digit recursion gives the same with any bound that the first number does not exceed.
module _ (z : ℕ → ℕ) (f : ℕ → ℕ → ℕ) where
  bound_grows : (n a b : ℕ) → a ≤ n → digits z f (suc n) a b ≡ digits z f n a b
  bound_grows zero zero b le = refl
  bound_grows (suc n) zero b le = refl
  bound_grows zero (suc a) b le = elim le [ ]
  bound_grows (suc n) (suc a) b le =
      ap (λ high. high * 2 + f (suc a % 2) (b % 2))
        (bound_grows n (suc a / 2) (b / 2) (omega arith))

  settled : (slack a b : ℕ) → digits z f (slack + a) a b ≡ digits z f a a b
  settled zero a b = ap (λ n. digits z f n a b) (omega arith)
  settled (suc slack) a b =
      let e : suc slack + a ≡ suc (slack + a) = omega arith in
      ap (λ n. digits z f n a b) e ∙ bound_grows (slack + a) a b (omega arith) ∙ settled slack a b

  lowest_digit :
      (a b : ℕ)
      → digits z f (suc a) (suc a) b
        ≡ digits z f (suc a / 2) (suc a / 2) (b / 2) * 2 + f (suc a % 2) (b % 2)
  lowest_digit a b =
      let e : a ≡ a - suc a / 2 + suc a / 2 = omega arith in
      ap (λ high. high * 2 + f (suc a % 2) (b % 2))
        (ap (λ n. digits z f n (suc a / 2) (b / 2)) e ∙ settled (a - suc a / 2) (suc a / 2) (b / 2))

bit_xor_digit : (m n : ℕ) → bit_xor m n ≡ bit_xor (m / 2) (n / 2) * 2 + differ (m % 2) (n % 2)
bit_xor_digit zero n = simp bit_xor-bitwise (omega arith)
bit_xor_digit (suc m) n = simp bit_xor-bitwise (lowest_digit (λ y. y) differ m n)

bit_xor-double : (a b : ℕ) → bit_xor (a * 2) (b * 2) ≡ bit_xor a b * 2
bit_xor-double a b =
    let ea : (a * 2) / 2 ≡ a = omega arith in
    let eb : (b * 2) / 2 ≡ b = omega arith in
    let za : (a * 2) % 2 ≡ 0 = omega arith in
    let zb : (b * 2) % 2 ≡ 0 = omega arith in
    bit_xor_digit (a * 2) (b * 2) ∙ rw (ea, eb, za, zb) (omega arith)

bit_xor-scale : (k q : ℕ) → bit_xor (q * 2 ^ k) (2 ^ k) ≡ bit_xor q 1 * 2 ^ k
bit_xor-scale zero q = rw (pow-zero, mul-one, mul-one)
bit_xor-scale (suc k) q = rw (pow-suc, ← mul_assoc, bit_xor-double, bit_xor-scale k q, mul_assoc)

differ-zero : (x : ℕ) → differ x 0 ≡ x
differ-zero zero = refl
differ-zero (suc x) = refl

bit_xor-zero_fuel : (n a : ℕ) → a ≤ n → bit_xor a 0 ≡ a
bit_xor-zero_fuel zero zero h = refl
bit_xor-zero_fuel zero (suc a) h = absurd (omega arith)
bit_xor-zero_fuel (suc n) zero h = refl
bit_xor-zero_fuel (suc n) (suc a) h =
    bit_xor_digit (suc a) 0
    ∙ rw (bit_xor-zero_fuel n (suc a / 2) (omega arith), differ-zero (suc a % 2)) (omega arith)

bit_xor-one_even : (q : ℕ) → q % 2 ≡ 0 → bit_xor q 1 ≡ q + 1
bit_xor-one_even q h =
    bit_xor_digit q 1 ∙ rw (h, bit_xor-zero_fuel (q / 2) (q / 2) (le_refl _)) (omega arith)

bit_xor-one_odd : (q : ℕ) → q % 2 ≡ 1 → bit_xor q 1 ≡ q - 1
bit_xor-one_odd q h =
    bit_xor_digit q 1 ∙ rw (h, bit_xor-zero_fuel (q / 2) (q / 2) (le_refl _)) (omega arith)

pub bit_xor-pow_even : (k q : ℕ) → q % 2 ≡ 0 → bit_xor (q * 2 ^ k) (2 ^ k) ≡ (q + 1) * 2 ^ k
bit_xor-pow_even k q h = bit_xor-scale k q ∙ ap (λ t. t * 2 ^ k) (bit_xor-one_even q h)

pub bit_xor-pow_odd : (k q : ℕ) → q % 2 ≡ 1 → bit_xor (q * 2 ^ k) (2 ^ k) ≡ (q - 1) * 2 ^ k
bit_xor-pow_odd k q h = bit_xor-scale k q ∙ ap (λ t. t * 2 ^ k) (bit_xor-one_odd q h)

bit_and_digit : (m n : ℕ) → bit_and m n ≡ bit_and (m / 2) (n / 2) * 2 + min (m % 2) (n % 2)
bit_and_digit zero n = simp bit_and-bitwise (omega arith)
bit_and_digit (suc m) n = simp bit_and-bitwise (lowest_digit (λ y. 0) min m n)

-- With 0 there is nothing in common.
no_common_digit : (n a : ℕ) → a ≤ n → bit_and a 0 ≡ 0
no_common_digit n zero le = refl
no_common_digit zero (suc a) le = elim le [ ]
no_common_digit (suc n) (suc a) le =
    bit_and_digit (suc a) 0 ∙ rw (no_common_digit n (suc a / 2) (omega arith)) (omega arith)

mod-double : (a m : ℕ) → 0 < m → a % (m * 2) ≡ (a / 2) % m * 2 + a % 2
mod-double a m h =
    ap (λ t. t % (m * 2)) split
    ∙ mul-add-mod_self_left (m * 2) (a / 2 / m) ((a / 2) % m * 2 + a % 2)
    ∙ mod-eq_of_lt (omega (arith, mod-lt (a / 2) h))
  where
    split : a ≡ m * 2 * (a / 2 / m) + ((a / 2) % m * 2 + a % 2)
    split = omega (arith, div-add-mod (a / 2) m)

pub two_pow_pos : (k : ℕ) → 0 < 2 ^ k
two_pow_pos zero = omega arith
two_pow_pos (suc k) = rw pow-suc (omega (arith, two_pow_pos k))

pub bit_and-mask : (k a : ℕ) → bit_and a (2 ^ k - 1) ≡ a % 2 ^ k
bit_and-mask zero a = rw pow-zero (no_common_digit a a (le_refl _) ∙ omega arith)
bit_and-mask (suc k) a =
    let p = two_pow_pos k in
    let e : 2 ^ suc k ≡ 2 ^ k * 2 = pow-suc 2 k in
    let half : (2 ^ k * 2 - 1) / 2 ≡ 2 ^ k - 1 = omega (arith, p) in
    rw e (
      bit_and_digit a (2 ^ k * 2 - 1)
      ∙ rw (half, bit_and-mask k (a / 2)) (omega (arith, p, mod-double a (2 ^ k) p)))

xor_pow_multiple :
    (k q : ℕ)
    → ((bit_xor (q * 2 ^ k) (2 ^ k) ≡ q * 2 ^ k + 2 ^ k) × (q * 2 ^ k % (2 ^ k * 2) ≡ 0))
      ⊎ ((bit_xor (q * 2 ^ k) (2 ^ k) + 2 ^ k ≡ q * 2 ^ k)
          × (bit_xor (q * 2 ^ k) (2 ^ k) % (2 ^ k * 2) ≡ 0))
xor_pow_multiple k q = elim (ℕ_discrete (q % 2) 0) [
  | yes even ↦
      let e : q * 2 ^ k ≡ 2 ^ k * 2 * (q / 2) = omega (arith, ap (λ t. t * 2 ^ k) (half q even)) in
      inl (
        bit_xor-pow_even k q even ∙ omega arith,
        ap (λ t. t % (2 ^ k * 2)) e ∙ mul-mod_right (2 ^ k * 2) (q / 2),
      )
  | no odd ↦
      let r = bit_xor-pow_odd k q (omega arith) in
      let s : q ≡ 1 + 2 * (q / 2) = omega arith in
      let t : q - 1 ≡ 2 * (q / 2) = omega arith in
      let e : (q - 1) * 2 ^ k ≡ 2 ^ k * 2 * (q / 2) = omega (arith, ap (λ t. t * 2 ^ k) t) in
      inr (
        omega (arith, r, e, ap (λ t. t * 2 ^ k) s),
        ap (λ t. t % (2 ^ k * 2)) (r ∙ e) ∙ mul-mod_right (2 ^ k * 2) (q / 2),
      )
]
  where
    half : (q : ℕ) → q % 2 ≡ 0 → q ≡ 2 * (q / 2)
    half q h = omega arith

-- At a multiple of 2 ^ k exclusive or with 2 ^ k goes one step up or down, to the other half of the
-- enclosing multiple of 2 ^ (k + 1).
pub xor_pow_cases :
    (k a : ℕ)
    → a % 2 ^ k ≡ 0
    → ((bit_xor a (2 ^ k) ≡ a + 2 ^ k) × (a % (2 ^ k * 2) ≡ 0))
      ⊎ ((bit_xor a (2 ^ k) + 2 ^ k ≡ a) × (bit_xor a (2 ^ k) % (2 ^ k * 2) ≡ 0))
xor_pow_cases k a h =
    let e : a ≡ (a / 2 ^ k) * 2 ^ k = omega (arith, div-add-mod a (2 ^ k)) in
    subst
      (λ a.
        ((bit_xor a (2 ^ k) ≡ a + 2 ^ k) × (a % (2 ^ k * 2) ≡ 0))
        ⊎ ((bit_xor a (2 ^ k) + 2 ^ k ≡ a) × (bit_xor a (2 ^ k) % (2 ^ k * 2) ≡ 0)))
      (sym e) (xor_pow_multiple k (a / 2 ^ k))
