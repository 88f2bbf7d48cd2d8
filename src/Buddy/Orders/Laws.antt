-- ===== src/Buddy/Orders/Laws.antt =====
-- Alignment, and where buddies lie, in src/memory/buddy.rs.
use native.Mathlib.Nat.{pow-suc}
use mathlib.Core.Path.{subst}
use native.Mathlib.Decide.{ℕ_discrete}
use rynex.Prelude.{
  Bool, ℕ, zero, suc, ◌+◌, ◌-◌, ◌*◌, ◌%◌, ◌^◌, ◌≤◌, ◌<◌, ◌≡◌, refl, ◌⊎◌, inl, inr, arith, bit_and,
  Bool-cases, leb, ◌==◌, ◌&&◌, false,
}
use rynex.Prelude.Bits.{bit_and-mask, xor_pow_cases, two_pow_pos}
use rynex.Buddy.State.{page_size, max_order, block_size}
use rynex.Buddy.Orders.{max_order_from, max_order_for, page_align_down, page_align_up, buddy_of}

-- `block_size` is a power of two, and doubles.
pub block_size-pow : (o : ℕ) → block_size o ≡ 2 ^ (12 + o)
block_size-pow zero = refl
block_size-pow (suc o) =
    let e : 12 + suc o ≡ suc (12 + o) = omega arith in
    rw (e, pow-suc, pow-suc) (omega (arith, block_size-pow o))

pub block_size-suc : (o : ℕ) → block_size (suc o) ≡ block_size o * 2
block_size-suc o = rw pow-suc (omega arith)

pub block_size-pos : (o : ℕ) → 0 < block_size o
block_size-pos o = omega (arith, two_pow_pos o)

pub bit_and-block : (o addr : ℕ) → bit_and addr (block_size o - 1) ≡ addr % block_size o
bit_and-block o addr = rw block_size-pow (bit_and-mask (12 + o) addr)

-- A block lies at a multiple of its size.
abbrev pub IsAligned : ℕ → ℕ → Type 0
IsAligned o addr = addr % block_size o ≡ 0

-- An aligned block's buddy is the other half of the block of the next order, which starts at the
-- lower of the two.
pub buddy_cases :
    (o cur : ℕ)
    → IsAligned o cur
    → ((buddy_of cur o ≡ cur + block_size o) × IsAligned (suc o) cur)
      ⊎ ((buddy_of cur o + block_size o ≡ cur) × IsAligned (suc o) (buddy_of cur o))
buddy_cases o cur h =
    rw (block_size-suc o, block_size-pow o)
      (xor_pow_cases (12 + o) cur (rw (block_size-pow o) at h))

abbrev pub Fits : ℕ → ℕ → ℕ → Type 0
Fits addr size o = IsAligned o addr × (block_size o ≤ size)

-- The order that the loop finds from `n` down.
pub record IsBest (n addr size o : ℕ) : Type 0 where
  pub bounded : o ≤ n
  pub fits : 0 < o → Fits addr size o
  pub greatest : (o' : ℕ) → o < o' → o' ≤ n → ¬ Fits addr size o'

max_order_from-IsBest : (n addr size : ℕ) → IsBest n addr size (max_order_from n addr size)
unfolding max_order_from
max_order_from-IsBest zero addr size = record {
  bounded = omega arith;
  fits = λ p. absurd (omega arith);
  greatest = λ o' p q. absurd (omega arith);
}
max_order_from-IsBest (suc n) addr size =
    let rest = max_order_from-IsBest n addr size in
    elim (Bool-cases test) [
      | inl hit ↦
          rw (hit, max_order_from)
            (record {
              bounded = omega arith;
              fits = λ _. ground (arith, bit_and-block (suc n) addr);
              greatest = λ o' p q. absurd (omega arith);
            })
      | inr miss ↦
          rw (miss, max_order_from)
            (record {
              bounded = omega (arith, rest.bounded);
              fits = rest.fits;
              greatest = λ o' p q f. elim (ℕ_discrete o' (suc n)) [
                | yes e ↦ no_fit (subst (Fits addr size) e f) miss
                | no ne ↦ rest.greatest o' p (omega arith) f
              ];
            })
    ]
  where
    test : Bool
    test = bit_and addr (block_size (suc n) - 1) == 0 && leb (block_size (suc n)) size

    no_fit : Fits addr size (suc n) → test ≡ false → ⊥
    no_fit f miss = ground (arith, bit_and-block (suc n) addr)

-- `max_order_for` returns an order up to `MAX_ORDER` at which a block at `addr` is aligned and no
-- larger than `size` (unless it is 0), and no greater order up to `MAX_ORDER` has both.
pub max_order_for-IsBest : (addr size : ℕ) → IsBest max_order addr size (max_order_for addr size)
unfolding max_order_for
max_order_for-IsBest addr size = max_order_from-IsBest max_order addr size

-- Rounding: the result is the greatest multiple of the page size up to `addr`, and the least one
-- from `addr` on, while the addition does not wrap.
pub page_align_bounds :
    (addr : ℕ)
    → addr + page_size ≤ 2 ^ 64
    → (page_align_down addr % page_size ≡ 0)
      × (page_align_down addr ≤ addr)
      × (addr < page_align_down addr + page_size)
      × (page_align_up addr % page_size ≡ 0)
      × (addr ≤ page_align_up addr)
      × (page_align_up addr < addr + page_size)
unfolding page_align_down page_align_up
page_align_bounds addr h =
    omega (arith, bit_and-mask 12 addr, bit_and-mask 12 ((addr + page_size - 1) % 2 ^ 64))
