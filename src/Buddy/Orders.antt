-- ===== src/Buddy/Orders.antt =====
-- Orders and alignment in src/memory/buddy.rs: `max_order_for`, `page_align_down`, `page_align_up`,
-- and the address of a block's buddy.
pub mod Laws
use rynex.Prelude.{
  ℕ, zero, suc, ◌+◌, ◌-◌, ◌%◌, ◌^◌, ◌&&◌, bit_and, bit_xor, leb, ◌==◌, if◌then◌else◌,
}
use rynex.Buddy.State.{page_size, max_order, block_size}

-- The loop from order `o` down.
unfoldable pub max_order_from : ℕ → ℕ → ℕ → ℕ
max_order_from zero addr size = 0
max_order_from (suc o) addr size =
    let rest = max_order_from o addr size in
    let bs = block_size (suc o) in if bit_and addr (bs - 1) == 0 && leb bs size then suc o else rest

unfoldable pub max_order_for : ℕ → ℕ → ℕ
max_order_for addr size = max_order_from max_order addr size

-- `addr & !(PAGE_SIZE - 1)`: the low twelve bits are cleared.
unfoldable pub page_align_down : ℕ → ℕ
page_align_down addr = addr - bit_and addr (page_size - 1)

-- The addition wraps.
unfoldable pub page_align_up : ℕ → ℕ
page_align_up addr = page_align_down ((addr + page_size - 1) % 2 ^ 64)

-- The block that a block of order `o` at `cur` is merged with.
abbrev pub buddy_of : ℕ → ℕ → ℕ
buddy_of cur o = bit_xor cur (block_size o)
