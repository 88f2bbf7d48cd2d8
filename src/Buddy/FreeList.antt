-- ===== src/Buddy/FreeList.antt =====
-- The free lists of src/memory/buddy.rs. A list is the chain of blocks from its head on; the magic
-- number and the order that a block keeps in its page are the field `header`.
pub mod Cover
use rynex.Prelude.{
  ℕ, zero, suc, ◌+◌, ◌-◌, ◌*◌, ◌%◌, ◌^◌, Bool, true, ◌&&◌, List, [], ◌∷◌, ltb, leb, ◌==◌,
  if◌then◌else◌, update, elem, not, length,
}
use rynex.Buddy.State.{
  Buddy, Header, page_size, max_order, magic_value, page_type_pte, block_size, is_managed,
}
use rynex.Buddy.Bitmap.{page_type_get}
use rynex.Buddy.Orders.{max_order_for, buddy_of}

abbrev pub is_on_free_list : Buddy → ℕ → ℕ → Bool
is_on_free_list s addr order = elem addr (s.free_lists order)

-- A block is put at the head of its list, its header written.
unfoldable pub push_block : ℕ → ℕ → Buddy → Buddy
push_block order addr s = record s {
  header = update s.header addr (record { magic = magic_value; order = order });
  free_lists = update s.free_lists order (addr ∷ s.free_lists order);
}

abbrev pub unlink : ℕ → List ℕ → List ℕ
unlink target [] = []
unlink target (x ∷ xs) = if x == target then xs else x ∷ unlink target xs

unfoldable pub remove_from_list : ℕ → ℕ → Buddy → Buddy
remove_from_list order target s =
    if elem target (s.free_lists order)
    then record s {
      free_lists = update s.free_lists order (unlink target (s.free_lists order));
      header = update s.header target (record { magic = 0; order = (s.header target).order });
    }
    else s

-- Whether the buddy's page looks like a free block of this order, and is one.
abbrev pub can_merge : Buddy → ℕ → ℕ → Bool
can_merge s buddy o =
    is_managed s buddy
    && ((s.header buddy).magic == magic_value && (s.header buddy).order == o)
    && is_on_free_list s buddy o

-- The loop of `free_one`, which takes buddies off the lists and grows the block. The rounds left
-- are `MAX_ORDER - o`, so that they end where the loop's first test does.
unfoldable pub merge : ℕ → ℕ → ℕ → Buddy → ℕ × ℕ × Buddy
merge zero cur o s = (cur, o, s)
merge (suc n) cur o s =
    let buddy = buddy_of cur o in
    let lower = if ltb cur buddy then cur else buddy in
    let rest = merge n lower (o + 1) (remove_from_list o buddy s) in
    if can_merge s buddy o then rest else (cur, o, s)

unfoldable pub push_unless_there : ℕ × ℕ × Buddy → Buddy
unfolding push_block
push_unless_there (cur, o, s) = if is_on_free_list s cur o then s else push_block o cur s

unfoldable pub free_one : ℕ → ℕ → Buddy → Buddy
unfolding push_block push_unless_there merge page_type_get
free_one addr order s =
    if not (is_managed s addr)
    then s
    else if order == 0 && page_type_get s addr == page_type_pte
    then push_block 0 addr s
    else push_unless_there (merge (max_order - order) addr order s)

-- The loop of `add_region`; `fuel` rounds.
add_region_from : ℕ → ℕ → ℕ → Buddy → Buddy
unfolding free_one max_order_for
add_region_from zero addr end s = s
add_region_from (suc fuel) addr end s =
    let order = max_order_for addr (end - addr) in
    let rest = add_region_from fuel (addr + block_size order) end (free_one addr order s) in
    if leb (addr + page_size) end then rest else s

-- Each round takes at least a page, so `size` rounds are enough.
pub add_region : ℕ → ℕ → Buddy → Buddy
unfolding add_region_from
add_region start size s = add_region_from size start (start + size) s

unfoldable pub remove_if_free : ℕ → ℕ → Buddy → Buddy
unfolding remove_from_list
remove_if_free addr order s =
    if (s.header addr).magic == magic_value && (s.header addr).order == order
    then remove_from_list order addr s
    else s

-- The loop of `mark_allocated`; `fuel` rounds.
unfoldable pub mark_allocated_from : ℕ → ℕ → ℕ → Buddy → Buddy
unfolding remove_if_free max_order_for
mark_allocated_from zero addr end s = s
mark_allocated_from (suc fuel) addr end s =
    let order = max_order_for addr (end - addr) in
    let rest =
      mark_allocated_from fuel (addr + block_size order) end (remove_if_free addr order s) in
    if ltb addr end then rest else s

unfoldable pub mark_allocated : ℕ → ℕ → Buddy → Buddy
unfolding mark_allocated_from
mark_allocated start size s = mark_allocated_from size start (start + size) s

-- The pages of the blocks in the lists of the orders below `n`.
pub free_pages_below : ℕ → Buddy → ℕ
free_pages_below zero s = 0
free_pages_below (suc o) s = free_pages_below o s + 2 ^ o * length (s.free_lists o)

pub free_page_count : Buddy → ℕ
unfolding free_pages_below
free_page_count s = free_pages_below (max_order + 1) s

pub free_pages_by_order : Buddy → ℕ → ℕ
free_pages_by_order s o = length (s.free_lists o)
