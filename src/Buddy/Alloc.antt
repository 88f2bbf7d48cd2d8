-- ===== src/Buddy/Alloc.antt =====
-- `alloc` and `alloc_zeroed_page` of src/memory/buddy.rs, BUDDY_LOCK held.
pub mod Cover
pub mod Search
use rynex.Prelude.{
  ℕ, zero, suc, ◌+◌, ◌-◌, Bool, true, false, List, [], ◌∷◌, Option, none, some, ltb, if◌then◌else◌,
  update,
}
use rynex.Buddy.State.{
  Buddy, Header, max_order, page_type_data, page_type_pte, block_size, page_index, phys_to_idx,
}
use rynex.Buddy.Bitmap.{used_mark, untrack_freed_page, page_type_set, pte_refc_inc}
use rynex.Buddy.Quarantine.{q_pop}
use rynex.Buddy.FreeList.{push_block}
use rynex.Buddy.Reserve.{is_reserved}

-- The upper halves of a block that is split go to the lists of the orders from `order + k - 1` down
-- to `order`; a reserved one is dropped.
unfoldable pub split : ℕ → ℕ → ℕ → Buddy → Buddy
split zero order addr s = s
split (suc k) order addr s =
    let so = order + k in
    let buddy = addr + block_size so in
    split k order addr (if is_reserved s buddy then s else push_block so buddy s)

-- The head block of order `o` is taken off its list and entered as used.
unfoldable pub detach : ℕ → ℕ → List ℕ → Buddy → Buddy
detach o addr next s =
    let s1 = record s { header = update s.header addr (record { magic = 0; order = 0 }) } in
    let s2 = untrack_freed_page addr (used_mark (page_index s addr) s1) in
    record s2 { free_lists = update s2.free_lists o next }

-- The head block of order `o` is taken and split down to `order`. (The message on a page that is in
-- use already changes nothing.)
unfoldable pub take_block : ℕ → ℕ → ℕ → List ℕ → Buddy → Buddy
take_block order o addr next s =
    page_type_set addr page_type_data (split (o - order) order addr (detach o addr next s))

-- What the search does at a list with head `addr`: a reserved head is dropped, and the search goes
-- on at the next order only if the list has more blocks.
unfoldable pub try_block :
    ℕ → ℕ → List ℕ → ℕ → (Buddy → Option ℕ × Buddy) → Buddy → Option ℕ × Buddy
try_block order o [] steps next_order s = next_order s
try_block order o (addr ∷ next) steps next_order s =
    let s' = record s { free_lists = update s.free_lists o next } in
    let go_on = next_order s' in
    let stop : Option ℕ × Buddy = (none, s') in
    if ltb 1_000_000 (steps + 1)
    then (none, s)
    else if is_reserved s addr
    then elim next [ [] ↦ stop | _ ∷ _ ↦ go_on ]
    else (some addr, take_block order o addr next s)

abbrev has_block : List ℕ → Bool
has_block [] = false
has_block (_ ∷ _) = true

-- The search over the orders from `o` on, `n` of them; `steps` lists with a block so far.
unfoldable pub alloc_from : ℕ → ℕ → ℕ → ℕ → Buddy → Option ℕ × Buddy
alloc_from zero order o steps s = (none, s)
alloc_from (suc n) order o steps s =
    try_block order o (s.free_lists o) steps
      (alloc_from n order (o + 1) (if has_block (s.free_lists o) then steps + 1 else steps)) s

unfoldable pub alloc : ℕ → Buddy → Option ℕ × Buddy
alloc order s = alloc_from (max_order + 1 - order) order order 0 s

-- What `alloc_zeroed_page` does with a page from the quarantine. (The page is filled with zeros.)
unfoldable pub reclaim : ℕ → Buddy → Buddy
reclaim addr s =
    let s' = untrack_freed_page addr (pte_refc_inc addr (page_type_set addr page_type_pte s)) in
    used_mark (phys_to_idx s' addr) s'

-- What it does with a page that is allocated afresh.
unfoldable pub fresh_pte : Option ℕ × Buddy → Option ℕ × Buddy
fresh_pte (none, s) = (none, s)
fresh_pte (some addr, s) = (some addr, pte_refc_inc addr (page_type_set addr page_type_pte s))

-- The rest of `alloc_zeroed_page`, behind what `q_pop` gave.
unfoldable pub zeroed : Option ℕ × Buddy → Option ℕ × Buddy
zeroed (some addr, s) = (some addr, reclaim addr s)
zeroed (none, s) = fresh_pte (alloc 0 s)

-- The quarantine first, then the free lists.
unfoldable pub alloc_zeroed_page : Buddy → Option ℕ × Buddy
unfolding zeroed
alloc_zeroed_page s = zeroed (q_pop s)
