-- ===== src/Buddy/Tests.antt =====
-- The theorems on src/memory/buddy.rs at small states: 16 pages from 1 MiB on.
use rynex.Prelude.{◌+◌, ◌≤◌, ◌≡◌, refl, arith, true, [], ◌∷◌, some, update}
use rynex.Buddy.State.{Buddy, init}
use rynex.Buddy.Bitmap.{
  used_set, used_mark, track_freed_page, untrack_freed_page, page_type_get, page_type_set,
  pte_refc_inc,
}
use rynex.Buddy.Quarantine.{q_pop, q_pop_from}
use rynex.Buddy.Quarantine.Fifo.{IsQueue}
use rynex.Buddy.FreeList.{free_one, push_block}
use rynex.Buddy.FreeList.Cover.{cover, inside, cover_empty, cover-free_one}
use rynex.Buddy.Alloc.{alloc, alloc_from, try_block, take_block, detach, split, alloc_zeroed_page}
use rynex.Buddy.Alloc.Search.{returned, IsExact, cover-alloc_le, alloc-IsExact}
use rynex.Buddy.Free.{free}
use rynex.Buddy.Free.Keeps.{free_twice}
use rynex.Buddy.Free.Whole.{cover-free}
use rynex.Buddy.Free.Leak.{Lost, reclaimed_page-Lost}

abbrev empty : Buddy
empty = init 0x100000 16

-- One free block of four pages.
abbrev stocked : Buddy
stocked = record empty { free_lists = update (λ _. []) 2 (0x100000 ∷ []) }

-- Two pages at 0x102000 in use as data.
abbrev in_use : Buddy
in_use = record empty { used_bmp = λ w b. true; page_type = λ _. 2 }

-- One page table waits in quarantine, in front of a slot that was cleared.
abbrev waiting : Buddy
waiting = record empty {
  quarantine = update (λ _. 0) 1 0x103000;
  quarantine_head = 2;
  quarantine_count = 2;
}

alloc_splits : (alloc 0 stocked).0 ≡ some 0x100000
unfolding alloc alloc_from try_block
alloc_splits = refl

halves_listed : (alloc 0 stocked).1.free_lists 1 ≡ 0x102000 ∷ []
unfolding alloc alloc_from try_block take_block detach split push_block used_mark untrack_freed_page
    page_type_set
halves_listed = refl

waiting-IsQueue : IsQueue waiting
waiting-IsQueue = omega arith

cover-free_one_example :
    cover (free_one 0x102000 1 empty) 0x103008 ≡ cover empty 0x103008 + inside 1 0x102000 0x103008
cover-free_one_example =
    cover-free_one 0x102000 1 empty (omega arith) refl refl (λ q. ground (arith, cover_empty q))
      0x103008

cover-alloc_example :
    let (result, s') = alloc 0 stocked in
    cover s' 0x100008 + returned 0 result 0x100008 ≤ cover stocked 0x100008
cover-alloc_example = cover-alloc_le 0 stocked 0x100008

alloc-IsExact_example : IsExact 0 stocked (alloc 0 stocked)
alloc-IsExact_example = alloc-IsExact 0 stocked (omega arith) refl

free_twice_example :
    free 0x102000 0 (7, 9) (free 0x102000 1 (5, 6) in_use) ≡ free 0x102000 1 (5, 6) in_use
free_twice_example = free_twice 0x102000 1 0 (5, 6) (7, 9) in_use (omega arith)

cover-free_example :
    cover (free 0x102000 1 (5, 6) in_use) 0x103008
    ≡ cover in_use 0x103008 + inside 1 0x102000 0x103008
unfolding track_freed_page used_set page_type_get
cover-free_example =
    cover-free 0x102000 1 (5, 6) in_use 0x103008 (omega arith) refl refl refl refl refl refl
      (λ q. ground (arith, cover_empty q))

popped : q_pop waiting ≡ (some 0x103000, (q_pop waiting).1)
unfolding q_pop q_pop_from pte_refc_inc
popped = refl

reclaimed_page-Lost_example :
    let (result, t) = alloc_zeroed_page waiting in
    (result ≡ some 0x103000) × Lost 0x103000 t (free 0x103000 0 (5, 6) t)
unfolding q_pop q_pop_from pte_refc_inc
reclaimed_page-Lost_example =
    reclaimed_page-Lost 0x103000 (5, 6) waiting (q_pop waiting).1 popped (omega arith) refl
