-- ===== src/Buddy/Free/Keeps.antt =====
-- A page that has been freed, in src/memory/buddy.rs: the tracker's bit outlives the call.
use rynex.Prelude.{ℕ, zero, suc, ◌+◌, ◌-◌, ◌<◌, ◌≡◌, refl, ◌∙◌, arith, true, if◌then◌else◌, ltb}
use rynex.Buddy.State.{Buddy, max_order, max_refc_pages, phys_to_idx, page_index, page_type_free}
use rynex.Buddy.Bitmap.{track_freed_page, used_clear, page_type_set, df_record, pte_refc_dec}
use rynex.Buddy.Quarantine.{q_push}
use rynex.Buddy.FreeList.{push_block, remove_from_list, merge, push_unless_there, free_one}
use rynex.Buddy.Orders.{buddy_of}
use rynex.Buddy.Audit.{audit_free_lists, maybe_audit}
use rynex.Buddy.Reserve.{unreserve, is_reserved}
use rynex.Buddy.Free.{release_pte, release, free}

-- The two states agree on what the tracker reads.
abbrev Tracks : Buddy → Buddy → Type 0
Tracks s t = (t.freed_bmp ≡ s.freed_bmp) × (t.base ≡ s.base)

trans : (s t u : Buddy) → Tracks s t → Tracks t u → Tracks s u
trans s t u (a, b) (c, d) = (c ∙ a, d ∙ b)

push_block-Tracks : (o a : ℕ) (s : Buddy) → Tracks s (push_block o a s)
unfolding push_block
push_block-Tracks o a s = (refl, refl)

remove-Tracks : (o a : ℕ) (s : Buddy) → Tracks s (remove_from_list o a s)
unfolding remove_from_list
remove-Tracks o a s = ground arith

merge-Tracks : (n cur o : ℕ) (s : Buddy) → Tracks s (merge n cur o s).2
unfolding merge
merge-Tracks zero cur o s = (refl, refl)
merge-Tracks (suc n) cur o s =
    let b = buddy_of cur o in
    ground (
      arith,
      remove-Tracks o b s,
      merge-Tracks n (if ltb cur b then cur else b) (o + 1) (remove_from_list o b s),
    )

there-Tracks : (r : ℕ × ℕ × Buddy) → Tracks r.2 (push_unless_there r)
unfolding push_unless_there
there-Tracks (cur, o, s) = ground (arith, push_block-Tracks o cur s)

free_one-Tracks : (a o : ℕ) (s : Buddy) → Tracks s (free_one a o s)
unfolding free_one
free_one-Tracks a o s = ground (
  arith,
  push_block-Tracks 0 a s,
  merge-Tracks (max_order - o) a o s,
  there-Tracks (merge (max_order - o) a o s),
)

maybe_audit-Tracks : (s : Buddy) → Tracks s (maybe_audit s)
unfolding maybe_audit audit_free_lists
maybe_audit-Tracks s = ground arith

release_pte-Tracks : (a : ℕ) (s : Buddy) → Tracks s (release_pte a s)
unfolding release_pte pte_refc_dec q_push
release_pte-Tracks a s = ground (arith, free_one-Tracks a 0 (q_push a (pte_refc_dec a s).1).1)

-- The state of `release` before the page goes anywhere.
abbrev cleared : ℕ → ℕ → ℕ × ℕ → Buddy → Buddy
cleared addr order (caller, tick) s =
    df_record (page_index s addr) caller tick order
      (page_type_set addr page_type_free (used_clear (page_index s addr) s))

cleared-Tracks : (addr order : ℕ) (site : ℕ × ℕ) (s : Buddy) → Tracks s (cleared addr order site s)
unfolding df_record page_type_set used_clear
cleared-Tracks addr order (caller, tick) s = ground arith

release-Tracks : (addr order : ℕ) (site : ℕ × ℕ) (s : Buddy) → Tracks s (release addr order site s)
unfolding release
release-Tracks addr order (caller, tick) s =
    let c = cleared addr order (caller, tick) s in
    ground (
      arith,
      cleared-Tracks addr order (caller, tick) s,
      release_pte-Tracks addr c,
      free_one-Tracks addr order c,
    )

unreserve-Tracks : (addr : ℕ) (s : Buddy) → Tracks s (unreserve addr s).1
unfolding unreserve
unreserve-Tracks addr s = ground arith

-- The state of `free` once the page is recorded and taken off the reserved list.
abbrev freeing : ℕ → Buddy → Buddy
freeing addr s1 = if is_reserved s1 addr then (unreserve addr s1).1 else s1

free-Tracks :
    (addr order : ℕ) (site : ℕ × ℕ) (s : Buddy)
    → Tracks (track_freed_page addr s).1 (free addr order site s)
unfolding free
free-Tracks addr order site s =
    let s1 = (track_freed_page addr s).1 in
    let s2 = freeing addr s1 in
    ground (
      arith,
      unreserve-Tracks addr s1,
      release-Tracks addr order site s2,
      maybe_audit-Tracks (release addr order site s2),
    )

tracked_after :
    (addr : ℕ) (s : Buddy)
    → phys_to_idx s addr < max_refc_pages
    → track_freed_page addr (track_freed_page addr s).1 ≡ (true, (track_freed_page addr s).1)
unfolding track_freed_page
tracked_after addr s h = ground arith

track-transport :
    (addr : ℕ) (s t : Buddy)
    → Tracks s t
    → track_freed_page addr s ≡ (true, s)
    → track_freed_page addr t ≡ (true, t)
unfolding track_freed_page
track-transport addr s t (f, b) h = ground arith

free_of_tracked :
    (addr order : ℕ) (site : ℕ × ℕ) (t : Buddy)
    → track_freed_page addr t ≡ (true, t)
    → free addr order site t ≡ t
unfolding free
free_of_tracked addr order site t h = ground arith

-- Freeing a page a second time, with no allocation in between and whatever the order given, changes
-- nothing at all: for every page that the tracker covers, and from every state.
pub free_twice :
    (addr order order' : ℕ) (site site' : ℕ × ℕ) (s : Buddy)
    → phys_to_idx s addr < max_refc_pages
    → free addr order' site' (free addr order site s) ≡ free addr order site s
free_twice addr order order' site site' s h =
    free_of_tracked addr order' site' (free addr order site s) (
      track-transport addr (track_freed_page addr s).1 (free addr order site s)
        (free-Tracks addr order site s) (tracked_after addr s h))
