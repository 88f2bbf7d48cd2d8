-- ===== src/Buddy/Free/Whole.antt =====
-- `free` of src/memory/buddy.rs as a whole: the pages of a block that is in use go back to the free
-- lists; a page table that came out of the quarantine does not.
use rynex.Prelude.{ℕ, ◌+◌, ◌≤◌, ◌≡◌, ap, ◌∙◌, arith, true, false, ◌==◌, ◌&&◌}
use rynex.Buddy.State.{Buddy, max_order, is_managed, page_index, page_type_pte, page_type_free}
use rynex.Buddy.Bitmap.{
  track_freed_page, used_clear, used_set, page_type_set, page_type_get, df_record,
}
use rynex.Buddy.FreeList.Cover.{cover, cover_lists, inside, cover-free_one}
use rynex.Buddy.Orders.Laws.{IsAligned}
use rynex.Buddy.Audit.{audit_free_lists, maybe_audit}
use rynex.Buddy.Reserve.{is_reserved}
use rynex.Buddy.Free.{release, free, is_double_free}

-- What placing a block depends on stays the same.
abbrev SamePlaces : Buddy → Buddy → Type 0
SamePlaces s t =
    (t.free_lists ≡ s.free_lists)
    × (t.base ≡ s.base)
    × (t.pages ≡ s.pages)
    × (t.used_bmp ≡ s.used_bmp)
    × (t.page_type ≡ s.page_type)
    × (t.reserved ≡ s.reserved)

track-SamePlaces : (addr : ℕ) (s : Buddy) → SamePlaces s (track_freed_page addr s).1
unfolding track_freed_page
track-SamePlaces addr s = ground arith

lists-maybe_audit : (s : Buddy) → (maybe_audit s).free_lists ≡ s.free_lists
unfolding maybe_audit audit_free_lists
lists-maybe_audit s = ground arith

abbrev cleared : ℕ → ℕ → ℕ × ℕ → Buddy → Buddy
cleared addr order (caller, tick) s =
    df_record (page_index s addr) caller tick order
      (page_type_set addr page_type_free (used_clear (page_index s addr) s))

places-cleared :
    (addr order : ℕ) (site : ℕ × ℕ) (s : Buddy)
    → let t = cleared addr order site s in
      (t.free_lists ≡ s.free_lists) × (t.base ≡ s.base) × (t.pages ≡ s.pages)
unfolding df_record page_type_set used_clear
places-cleared addr order (caller, tick) s = ground arith

cover-release :
    (addr order : ℕ) (site : ℕ × ℕ) (s : Buddy) (p : ℕ)
    → order ≤ max_order
    → IsAligned order addr
    → is_managed s addr ≡ true
    → order == 0 && page_type_get s addr == page_type_pte ≡ false
    → ((q : ℕ) → cover s q + inside order addr q ≤ 1)
    → cover (release addr order site s) p ≡ cover s p + inside order addr p
unfolding release
cover-release addr order (caller, tick) s p h al managed general once =
    let t = cleared addr order (caller, tick) s in
    let c = places-cleared addr order (caller, tick) s in
    let same : (q : ℕ) → cover t q ≡ cover s q = λ q. ap (λ l. cover_lists l q) c.0 in
    let m : is_managed t addr ≡ true = rw (c.1, c.2) managed in
    rw general (
      cover-free_one addr order t h al m (λ q. omega (arith, same q, once q)) p
      ∙ omega (arith, same p))

in_use_transport :
    (addr : ℕ) (s t : Buddy)
    → SamePlaces s t
    → (is_double_free t addr ≡ is_double_free s addr)
      × (is_reserved t addr ≡ is_reserved s addr)
      × (page_type_get t addr ≡ page_type_get s addr)
      × (is_managed t addr ≡ is_managed s addr)
unfolding used_set page_type_get
in_use_transport addr s t (a, b, c, d, e, f) = ground arith

-- `free` of a block that is in use, holds no page table, is not reserved and overlaps no free block
-- gives back exactly its pages: every address of it is covered once more, every other address as
-- often as before.
pub cover-free :
    (addr order : ℕ) (site : ℕ × ℕ) (s : Buddy) (p : ℕ)
    → order ≤ max_order
    → IsAligned order addr
    → is_managed s addr ≡ true
    → (track_freed_page addr s).0 ≡ false
    → is_reserved s addr ≡ false
    → is_double_free s addr ≡ false
    → order == 0 && page_type_get s addr == page_type_pte ≡ false
    → ((q : ℕ) → cover s q + inside order addr q ≤ 1)
    → cover (free addr order site s) p ≡ cover s p + inside order addr p
unfolding free
cover-free addr order site s p h al managed fresh kept used general once =
    let s1 = (track_freed_page addr s).1 in
    let places = track-SamePlaces addr s in
    let same : (q : ℕ) → cover s1 q ≡ cover s q = λ q. ap (λ l. cover_lists l q) places.0 in
    let read = in_use_transport addr s s1 places in
    let keeps : is_reserved s1 addr ≡ false = read.1 ∙ kept in
    let uses : is_double_free s1 addr ≡ false = read.0 ∙ used in
    let released =
      cover-release addr order site s1 p h al (read.3 ∙ managed) (rw (read.2) general)
        (λ q. omega (arith, same q, once q)) in
    rw (fresh, keeps, uses)
      (ap (λ l. cover_lists l p) (lists-maybe_audit (release addr order site s1))
        ∙ released
        ∙ omega (arith, same p))
