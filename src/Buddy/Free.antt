-- ===== src/Buddy/Free.antt =====
-- `free` and `free_reserved` of src/memory/buddy.rs, BUDDY_LOCK held.
pub mod Keeps
pub mod Whole
pub mod Leak
use rynex.Prelude.{ℕ, ◌-◌, Bool, true, false, not, ◌&&◌, ◌||◌, ◌==◌, if◌then◌else◌}
use rynex.Buddy.State.{Buddy, page_type_free, page_type_pte, page_index}
use rynex.Buddy.Bitmap.{
  used_set, used_clear, track_freed_page, page_type_get, page_type_set, pte_refc_dec, df_record,
}
use rynex.Buddy.Quarantine.{q_push}
use rynex.Buddy.FreeList.{free_one}
use rynex.Buddy.Audit.{maybe_audit}
use rynex.Buddy.Reserve.{is_reserved, unreserve}

-- A page-table page whose count has reached 0 goes to the quarantine, or to the free lists if that
-- is full.
unfoldable pub release_pte : ℕ → Buddy → Buddy
release_pte addr s =
    let (last, s') = pte_refc_dec addr s in
    let (queued, s'') = q_push addr s' in
    let full = free_one addr 0 s'' in if last then (if queued then s'' else full) else s'

-- What `free` and `free_reserved` share: a page that is not in use, or free by its type, is a double
-- free, which is only logged. `site` is the return address and the tick.
unfoldable pub release : ℕ → ℕ → ℕ × ℕ → Buddy → Buddy
release addr order (caller, tick) s =
    let pidx = page_index s addr in
    let old_type = page_type_get s addr in
    let s' =
      df_record pidx caller tick order (page_type_set addr page_type_free (used_clear pidx s)) in
    let to_quarantine = release_pte addr s' in
    let to_lists = free_one addr order s' in
    if order == 0 && old_type == page_type_pte then to_quarantine else to_lists

abbrev pub is_double_free : Buddy → ℕ → Bool
is_double_free s addr =
    not (used_set s (page_index s addr)) || page_type_get s addr == page_type_free

unfoldable pub free : ℕ → ℕ → ℕ × ℕ → Buddy → Buddy
free addr order site s =
    let (tracked, s1) = track_freed_page addr s in
    let s2 = if is_reserved s1 addr then (unreserve addr s1).1 else s1 in
    let done = maybe_audit (release addr order site s2) in
    if tracked then s1 else if is_double_free s2 addr then s2 else done

-- `false` if the page is not reserved.
unfoldable pub free_reserved : ℕ → ℕ → ℕ × ℕ → Buddy → Bool × Buddy
free_reserved addr order site s =
    let (found, s') = unreserve addr s in
    let done = release addr order site s' in
    if found then (true, if is_double_free s' addr then s' else done) else (false, s')
