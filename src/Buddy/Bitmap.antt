-- ===== src/Buddy/Bitmap.antt =====
-- The bitmaps and per-page arrays of src/memory/buddy.rs: USED_BMP, FREED_BMP, PAGE_TYPE, PTE_REFC,
-- DF_LAST_*.
mod Laws
use rynex.Prelude.{
  ℕ, ◌+◌, ◌-◌, ◌/◌, ◌%◌, ◌^◌, Bool, true, false, Option, none, some, leb, ltb, ◌==◌, if◌then◌else◌,
  update, min,
}
use rynex.Buddy.State.{Buddy, FreeSite, max_refc_pages, page_type_free, phys_to_idx}

-- The word and the bit of a page.
abbrev pub used_word : ℕ → ℕ × ℕ
used_word page = (page / 64, page % 64)

abbrev pub bitmap_words : ℕ
bitmap_words = max_refc_pages / 64

-- One bit of a bitmap set to `v`.
abbrev pub put_bit : (ℕ → ℕ → Bool) → ℕ × ℕ → Bool → ℕ → ℕ → Bool
put_bit bmp (w, b) v = update bmp w (update (bmp w) b v)

unfoldable pub used_set : Buddy → ℕ → Bool
used_set s page =
    let (w, b) = used_word page in if leb bitmap_words w then false else s.used_bmp w b

unfoldable pub used_mark : ℕ → Buddy → Buddy
used_mark page s =
    let (w, b) = used_word page in
    if leb bitmap_words w then s else record s { used_bmp = put_bit s.used_bmp (w, b) true }

unfoldable pub used_clear : ℕ → Buddy → Buddy
used_clear page s =
    let (w, b) = used_word page in
    if leb bitmap_words w then s else record s { used_bmp = put_bit s.used_bmp (w, b) false }

abbrev pub freed_bit : Buddy → ℕ → Option (ℕ × ℕ)
freed_bit s addr =
    let idx = phys_to_idx s addr in
    if leb max_refc_pages idx then none else some (idx / 64, idx % 64)

-- `true`, and no change, if the page is recorded as freed already.
unfoldable pub track_freed_page : ℕ → Buddy → Bool × Buddy
track_freed_page addr s = elim (freed_bit s addr) [
  | none ↦ (false, s)
  | some (w, b) ↦
      if s.freed_bmp w b
      then (true, s)
      else (false, record s { freed_bmp = put_bit s.freed_bmp (w, b) true })
]

unfoldable pub untrack_freed_page : ℕ → Buddy → Buddy
untrack_freed_page addr s = elim (freed_bit s addr) [
  | none ↦ s
  | some (w, b) ↦ record s { freed_bmp = put_bit s.freed_bmp (w, b) false }
]

unfoldable pub mark_page_used : ℕ → Buddy → Buddy
unfolding used_mark untrack_freed_page
mark_page_used phys s =
    let pidx = phys_to_idx s phys in
    untrack_freed_page phys (if pidx == 2 ^ 64 - 1 then s else used_mark pidx s)

unfoldable pub page_is_used : Buddy → ℕ → Bool
unfolding used_set
page_is_used s phys = used_set s (phys_to_idx s phys)

unfoldable pub page_type_get : Buddy → ℕ → ℕ
page_type_get s addr =
    let idx = phys_to_idx s addr in
    if ltb idx max_refc_pages then s.page_type idx else page_type_free

unfoldable pub page_type_set : ℕ → ℕ → Buddy → Buddy
page_type_set addr t s =
    let idx = phys_to_idx s addr in
    if ltb idx max_refc_pages then record s { page_type = update s.page_type idx t } else s

-- `u16::saturating_add`.
unfoldable pub pte_refc_inc : ℕ → Buddy → Buddy
pte_refc_inc addr s =
    let idx = phys_to_idx s addr in
    if ltb idx max_refc_pages
    then record s { pte_refc = update s.pte_refc idx (min (s.pte_refc idx + 1) (2 ^ 16 - 1)) }
    else s

-- The count falls, not below 0; `true` if it is 0 then.
unfoldable pub pte_refc_dec : ℕ → Buddy → Bool × Buddy
pte_refc_dec addr s =
    let idx = phys_to_idx s addr in
    if ltb idx max_refc_pages
    then (
      s.pte_refc idx - 1 == 0,
      record s { pte_refc = update s.pte_refc idx (s.pte_refc idx - 1) },
    )
    else (true, s)

unfoldable pub pte_refc_get : Buddy → ℕ → ℕ
pte_refc_get s addr =
    let idx = phys_to_idx s addr in if ltb idx max_refc_pages then s.pte_refc idx else 0

abbrev df_max_pages : ℕ
df_max_pages = 2 ^ 18

unfoldable pub df_record : ℕ → ℕ → ℕ → ℕ → Buddy → Buddy
df_record pidx caller tick order s = if leb df_max_pages pidx then s else record s {
  df_last =
      update s.df_last pidx
        (record { caller = caller % 2 ^ 32; tick = tick % 2 ^ 32; order = order % 2 ^ 8 });
}

unfoldable pub df_info : Buddy → ℕ → FreeSite
df_info s phys =
    let pidx = phys_to_idx s phys in
    if ltb pidx df_max_pages then s.df_last pidx else record { caller = 0; tick = 0; order = 0 }
