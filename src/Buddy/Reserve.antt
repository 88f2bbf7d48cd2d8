-- ===== src/Buddy/Reserve.antt =====
-- Reserved pages in src/memory/buddy.rs. The array with its count is a list, oldest first.
use rynex.Prelude.{ℕ, Bool, true, false, [], ◌∷◌, ◌++◌, ltb, if◌then◌else◌, elem, length, not}
use rynex.Buddy.State.{Buddy, page_size, max_reserved, page_type_data, page_index, is_managed}
use rynex.Buddy.Bitmap.{used_set, used_mark, page_type_set}
use rynex.Buddy.FreeList.{unlink, mark_allocated}

abbrev pub is_reserved : Buddy → ℕ → Bool
is_reserved s addr = elem addr s.reserved

-- The page is appended, taken off the free lists and marked used.
unfoldable pub enter_reserved : ℕ → Buddy → Buddy
unfolding mark_allocated used_set used_mark
enter_reserved addr s =
    let s' = mark_allocated addr page_size (record s { reserved = s.reserved ++ addr ∷ [] }) in
    if used_set s' (page_index s' addr) then s' else used_mark (page_index s' addr) s'

-- A page that is there already, or a full table, changes nothing.
unfoldable pub reserve : ℕ → Buddy → Buddy
unfolding enter_reserved
reserve addr s =
    if is_reserved s addr
    then s
    else if ltb (length s.reserved) max_reserved
    then enter_reserved addr s
    else s

unfoldable pub reserve_page : ℕ → Buddy → Buddy
unfolding reserve used_mark page_type_set
reserve_page addr s =
    if not (is_managed s addr)
    then s
    else reserve addr (page_type_set addr page_type_data (used_mark (page_index s addr) s))

-- The first entry for the page goes, the later ones move up.
unfoldable pub unreserve : ℕ → Buddy → Bool × Buddy
unreserve addr s =
    if is_reserved s addr
    then (true, record s { reserved = unlink addr s.reserved })
    else (false, s)
