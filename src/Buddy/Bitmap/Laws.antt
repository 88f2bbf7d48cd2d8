-- ===== src/Buddy/Bitmap/Laws.antt =====
-- What the bitmap operations of src/memory/buddy.rs do to the pages.
use rynex.Prelude.{ℕ, ◌<◌, ◌≡◌, true, false, arith, ◌==◌, if◌then◌else◌}
use rynex.Buddy.State.{Buddy, max_refc_pages}
use rynex.Buddy.Bitmap.{used_set, used_mark, used_clear}

-- Marking a page used sets the page's own bit and no other, within the pages that the bitmap covers.
pub used_set-mark :
    (s : Buddy) (p q : ℕ)
    → p < max_refc_pages
    → used_set (used_mark p s) q ≡ (if p == q then true else used_set s q)
unfolding used_set used_mark
used_set-mark s p q h = ground arith

-- Clearing a page clears the page's own bit and no other.
pub used_set-clear :
    (s : Buddy) (p q : ℕ)
    → p < max_refc_pages
    → used_set (used_clear p s) q ≡ (if p == q then false else used_set s q)
unfolding used_set used_clear
used_set-clear s p q h = ground arith
