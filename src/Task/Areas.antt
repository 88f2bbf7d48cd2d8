-- ===== src/Task/Areas.antt =====
-- The pool of mapped areas of src/task.rs, keyed by the page table of an address space.
pub mod Mapped
pub mod Registered
mod Tests
use rynex.Prelude.{
  ℕ, zero, suc, ◌+◌, Bool, true, false, not, Option, none, some, ◌&&◌, ◌||◌, ◌==◌, leb, ltb,
  if◌then◌else◌, update,
}
use rynex.Prelude.Find.{find_index}

abbrev pub max_vma_records : ℕ
max_vma_records = 65536

pub record Vma : Type 0 where
  pub start : ℕ
  pub end : ℕ
  pub flags : ℕ

pub record VmaRec : Type 0 where
  pub pml4 : ℕ
  pub vma : Vma

abbrev pub no_record : VmaRec
no_record = record { pml4 = 0; vma = record { start = 0; end = 0; flags = 0 } }

pub record VmaPool : Type 0 where
  pub vmas : ℕ → VmaRec
  pub vma_used : ℕ

abbrev pub is_free : VmaRec → Bool
is_free r = r.pml4 == 0 && r.vma.start == 0

abbrev pub covers : VmaRec → ℕ → ℕ → Bool
covers r p addr = r.pml4 == p && (leb r.vma.start addr && ltb addr r.vma.end)

-- The first free record, or one more behind those in use.
unfoldable pub enter_rec : VmaRec → Option ℕ → VmaPool → Bool × VmaPool
enter_rec r (some i) s = (true, record s { vmas = update s.vmas i r })
enter_rec r none s =
    let grown : VmaPool = record s {
      vmas = update s.vmas s.vma_used r;
      vma_used = s.vma_used + 1;
    } in
    if ltb s.vma_used max_vma_records then (true, grown) else (false, s)

unfoldable pub vma_register : ℕ → ℕ → ℕ → ℕ → VmaPool → Bool × VmaPool
vma_register p start end flags s =
    enter_rec (record { pml4 = p; vma = record { start = start; end = end; flags = flags } })
      (find_index (λ i. is_free (s.vmas i)) s.vma_used 0) s

unfoldable pub vma_at : VmaPool → Option ℕ → Option Vma
vma_at s none = none
vma_at s (some i) = some (s.vmas i).vma

unfoldable pub vma_find : ℕ → ℕ → VmaPool → Option Vma
vma_find p addr s = vma_at s (find_index (λ i. covers (s.vmas i) p addr) s.vma_used 0)

abbrev is_better : ℕ → Option ℕ → Bool
is_better end none = true
is_better end (some b) = ltb end b

-- The smallest end among the first `n` records that overlap.
unfoldable pub overlap_end : ℕ → ℕ → ℕ → ℕ → VmaPool → Option ℕ
overlap_end zero p start end s = none
overlap_end (suc n) p start end s =
    let best = overlap_end n p start end s in
    let r = s.vmas n in
    let overlaps = r.pml4 == p && (ltb start r.vma.end && ltb r.vma.start end) in
    if overlaps && is_better r.vma.end best then some r.vma.end else best

unfoldable pub vma_first_overlap_end : ℕ → ℕ → ℕ → VmaPool → Option ℕ
vma_first_overlap_end p start end s = overlap_end s.vma_used p start end s

unfoldable pub clear_found : Option ℕ → VmaPool → VmaPool
clear_found none s = s
clear_found (some i) s = record s { vmas = update s.vmas i no_record }

unfoldable pub vma_clear_addr : ℕ → ℕ → VmaPool → VmaPool
vma_clear_addr p addr s =
    clear_found
      (find_index (λ i. (s.vmas i).pml4 == p && (s.vmas i).vma.start == addr) s.vma_used 0) s

-- Every record in use is replaced.
abbrev pub each_record : (VmaRec → VmaRec) → VmaPool → VmaPool
each_record f s = record s { vmas = λ i. if ltb i s.vma_used then f (s.vmas i) else s.vmas i }

abbrev with_start : ℕ → VmaRec → VmaRec
with_start start r = record r { vma = record r.vma { start = start } }

abbrev with_end : ℕ → VmaRec → VmaRec
with_end end r = record r { vma = record r.vma { end = end } }

unfoldable pub cut_rec : ℕ → ℕ → ℕ → VmaRec → VmaRec
cut_rec p start end r =
    let s = r.vma.start in
    let e = r.vma.end in
    if not (r.pml4 == p) || s == 0
    then r
    else if leb start s && leb e end
    then no_record
    else if leb start s && (ltb s end && ltb end e)
    then with_start end r
    else if leb e end && (ltb s start && ltb start e)
    then with_end start r
    else if ltb s start && ltb end e
    then with_end start r
    else r

unfoldable pub vma_clear_range : ℕ → ℕ → ℕ → VmaPool → VmaPool
vma_clear_range p start end s = each_record (cut_rec p start end) s

unfoldable pub clone_from : ℕ → ℕ → ℕ → ℕ → VmaPool → VmaPool
clone_from zero i from to s = s
clone_from (suc n) i from to s =
    let r = s.vmas i in
    let next = clone_from n (i + 1) from to s in
    let cloned =
      clone_from n (i + 1) from to (vma_register to r.vma.start r.vma.end r.vma.flags s).1 in
    if r.pml4 == from then cloned else next

-- The bound of the loop is read once.
unfoldable pub vma_clone : ℕ → ℕ → VmaPool → VmaPool
vma_clone from to s = clone_from s.vma_used 0 from to s

unfoldable pub drop_rec : ℕ → VmaRec → VmaRec
drop_rec p r = if r.pml4 == p then no_record else r

unfoldable pub vma_clear_pml4 : ℕ → VmaPool → VmaPool
vma_clear_pml4 p s = if p == 0 then s else each_record (drop_rec p) s
