-- ===== src/Buddy/Quarantine.antt =====
-- The quarantine of freed page-table pages in src/memory/buddy.rs: a ring of page addresses.
pub mod Fifo
use rynex.Prelude.{
  ℕ, zero, suc, ◌+◌, ◌-◌, ◌*◌, ◌%◌, ◌^◌, Bool, true, false, ◌&&◌, Option, none, some, ltb, leb,
  ◌==◌, if◌then◌else◌, not, update,
}
use rynex.Buddy.State.{Buddy, page_size}
use rynex.Buddy.Bitmap.{pte_refc_inc}

abbrev pub quarantine_max_cap : ℕ
quarantine_max_cap = 1024

-- `false` if the ring is full: then the caller keeps the page.
unfoldable pub q_push : ℕ → Buddy → Bool × Buddy
q_push addr s =
    if ltb s.quarantine_count s.quarantine_cap
    then (
      true,
      record s {
        quarantine = update s.quarantine (s.quarantine_head % quarantine_max_cap) addr;
        quarantine_head = (s.quarantine_head + 1) % s.quarantine_cap;
        quarantine_count = s.quarantine_count + 1;
      },
    )
    else (false, record s { quarantine_full_count = s.quarantine_full_count + 1 })

abbrev pub q_index : Buddy → ℕ
q_index s =
    (s.quarantine_head + s.quarantine_cap - s.quarantine_count)
    % s.quarantine_cap
    % quarantine_max_cap

-- Whether a slot's value is an address that the allocator manages.
abbrev pub q_valid : Buddy → ℕ → Bool
q_valid s addr =
    not (addr == 0)
    && leb s.base addr
    && ltb addr ((s.base + s.pages * page_size % 2 ^ 64) % 2 ^ 64)

-- The oldest slot is cleared and taken out of the count.
abbrev pub q_drop : Buddy → Buddy
q_drop s = record s {
  quarantine = update s.quarantine (q_index s) 0;
  quarantine_count = s.quarantine_count - 1;
}

-- The loop of `q_pop`, a round for each entry; with `quarantine_count` rounds it ends by its test.
unfoldable pub q_pop_from : ℕ → Buddy → Option ℕ × Buddy
q_pop_from zero s = (none, s)
q_pop_from (suc n) s =
    let rest = q_pop_from n (q_drop s) in
    if s.quarantine_count == 0
    then (none, s)
    else let addr = s.quarantine (q_index s) in
      if q_valid s addr then (some addr, pte_refc_inc addr (q_drop s)) else rest

unfoldable pub q_pop : Buddy → Option ℕ × Buddy
unfolding q_pop_from
q_pop s = q_pop_from s.quarantine_count s
