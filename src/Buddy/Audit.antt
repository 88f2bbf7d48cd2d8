-- ===== src/Buddy/Audit.antt =====
-- `maybe_audit` and `audit_free_lists` of src/memory/buddy.rs: the walk that looks for a page in two
-- blocks.
use rynex.Prelude.{
  ℕ, zero, suc, ◌+◌, ◌%◌, ◌^◌, Bool, true, false, ◌&&◌, List, [], ◌∷◌, ltb, leb, ◌==◌,
  if◌then◌else◌, update, not,
}
use rynex.Buddy.State.{Buddy, max_order, magic_value, max_refc_pages, phys_to_idx}

abbrev pub owned_order_sentinel : ℕ
owned_order_sentinel = 0xFF

abbrev pub audit_period : ℕ
audit_period = 8

-- What the walk carries: whether it may go on, and the owners found so far.
abbrev pub Walk : Type 0
Walk = Bool × (ℕ → ℕ)

-- The `n` pages from `p` on, taken for a block of order `order`.
unfoldable pub audit_pages : ℕ → ℕ → ℕ → (ℕ → ℕ) → Walk
audit_pages zero p order owned = (true, owned)
audit_pages (suc n) p order owned =
    let rest = audit_pages n (p + 1) order (update owned p order) in
    if owned p == owned_order_sentinel then rest else (false, owned)

abbrev pub audit_header : Buddy → ℕ → ℕ → Bool
audit_header s curr order =
    (s.header curr).magic == magic_value
    && (s.header curr).order == order
    && leb (phys_to_idx s curr + 2 ^ order) max_refc_pages

unfoldable pub audit_list : Buddy → ℕ → List ℕ → (ℕ → ℕ) → Walk
unfolding audit_pages
audit_list s order [] owned = (true, owned)
audit_list s order (curr ∷ rest) owned =
    let (fine, owned') = audit_pages (2 ^ order) (phys_to_idx s curr) order owned in
    let more = audit_list s order rest owned' in
    if not (audit_header s curr order)
    then (false, owned)
    else if fine
    then more
    else (false, owned')

-- The orders from `o` on, `n` of them.
unfoldable pub audit_orders : Buddy → ℕ → ℕ → (ℕ → ℕ) → Walk
unfolding audit_list
audit_orders s zero o owned = (true, owned)
audit_orders s (suc n) o owned =
    let (fine, owned') = audit_list s o (s.free_lists o) owned in
    let more = audit_orders s n (o + 1) owned' in if fine then more else (false, owned')

-- The answer, and the state after the walk. A walk that finds another one active does nothing.
unfoldable pub audit_free_lists : Buddy → Bool × Buddy
unfolding audit_orders
audit_free_lists s =
    let clear = λ (i : ℕ). if ltb i max_refc_pages then owned_order_sentinel else s.owned_by i in
    let (fine, owned) = audit_orders s (max_order + 1) 0 clear in
    if s.audit_active
    then (true, s)
    else (fine, record s { owned_by = owned; audit_active = false })

unfoldable pub maybe_audit : Buddy → Buddy
unfolding audit_free_lists
maybe_audit s =
    let c = s.audit_counter + 1 in
    let s' = record s { audit_counter = c } in
    if c % audit_period == 0 then (audit_free_lists s').1 else s'
