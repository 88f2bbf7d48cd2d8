-- ===== src/Buddy/Alloc/Search.antt =====
-- The search of `alloc` in src/memory/buddy.rs over the orders.
use native.Mathlib.Nat.{le_refl, add-zero}
use native.Mathlib.Decide.{dec_le, ℕ_discrete}
use mathlib.Core.Path.{subst}
use rynex.Prelude.{
  ℕ, zero, suc, ◌+◌, ◌-◌, ◌≤◌, ◌<◌, ◌≡◌, ◌⊎◌, inl, inr, refl, ap, arith, Bool, true, false, List,
  [], ◌∷◌, Option, none, some, update, Bool-cases, if◌then◌else◌, ltb,
}
use rynex.Buddy.State.{Buddy, max_order}
use rynex.Buddy.FreeList.Cover.{inside, cover, count, cover_lists, cover_lists-update}
use rynex.Buddy.Reserve.{is_reserved}
use rynex.Buddy.Alloc.{try_block, alloc_from, alloc, has_block}
use rynex.Buddy.Alloc.Cover.{cover-take_le, cover-take}

-- How often the block that a call returned covers an address.
abbrev pub returned : ℕ → Option ℕ → ℕ → ℕ
returned order none p = 0
returned order (some addr) p = inside order addr p

abbrev after : ℕ → Option ℕ × Buddy → ℕ → ℕ
after order (result, s) p = cover s p + returned order result p

-- Dropping a reserved head.
dropped_le :
    (o addr : ℕ) (next : List ℕ) (s : Buddy) (p : ℕ)
    → o ≤ max_order
    → s.free_lists o ≡ addr ∷ next
    → cover_lists (update s.free_lists o next) p ≤ cover s p
dropped_le o addr next s p h e =
    omega (arith, cover_lists-update s.free_lists o next p h, ap (λ l. count o l p) e)

try_block_le :
    (order o : ℕ) (l : List ℕ) (steps : ℕ) (k : Buddy → Option ℕ × Buddy) (s : Buddy) (p : ℕ)
    → order ≤ o
    → o ≤ max_order
    → s.free_lists o ≡ l
    → ((s' : Buddy) → after order (k s') p ≤ cover s' p)
    → after order (try_block order o l steps k s) p ≤ cover s p
unfolding try_block
try_block_le order o [] steps k s p lo hi e h = h s
try_block_le order o (addr ∷ next) steps k s p lo hi e h =
    elim (Bool-cases (ltb 1_000_000 (steps + 1))) [
      | inl long ↦ rw (long, add-zero) (le_refl _)
      | inr short ↦ elim (Bool-cases (is_reserved s addr)) [
        | inr free ↦ rw (short, free) (cover-take_le order o addr next s p lo hi e)
        | inl there ↦ rw (short, there) (go next refl)
      ]
    ]
  where
    s' : Buddy
    s' = record s { free_lists = update s.free_lists o next }

    go :
        (m : List ℕ)
        → next ≡ m
        → after order (elim m [ [] ↦ (none, s') | _ ∷ _ ↦ k s' ]) p ≤ cover s p
    go [] q = omega (arith, dropped_le o addr next s p hi e)
    go (_ ∷ _) q = omega (arith, dropped_le o addr next s p hi e, h s')

alloc_from_le :
    (n order o steps : ℕ) (s : Buddy) (p : ℕ)
    → order ≤ o
    → o + n ≤ max_order + 1
    → after order (alloc_from n order o steps s) p ≤ cover s p
unfolding alloc_from
alloc_from_le zero order o steps s p lo hi = rw add-zero (le_refl _)
alloc_from_le (suc n) order o steps s p lo hi =
    try_block_le order o (s.free_lists o) steps _ s p lo (omega arith) refl
      (λ s'. alloc_from_le n order (o + 1) _ s' p (omega arith) (omega arith))

-- Whatever the state, `alloc` only moves pages from the free lists to its caller: after a call an
-- address is covered by the free blocks and by the block returned, together, at most as often as by
-- the free blocks before. So no page that is covered once is both handed out and still free.
pub cover-alloc_le :
    (order : ℕ) (s : Buddy) (p : ℕ)
    → let (result, s') = alloc order s in cover s' p + returned order result p ≤ cover s p
unfolding alloc alloc_from
cover-alloc_le order s p = elim (dec_le order (max_order + 1)) [
  | yes h ↦ alloc_from_le (max_order + 1 - order) order order 0 s p (le_refl _) (omega arith)
  | no h ↦ let z : max_order + 1 - order ≡ 0 = omega arith in rw (z, add-zero) (le_refl _)
]

-- What a search over `n` orders from `o` on comes to when no page is reserved.
abbrev Found : ℕ → ℕ → ℕ → Buddy → Option ℕ × Buddy → Type 0
Found n order o s r =
    ((r ≡ (none, s)) × ((i : ℕ) → o ≤ i → i < o + n → s.free_lists i ≡ []))
    ⊎ ((addr : ℕ) × (r.0 ≡ some addr) × ((p : ℕ) → cover r.1 p + inside order addr p ≡ cover s p))

try_block-Found :
    (n order o : ℕ) (l : List ℕ) (steps : ℕ) (k : Buddy → Option ℕ × Buddy) (s : Buddy)
    → order ≤ o
    → o ≤ max_order
    → s.free_lists o ≡ l
    → s.reserved ≡ []
    → steps < 1_000_000
    → Found n order (o + 1) s (k s)
    → Found (suc n) order o s (try_block order o l steps k s)
unfolding try_block
try_block-Found n order o [] steps k s lo hi e z few (inr found) = inr found
try_block-Found n order o [] steps k s lo hi e z few (inl (same, empty)) = inl (
  same,
  λ i p q. elim (ℕ_discrete o i) [
    | yes this ↦ subst (λ j. s.free_lists j ≡ []) this e
    | no ne ↦ empty i (omega arith) (omega arith)
  ],
)
try_block-Found n order o (addr ∷ next) steps k s lo hi e z few h =
    let short : ltb 1_000_000 (steps + 1) ≡ false = ground arith in
    let free : is_reserved s addr ≡ false = rw z in
    rw (short, free) (inr (addr, refl, λ p. cover-take order o addr next s p lo hi e z))

alloc_from-Found :
    (n order o steps : ℕ) (s : Buddy)
    → order ≤ o
    → o + n ≤ max_order + 1
    → steps + n ≤ 1_000_000
    → s.reserved ≡ []
    → Found n order o s (alloc_from n order o steps s)
unfolding alloc_from
alloc_from-Found zero order o steps s lo hi few z = inl (refl, λ i p q. absurd (omega arith))
alloc_from-Found (suc n) order o steps s lo hi few z =
    try_block-Found n order o (s.free_lists o) steps _ s lo (omega arith) refl z (omega arith) (
      alloc_from-Found n order (o + 1) (if has_block (s.free_lists o) then steps + 1 else steps) s
        (omega arith) (omega arith) (bump (has_block (s.free_lists o)) (omega arith)) z)
  where
    bump : (b : Bool) → suc steps + n ≤ 1_000_000 → (if b then steps + 1 else steps) + n ≤ 1_000_000
    bump true h = omega arith
    bump false h = omega arith

-- Every list from `order` up to `MAX_ORDER` is empty and nothing is returned or changed, or a block
-- is returned and exactly its pages have left the lists.
abbrev pub IsExact : ℕ → Buddy → Option ℕ × Buddy → Type 0
IsExact order s r =
    ((r ≡ (none, s)) × ((i : ℕ) → order ≤ i → i ≤ max_order → s.free_lists i ≡ []))
    ⊎ ((addr : ℕ) × (r.0 ≡ some addr) × ((p : ℕ) → cover r.1 p + inside order addr p ≡ cover s p))

-- With no page reserved, `alloc` of an order up to `MAX_ORDER` either finds every list from that
-- order up to `MAX_ORDER` empty, and then returns nothing and changes nothing, or it returns a
-- block, and exactly the pages of that block have left the free lists.
pub alloc-IsExact :
    (order : ℕ) (s : Buddy) → order ≤ max_order → s.reserved ≡ [] → IsExact order s (alloc order s)
unfolding alloc
alloc-IsExact order s h z =
    elim (alloc_from-Found (max_order + 1 - order) order order 0 s (le_refl _) (omega arith)
      (omega arith) z) [
        | inr found ↦ inr found
        | inl (same, empty) ↦ inl (same, λ i p q. empty i p (omega arith))
      ]
