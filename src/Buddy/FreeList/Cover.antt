-- ===== src/Buddy/FreeList/Cover.antt =====
-- How often the free blocks of src/memory/buddy.rs cover an address: what the list operations and
-- `free_one` do to every page at once.
use native.Mathlib.Nat.{add_comm}
use native.Mathlib.Numerals.{add-one}
use rynex.Prelude.{
  ◌∙◌, sym, ℕ, zero, suc, ◌+◌, ◌-◌, ◌*◌, ◌≤◌, ◌<◌, ◌≡◌, inl, inr, refl, ap, arith, true, false,
  ◌&&◌, List, [], ◌∷◌, ltb, leb, ◌==◌, if◌then◌else◌, update, update_self, update_ne, elem,
  Bool-cases,
}
use rynex.Prelude.Sums.{total, total-change, total_zero, le-total}
use rynex.Buddy.State.{Buddy, max_order, block_size, is_managed, page_type_pte}
use rynex.Buddy.Bitmap.{page_type_get}
use rynex.Buddy.Orders.{buddy_of}
use rynex.Buddy.Orders.Laws.{IsAligned, buddy_cases, block_size-suc, block_size-pos}
use rynex.Buddy.FreeList.{
  unlink, free_one, push_unless_there, push_block, remove_from_list, merge, can_merge,
  is_on_free_list,
}

-- 1 if the address lies in the block of order `o` at `a`, else 0.
abbrev pub inside : ℕ → ℕ → ℕ → ℕ
inside o a p = if leb a p && ltb p (a + block_size o) then 1 else 0

abbrev pub count : ℕ → List ℕ → ℕ → ℕ
count o [] p = 0
count o (a ∷ xs) p = inside o a p + count o xs p

-- Over the lists of all orders.
pub cover_lists : (ℕ → List ℕ) → ℕ → ℕ
cover_lists lists p = total 11 (λ o. count o (lists o) p)

abbrev pub cover : Buddy → ℕ → ℕ
cover s p = cover_lists s.free_lists p

pub cover_lists-update :
    (lists : ℕ → List ℕ) (o : ℕ) (xs : List ℕ) (p : ℕ)
    → o ≤ max_order
    → cover_lists (update lists o xs) p + count o (lists o) p ≡ cover_lists lists p + count o xs p
unfolding cover_lists
cover_lists-update lists o xs p h = omega (
  arith,
  total-change 11 (λ o. count o (lists o) p) (λ j. count j (update lists o xs j) p) o (omega arith)
      (λ j ne. ap (λ l. count j l p) (update_ne lists xs ne)),
  ap (λ l. count o l p) (update_self lists o xs),
)

pub count-le-cover : (s : Buddy) (o p : ℕ) → o ≤ max_order → count o (s.free_lists o) p ≤ cover s p
unfolding cover_lists
count-le-cover s o p h = le-total 11 (λ o. count o (s.free_lists o) p) o (omega arith)

pub cover-push :
    (o addr : ℕ) (s : Buddy) (p : ℕ)
    → o ≤ max_order
    → cover (push_block o addr s) p ≡ cover s p + inside o addr p
unfolding push_block
cover-push o addr s p h =
    omega (arith, cover_lists-update s.free_lists o (addr ∷ s.free_lists o) p h)

count-unlink :
    (o t : ℕ) (xs : List ℕ) (p : ℕ)
    → elem t xs ≡ true
    → count o (unlink t xs) p + inside o t p ≡ count o xs p
count-unlink o t [] p h = absurd (ground arith)
count-unlink o t (a ∷ xs) p h = elim (Bool-cases (a == t)) [
  | inl e ↦ rw e (let q : a ≡ t = ground arith in rw q (omega arith))
  | inr e ↦ rw e (omega (arith, count-unlink o t xs p (rw e at h)))
]

pub cover-remove :
    (o t : ℕ) (s : Buddy) (p : ℕ)
    → o ≤ max_order
    → is_on_free_list s t o ≡ true
    → cover (remove_from_list o t s) p + inside o t p ≡ cover s p
unfolding remove_from_list
cover-remove o t s p h e = rw e (
    omega (
      arith,
      cover_lists-update s.free_lists o (unlink t (s.free_lists o)) p h,
      count-unlink o t (s.free_lists o) p e,
    ))

count-elem : (o t : ℕ) (xs : List ℕ) → elem t xs ≡ true → 1 ≤ count o xs t
count-elem o t [] h = absurd (ground arith)
count-elem o t (a ∷ xs) h = elim (Bool-cases (a == t)) [
  | inl e ↦ let q : a ≡ t = ground arith in ground (arith, block_size-pos o)
  | inr e ↦ omega (arith, count-elem o t xs (rw e at h))
]

abbrev lower_of : ℕ → ℕ → ℕ
lower_of cur buddy = if ltb cur buddy then cur else buddy

pub inside_halves : (o a p : ℕ) → inside (suc o) a p ≡ inside o a p + inside o (a + block_size o) p
inside_halves o a p = rw (block_size-suc o) (halves (block_size o) a p (block_size-pos o))
  where
    halves :
        (bs a p : ℕ)
        → 0 < bs
        → (if leb a p && ltb p (a + bs * 2) then 1 else 0)
          ≡ (if leb a p && ltb p (a + bs) then 1 else 0)
            + (if leb (a + bs) p && ltb p (a + bs + bs) then 1 else 0)
    halves bs a p h = ground arith

-- A block and its buddy make up the block of the next order at the lower of the two.
merge_inside :
    (o cur p : ℕ)
    → IsAligned o cur
    → let buddy = buddy_of cur o in
      let lower = lower_of cur buddy in
      IsAligned (suc o) lower × (inside (suc o) lower p ≡ inside o cur p + inside o buddy p)
merge_inside o cur p h = elim (buddy_cases o cur h) [
  | inl (up, al) ↦
      let e : lower_of cur (buddy_of cur o) ≡ cur = ground (arith, up, block_size-pos o) in
      rw e (al, inside_halves o cur p ∙ ap (λ t. inside o cur p + inside o t p) (sym up))
  | inr (down, al) ↦
      let e : lower_of cur (buddy_of cur o) ≡ buddy_of cur o =
        ground (arith, down, block_size-pos o) in
      rw e (
        al,
        inside_halves o (buddy_of cur o) p
            ∙ ap (λ t. inside o (buddy_of cur o) p + inside o t p) down
            ∙ add_comm (inside o (buddy_of cur o) p) (inside o cur p),
      )
]

merged_inside :
    (o cur p : ℕ)
    → IsAligned o cur
    → inside (o + 1) (lower_of cur (buddy_of cur o)) p
      ≡ inside o cur p + inside o (buddy_of cur o) p
merged_inside o cur p al = rw (add-one o) ((merge_inside o cur p al).1)

-- What the loop of `free_one` leaves: an aligned block of an order in range, with the pages of the
-- lists and the block together as before.
pub record Merged (cur o : ℕ) (s : Buddy) (r : ℕ × ℕ × Buddy) : Type 0 where
  pub aligned : IsAligned r.1 r.0
  pub bounded : r.1 ≤ max_order
  pub same : (p : ℕ) → cover r.2 p + inside r.1 r.0 p ≡ cover s p + inside o cur p

pub merge-Merged :
    (n cur o : ℕ) (s : Buddy)
    → o + n ≡ max_order
    → IsAligned o cur
    → Merged cur o s (merge n cur o s)
unfolding merge
merge-Merged zero cur o s e al = record { aligned = al; bounded = omega arith; same = λ p. refl }
merge-Merged (suc n) cur o s e al = elim (Bool-cases (can_merge s (buddy_of cur o) o)) [
  | inl hit ↦
      let next : IsAligned (o + 1) (lower_of cur (buddy_of cur o)) =
        rw (add-one o) ((merge_inside o cur 0 al).0) in
      let rest =
        merge-Merged n (lower_of cur (buddy_of cur o)) (o + 1)
          (remove_from_list o (buddy_of cur o) s) (omega arith) next in
      let there : is_on_free_list s (buddy_of cur o) o ≡ true = ground arith in
      rw (hit, merge)
        (record {
          aligned = rest.aligned;
          bounded = rest.bounded;
          same = λ p. omega (
            arith,
            rest.same p,
            cover-remove o (buddy_of cur o) s p (omega arith) there,
            merged_inside o cur p al,
          );
        })
  | inr miss ↦ rw (miss, merge) (record { aligned = al; bounded = omega arith; same = λ p. refl })
]

-- The block that the loop leaves is not in the list that it goes to, if nothing was covered twice.
Merged-absent :
    (cur o : ℕ) (s : Buddy) (r : ℕ × ℕ × Buddy)
    → Merged cur o s r
    → ((p : ℕ) → cover s p + inside o cur p ≤ 1)
    → is_on_free_list r.2 r.0 r.1 ≡ false
Merged-absent cur o s r m once = elim (Bool-cases (is_on_free_list r.2 r.0 r.1)) [
  | inr e ↦ e
  | inl e ↦
      let own : inside r.1 r.0 r.0 ≡ 1 = ground (arith, block_size-pos r.1) in
      absurd (
        omega (
          arith,
          own,
          count-elem r.1 r.0 (r.2.free_lists r.1) e,
          count-le-cover r.2 r.1 r.0 m.bounded,
          m.same r.0,
          once r.0,
        ))
]

cover-push_unless_there :
    (r : ℕ × ℕ × Buddy) (p : ℕ)
    → is_on_free_list r.2 r.0 r.1 ≡ false
    → r.1 ≤ max_order
    → cover (push_unless_there r) p ≡ cover r.2 p + inside r.1 r.0 p
unfolding push_unless_there
cover-push_unless_there (cur, o, s) p absent h = rw absent (cover-push o cur s p h)

-- `free_one` gives a managed, aligned block that no free block overlaps back whole: afterwards every
-- address is covered once more if it lies in the block, and as often as before if it does not.
pub cover-free_one :
    (addr o : ℕ) (s : Buddy)
    → o ≤ max_order
    → IsAligned o addr
    → is_managed s addr ≡ true
    → ((p : ℕ) → cover s p + inside o addr p ≤ 1)
    → (p : ℕ) → cover (free_one addr o s) p ≡ cover s p + inside o addr p
unfolding free_one
cover-free_one addr o s h al managed once p =
    let m = merge-Merged (max_order - o) addr o s (omega arith) al in
    let r : ℕ × ℕ × Buddy = merge (max_order - o) addr o s in
    let absent = Merged-absent addr o s r m once in
    rw managed (elim (Bool-cases (o == 0 && page_type_get s addr == page_type_pte)) [
      | inl pte ↦
          let z : o ≡ 0 = ground arith in
          rw pte
            (cover-push 0 addr s p (omega arith) ∙ ap (λ k. cover s p + inside k addr p) (sym z))
      | inr other ↦ rw other (cover-push_unless_there r p absent m.bounded ∙ m.same p)
    ])

-- Empty lists cover nothing.
pub cover_empty : (p : ℕ) → cover_lists (λ _. []) p ≡ 0
unfolding cover_lists
cover_empty p = total_zero 11
