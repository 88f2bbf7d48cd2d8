-- ===== src/Task/Areas/Mapped.antt =====
-- Which addresses `vma_find` of src/task.rs finds an area for.
use rynex.Prelude.{
  ℕ, ◌≤◌, ◌<◌, ◌≡◌, ◌≢◌, inl, inr, refl, ap, sym, subst, ◌∙◌, arith, Bool, true, false, not, Option,
  none, some, ◌&&◌, ◌||◌, ◌==◌, leb, ltb, Bool-cases, Option-cases, true_ne_false,
}
use native.Mathlib.Decide.{ℕ_discrete}
use rynex.Prelude.Find.{find_index, Finds, find_index-Finds, find_index-congr}
use rynex.Task.Areas.{
  VmaRec, VmaPool, max_vma_records, is_free, covers, vma_at, vma_find, cut_rec, vma_clear_range,
  each_record,
}

abbrev pub is_some {ℓ} : {A : Type ℓ} → Option A → Bool
is_some none = false
is_some (some x) = true

abbrev pub is_mapped : ℕ → ℕ → VmaPool → Bool
is_mapped p addr s = is_some (vma_find p addr s)

pub is_some-vma_at : (s : VmaPool) (o : Option ℕ) → is_some (vma_at s o) ≡ is_some o
unfolding vma_at
is_some-vma_at s none = refl
is_some-vma_at s (some i) = refl

-- The part of a record that `vma_clear_range` keeps: what lies before the range, and what lies behind it
-- where the record does not begin before the range.
abbrev pub keeps : ℕ → ℕ → ℕ → VmaRec → ℕ → ℕ → Bool
keeps p start end r p' addr =
    not (p' == p) || (ltb addr start || (leb end addr && leb start r.vma.start))

covers-cut_rec :
    (p start end p' addr : ℕ) (r : VmaRec)
    → start < end
    → (r.pml4 ≡ p → r.vma.start ≢ 0)
    → covers (cut_rec p start end r) p' addr ≡ (covers r p' addr && keeps p start end r p' addr)
unfolding cut_rec
covers-cut_rec p start end p' addr r lt low = ground (arith, lt, low)

cut_here :
    (p start end : ℕ) (s : VmaPool) (i : ℕ)
    → ltb i s.vma_used ≡ true
    → (each_record (cut_rec p start end) s).vmas i ≡ cut_rec p start end (s.vmas i)
cut_here p start end s i used = rw used refl

-- After `vma_clear_range` no address of the range is mapped, and those before the range and of other
-- address spaces are as they were. An address behind the range stays mapped only by a record that does
-- not begin before the range: one that the range is cut out of loses its end as well.
pub vma_clear_range-Keeps :
    (p start end : ℕ) (s : VmaPool)
    → start < end
    → ((i : ℕ) → i < s.vma_used → (s.vmas i).pml4 ≡ p → (s.vmas i).vma.start ≢ 0)
    → (p' addr : ℕ)
    → is_mapped p' addr (vma_clear_range p start end s)
      ≡ is_some (
          find_index
            (λ i. covers (s.vmas i) p' addr && keeps p start end (s.vmas i) p' addr)
            s.vma_used
            0)
unfolding vma_clear_range vma_find
vma_clear_range-Keeps p start end s lt low p' addr =
    let s' = each_record (cut_rec p start end) s in
    let o = find_index (λ i. covers (s'.vmas i) p' addr) s.vma_used 0 in
    is_some-vma_at s' o
    ∙ ap is_some (
        find_index-congr (λ i. covers (s'.vmas i) p' addr)
          (λ i. covers (s.vmas i) p' addr && keeps p start end (s.vmas i) p' addr) s.vma_used 0
          (λ i _ below.
            let used : ltb i s.vma_used ≡ true = ground (arith, below) in
            ap (λ r. covers r p' addr) (cut_here p start end s i used)
            ∙ covers-cut_rec p start end p' addr (s.vmas i) lt (low i (omega (arith, below)))))

-- In a pool a free record is empty, so that it covers nothing.
pub record IsPool (s : VmaPool) : Type 0 where
  pub fits : s.vma_used ≤ max_vma_records
  pub empties : (i : ℕ) → i < s.vma_used → is_free (s.vmas i) ≡ true → (s.vmas i).vma.end ≡ 0

is_some_of : (ok : ℕ → Bool) (n i : ℕ) → i < n → ok i ≡ true → is_some (find_index ok n 0) ≡ true
is_some_of ok n i lt e = elim (Option-cases (find_index ok n 0)) [
  | inl none_found ↦
      let fails = subst (Finds ok n 0) none_found (find_index-Finds ok n 0) in
      absurd (true_ne_false (sym e ∙ fails i (omega arith) (omega (arith, lt))))
  | inr (j, found) ↦ ap is_some found
]

index_of :
    (ok : ℕ → Bool) (n : ℕ) → is_some (find_index ok n 0) ≡ true → (i : ℕ) × (i < n) × (ok i ≡ true)
index_of ok n some_found = elim (Option-cases (find_index ok n 0)) [
  | inl none_found ↦ absurd (true_ne_false (sym some_found ∙ ap is_some none_found))
  | inr (j, found) ↦
      let (passes, _, lt) = subst (Finds ok n 0) found (find_index-Finds ok n 0) in
      (j, omega (arith, lt), passes)
]

same_truth : (a b : Bool) → (a ≡ true → b ≡ true) → (b ≡ true → a ≡ true) → a ≡ b
same_truth true b f g = sym (f refl)
same_truth false true f g = g refl
same_truth false false f g = refl

-- A record that is written at a place that covered nothing.
pub put-found :
    (ok ok' : ℕ → Bool) (n n' k : ℕ)
    → n ≤ n'
    → k < n'
    → ((i : ℕ) → i < n' → i ≢ k → i < n)
    → ((i : ℕ) → i ≢ k → ok' i ≡ ok i)
    → (k < n → ok k ≡ false)
    → is_some (find_index ok' n' 0) ≡ (is_some (find_index ok n 0) || ok' k)
put-found ok ok' n n' k le lt old same clear =
    same_truth (is_some (find_index ok' n' 0)) (is_some (find_index ok n 0) || ok' k)
      (λ e.
        let (i, below, passes) = index_of ok' n' e in
        elim (ℕ_discrete i k) [
          | yes at ↦ let here : ok' k ≡ true = ap ok' (sym at) ∙ passes in ground (arith, here)
          | no ne ↦
              let there = is_some_of ok n i (old i below ne) (sym (same i ne) ∙ passes) in
              ground (arith, there)
        ])
      (λ e. elim (Bool-cases (ok' k)) [
        | inl here ↦ is_some_of ok' n' k lt here
        | inr other ↦
            let (i, below, passes) = index_of ok n (ground (arith, e, other)) in
            elim (ℕ_discrete i k) [
              | yes at ↦
                  absurd (true_ne_false (sym passes ∙ ap ok at ∙ clear (omega (arith, at, below))))
              | no ne ↦ is_some_of ok' n' i (omega (arith, below, le)) (same i ne ∙ passes)
            ]
      ])
