-- ===== src/Task/Areas/Registered.antt =====
-- What `vma_register` of src/task.rs adds to the mapped addresses.
use rynex.Prelude.{
  ℕ, ◌+◌, ◌≤◌, ◌<◌, ◌≡◌, ◌≢◌, inl, inr, refl, ap, sym, subst, ◌∙◌, arith, Bool, true, false, Option,
  none, some, ◌&&◌, ◌||◌, ◌==◌, leb, ltb, update, update_self, update_ne, Bool-cases, true_ne_false,
  Option-cases, ltb_cases, ◌⊎◌,
}
use native.Mathlib.Decide.{ℕ_discrete}
use rynex.Prelude.Find.{find_index, Finds, find_index-Finds, find_index_first}
use rynex.Task.Areas.{
  VmaRec, VmaPool, max_vma_records, is_free, covers, enter_rec, vma_register, vma_at, vma_find,
}
use rynex.Task.Areas.Mapped.{is_mapped, is_some, is_some-vma_at, IsPool, put-found}

-- What entering a record may give: one record more, and nothing of another area lost, or a full pool.
abbrev Enters : VmaRec → VmaPool → Bool × VmaPool → Type 0
Enters r s (false, s') =
    (s' ≡ s)
    × (s.vma_used ≡ max_vma_records)
    × ((i : ℕ) → i < max_vma_records → is_free (s.vmas i) ≡ false)
Enters r s (true, s') =
    IsPool s'
    × ((k : ℕ) × (k < s.vma_used → is_free (s.vmas k) ≡ true)
        × ((i : ℕ) → i ≢ k → s'.vmas i ≡ s.vmas i))
    × ((p addr : ℕ)
        → (is_mapped p addr s' ≡ (is_mapped p addr s || covers r p addr))
          × ((vma_find p addr s' ≡ vma_find p addr s)
              ⊎ ((covers r p addr ≡ true) × (vma_find p addr s' ≡ some r.vma))))

mapped_by :
    (p addr : ℕ) (s : VmaPool)
    → is_mapped p addr s ≡ is_some (find_index (λ i. covers (s.vmas i) p addr) s.vma_used 0)
unfolding vma_find
mapped_by p addr s = is_some-vma_at s (find_index (λ i. covers (s.vmas i) p addr) s.vma_used 0)

-- The area at an index that is found, where one other record changes.
at_same :
    (s s' : VmaPool) (k : ℕ) (o : Option ℕ)
    → ((i : ℕ) → i ≢ k → s'.vmas i ≡ s.vmas i)
    → o ≢ some k
    → vma_at s' o ≡ vma_at s o
unfolding vma_at
at_same s s' k none same ne = refl
at_same s s' k (some i) same ne = ap (λ (u : VmaRec). some u.vma) (same i (λ e. ne (ap some e)))

-- The first indices that pass two tests, which differ at `k` only, are one, if neither is `k`.
first_same :
    (ok ok' : ℕ → Bool) (n n' i j : ℕ)
    → find_index ok' n' 0 ≡ some i
    → find_index ok n 0 ≡ some j
    → ok i ≡ true
    → ok' j ≡ true
    → i ≡ j
first_same ok ok' n n' i j e' e there here = elim (ltb_cases i j) [
  | inl lt ↦ absurd (true_ne_false (sym there ∙ find_index_first ok n 0 j e i (omega arith) lt))
  | inr ge ↦ elim (ℕ_discrete i j) [
    | yes z ↦ z
    | no other ↦ absurd (
        true_ne_false
          (sym here ∙ find_index_first ok' n' 0 i e' j (omega arith) (omega (arith, ge, other))))
  ]
]

-- The first index that passes, where one other index may pass as well.
module _ (ok ok' : ℕ → Bool) (n n' k : ℕ) (le : n ≤ n') (old : (i : ℕ) → i < n' → i ≢ k → i < n)
    (same : (i : ℕ) → i ≢ k → ok' i ≡ ok i) (clear : k < n → ok k ≡ false) where
  passes_old : (j : ℕ) → find_index ok n 0 ≡ some j → (j < n') × (ok' j ≡ true)
  passes_old j e =
      let (passes, _, below) = subst (Finds ok n 0) e (find_index-Finds ok n 0) in
      let away : j ≢ k =
        λ z. true_ne_false (sym passes ∙ ap ok z ∙ clear (omega (arith, z, below))) in
      (omega (arith, below, le), same j away ∙ passes)

  passes_new : (i : ℕ) → find_index ok' n' 0 ≡ some i → i ≢ k → (i < n) × (ok i ≡ true)
  passes_new i e' ne =
      let (passes, _, below) = subst (Finds ok' n' 0) e' (find_index-Finds ok' n' 0) in
      (old i (omega (arith, below)) ne, sym (same i ne) ∙ passes)

  put-first :
      (find_index ok' n' 0 ≡ find_index ok n 0) ⊎ ((ok' k ≡ true) × (find_index ok' n' 0 ≡ some k))
  put-first = elim (Option-cases (find_index ok' n' 0)) [
    | inl e' ↦ elim (Option-cases (find_index ok n 0)) [
      | inl e ↦ inl (e' ∙ sym e)
      | inr (j, e) ↦
          let (below, passes) = passes_old j e in
          let fails = subst (Finds ok' n' 0) e' (find_index-Finds ok' n' 0) in
          absurd (true_ne_false (sym passes ∙ fails j (omega arith) (omega (arith, below))))
    ]
    | inr (i, e') ↦ elim (ℕ_discrete i k) [
      | yes z ↦
          let (passes, _, _) = subst (Finds ok' n' 0) e' (find_index-Finds ok' n' 0) in
          inr (ap ok' (sym z) ∙ passes, e' ∙ ap some z)
      | no ne ↦ elim (Option-cases (find_index ok n 0)) [
        | inl e ↦
            let (below, there) = passes_new i e' ne in
            let fails = subst (Finds ok n 0) e (find_index-Finds ok n 0) in
            absurd (true_ne_false (sym there ∙ fails i (omega arith) (omega (arith, below))))
        | inr (j, e) ↦
            let one = first_same ok ok' n n' i j e' e (passes_new i e' ne).1 (passes_old j e).1 in
            inl (e' ∙ ap some one ∙ sym e)
      ]
    ]
  ]

module _ (r : VmaRec) (s : VmaPool) (pool : IsPool s) (used : is_free r ≡ false) where
  -- The record written at `k`, of a pool with `n` records in use then.
  put-IsPool :
      (k n : ℕ)
      → n ≤ max_vma_records
      → ((i : ℕ) → i < n → i ≢ k → i < s.vma_used)
      → IsPool (record s { vmas = update s.vmas k r; vma_used = n })
  put-IsPool k n fits old = record {
    fits = fits;
    empties = λ i lt free. elim (ℕ_discrete k i) [
      | yes e ↦
          let here : is_free (update s.vmas k r i) ≡ false =
            subst (λ j. is_free (update s.vmas k r j) ≡ false) e
              (ap is_free (update_self s.vmas k r) ∙ used) in
          absurd (true_ne_false (sym free ∙ here))
      | no ne ↦
          let same = update_ne s.vmas r ne in
          ap (λ (u : VmaRec). u.vma.end) same
          ∙ pool.empties i (old i lt (λ e. ne (sym e))) (sym (ap is_free same) ∙ free)
    ];
  }

  put-mapped :
      (k n : ℕ)
      → s.vma_used ≤ n
      → k < n
      → ((i : ℕ) → i < n → i ≢ k → i < s.vma_used)
      → (k < s.vma_used → is_free (s.vmas k) ≡ true)
      → (p addr : ℕ)
      → is_mapped p addr (record s { vmas = update s.vmas k r; vma_used = n })
        ≡ (is_mapped p addr s || covers r p addr)
  put-mapped k n le lt old free p addr =
      mapped_by p addr (record s { vmas = update s.vmas k r; vma_used = n })
      ∙ put-found (λ i. covers (s.vmas i) p addr) (λ i. covers (update s.vmas k r i) p addr)
          s.vma_used n k le lt old
          (λ i ne. ap (λ u. covers u p addr) (update_ne s.vmas r (λ e. ne (sym e))))
          (λ below. let empty = pool.empties k below (free below) in ground (arith, empty))
      ∙ ap
          (λ u.
            is_some (find_index (λ i. covers (s.vmas i) p addr) s.vma_used 0) || covers u p addr)
          (update_self s.vmas k r)
      ∙ ap (λ b. b || covers r p addr) (sym (mapped_by p addr s))

  -- The first record that covers an address is the one that did, or the new one.
  put-vma_find :
      (k n : ℕ)
      → s.vma_used ≤ n
      → k < n
      → ((i : ℕ) → i < n → i ≢ k → i < s.vma_used)
      → (k < s.vma_used → is_free (s.vmas k) ≡ true)
      → (p addr : ℕ)
      → let s' : VmaPool = record s { vmas = update s.vmas k r; vma_used = n } in
        (vma_find p addr s' ≡ vma_find p addr s)
        ⊎ ((covers r p addr ≡ true) × (vma_find p addr s' ≡ some r.vma))
  unfolding vma_find vma_at
  put-vma_find k n le lt old free p addr =
      let s' : VmaPool = record s { vmas = update s.vmas k r; vma_used = n } in
      let ok = λ (i : ℕ). covers (s.vmas i) p addr in
      let ok' = λ (i : ℕ). covers (s'.vmas i) p addr in
      let clear : k < s.vma_used → ok k ≡ false =
        λ below. let empty = pool.empties k below (free below) in ground (arith, empty) in
      let same = λ (i : ℕ) (ne : i ≢ k). update_ne s.vmas r (λ e. ne (sym e)) in
      elim (put-first ok ok' s.vma_used n k le old (λ i ne. ap (λ u. covers u p addr) (same i ne))
        clear) [
          | inl e ↦ inl (
              ap (vma_at s') e
              ∙ at_same s s' k (find_index ok s.vma_used 0) same (λ e'.
                let (passes, _, below) =
                  subst (Finds ok s.vma_used 0) e' (find_index-Finds ok s.vma_used 0) in
                true_ne_false (sym passes ∙ clear (omega (arith, below)))))
          | inr (passes, e) ↦ inr (
            sym (ap (λ u. covers u p addr) (update_self s.vmas k r)) ∙ passes,
            ap (vma_at s') e ∙ ap (λ (u : VmaRec). some u.vma) (update_self s.vmas k r),
          )
        ]

  put-Enters :
      (k n : ℕ)
      → n ≤ max_vma_records
      → s.vma_used ≤ n
      → k < n
      → ((i : ℕ) → i < n → i ≢ k → i < s.vma_used)
      → (k < s.vma_used → is_free (s.vmas k) ≡ true)
      → Enters r s (true, record s { vmas = update s.vmas k r; vma_used = n })
  put-Enters k n fits le lt old free = (
    put-IsPool k n fits old,
    (k, free, λ i ne. update_ne s.vmas r (λ e. ne (sym e))),
    λ p addr. (put-mapped k n le lt old free p addr, put-vma_find k n le lt old free p addr),
  )

  enter_rec-Enters :
      (o : Option ℕ) → Finds (λ i. is_free (s.vmas i)) s.vma_used 0 o → Enters r s (enter_rec r o s)
  unfolding enter_rec
  enter_rec-Enters (some i) (free, _, lt) =
      put-Enters i s.vma_used pool.fits (omega arith) (omega (arith, lt)) (λ j lt' ne. lt')
        (λ _. free)
  enter_rec-Enters none full = elim (Bool-cases (ltb s.vma_used max_vma_records)) [
    | inl e ↦ rw e (
        put-Enters s.vma_used (s.vma_used + 1) (ground (arith, e)) (omega arith) (omega arith)
          (λ j lt' ne. omega (arith, lt', ne)) (λ below. absurd (omega (arith, below))))
    | inr e ↦
        let max : s.vma_used ≡ max_vma_records = ground (arith, e, pool.fits) in
        rw e (refl, max, λ i lt. full i (omega arith) (omega (arith, lt, max)))
  ]

-- What `vma_register` may give for the area from `start` to `end`: one record is written, which was free
-- or behind those in use, and an address gives the area that it gave, or the new one, if it lies in that.
abbrev pub Registers : ℕ → ℕ → ℕ → ℕ → VmaPool → Bool × VmaPool → Type 0
Registers p start end flags s (false, s') =
    (s' ≡ s)
    × (s.vma_used ≡ max_vma_records)
    × ((i : ℕ) → i < max_vma_records → is_free (s.vmas i) ≡ false)
Registers p start end flags s (true, s') =
    IsPool s'
    × ((k : ℕ) × (k < s.vma_used → is_free (s.vmas k) ≡ true)
        × ((i : ℕ) → i ≢ k → s'.vmas i ≡ s.vmas i))
    × ((p' addr : ℕ)
        → let here = p == p' && (leb start addr && ltb addr end) in
          (is_mapped p' addr s' ≡ (is_mapped p' addr s || here))
          × ((vma_find p' addr s' ≡ vma_find p' addr s)
              ⊎ ((here ≡ true)
                  × (vma_find p' addr s'
                      ≡ some (record { start = start; end = end; flags = flags })))))

-- In a pool whose free records are empty, an area that is registered for an address space other
-- than 0 adds its addresses to those of that space for which `vma_find` finds an area. The area
-- that is found is the one that was found before, or, for an address in the new area, that one with
-- its flags; it is the new one where none was found. No record that was in use changes. Where no
-- record is free and the pool is at its length the answer is false and nothing changes.
pub vma_register-Registers :
    (p start end flags : ℕ) (s : VmaPool)
    → IsPool s
    → p ≢ 0
    → Registers p start end flags s (vma_register p start end flags s)
unfolding vma_register
vma_register-Registers p start end flags s pool ne =
    let r : VmaRec = record {
      pml4 = p;
      vma = record { start = start; end = end; flags = flags };
    } in
    let ok = λ (i : ℕ). is_free (s.vmas i) in
    let o = find_index ok s.vma_used 0 in
    as_register (enter_rec r o s)
      (enter_rec-Enters r s pool (ground (arith, ne)) o (find_index-Finds ok s.vma_used 0))
  where
    as_register :
        (x : Bool × VmaPool)
        → Enters (record { pml4 = p; vma = record { start = start; end = end; flags = flags } }) s x
        → Registers p start end flags s x
    as_register (false, s') e = e
    as_register (true, s') e = e
