-- ===== src/Vfs/Vnodes/Table.antt =====
-- The vnode table of src/vfs_core/mod.rs as a map from ids to vnodes, and its count.
use rynex.Prelude.{
  ℕ, ◌+◌, ◌<◌, ◌≡◌, ◌≢◌, inl, inr, refl, ap, sym, subst, arith, Bool, true, false, not, Option,
  none, some, ◌&&◌, ◌==◌, ltb, if◌then◌else◌, update, update_self, update_ne, Bool-cases,
}
use native.Mathlib.Decide.{ℕ_discrete}
use rynex.Prelude.Sums.{total, total-change, le-total}
use rynex.Prelude.Find.{find_index, Finds, find_index-Finds}
use rynex.Vfs.Vnodes.{
  Vnode, VnodeTable, max_vnodes, enter_at, vnode_alloc, vnode_get, clear_at, vnode_free,
}

abbrev used_at : VnodeTable → ℕ → ℕ
used_at t i = if (t.vnodes i).used then 1 else 0

-- The count is the number of vnodes in use.
abbrev pub IsCounted : VnodeTable → Type 0
IsCounted t = t.count ≡ total max_vnodes (used_at t)

-- What `alloc` may give for the vnode `v`: nothing, where every place is in use, or the id of a free
-- place, which holds `v` from then on.
abbrev pub Allocs : Vnode → VnodeTable → Option ℕ × VnodeTable → Type 0
Allocs v t (none, t') = (t' ≡ t) × ((j : ℕ) → j < max_vnodes → (t.vnodes j).used ≡ true)
Allocs v t (some i, t') =
    (vnode_get i t ≡ none)
    × ((j : ℕ) → vnode_get j t' ≡ (if j == i then some v else vnode_get j t))
    × IsCounted t'

entered-IsCounted :
    (v : Vnode) (t : VnodeTable) (i : ℕ)
    → v.used ≡ true
    → i < max_vnodes
    → (t.vnodes i).used ≡ false
    → IsCounted t
    → IsCounted (record t { vnodes = update t.vnodes i v; count = t.count + 1 })
entered-IsCounted v t i used lt free counted =
    let t' : VnodeTable = record t { vnodes = update t.vnodes i v; count = t.count + 1 } in
    let other : (j : ℕ) → i ≢ j → used_at t' j ≡ used_at t j =
      λ j ne. ap (λ w. if w.used then 1 else 0) (update_ne t.vnodes v ne) in
    let before : used_at t i ≡ 0 = ground (arith, free) in
    let after : used_at t' i ≡ 1 = ground (arith, used, update_self t.vnodes i v) in
    omega
      (arith, total-change max_vnodes (used_at t) (used_at t') i lt other, before, after, counted)

enter_at-Allocs :
    (v : Vnode) (t : VnodeTable) (o : Option ℕ)
    → v.used ≡ true
    → IsCounted t
    → Finds (λ i. not (t.vnodes i).used) max_vnodes 0 o
    → Allocs v t (enter_at v o t)
unfolding enter_at vnode_get
enter_at-Allocs v t none used counted f =
    (refl, λ j lt. ground (arith, f j (omega arith) (omega (arith, lt))))
enter_at-Allocs v t (some i) used counted (passes, above, below) =
    let lt : i < max_vnodes = omega (arith, below) in
    let free : (t.vnodes i).used ≡ false = ground (arith, passes) in
    (
      ground (arith, free),
      λ j. elim (ℕ_discrete i j) [
        | yes e ↦
            subst
              (λ k.
                vnode_get k (record t { vnodes = update t.vnodes i v; count = t.count + 1 })
                ≡ (if k == i then some v else vnode_get k t))
              e (ground (arith, used, lt, update_self t.vnodes i v))
        | no ne ↦ ground (arith, ne, update_ne t.vnodes v ne)
      ],
      entered-IsCounted v t i used lt free counted,
    )

cleared-IsCounted :
    (t : VnodeTable) (i : ℕ)
    → i < max_vnodes
    → (t.vnodes i).used ≡ true
    → IsCounted t
    → IsCounted (clear_at i t)
cleared-IsCounted t i lt used counted =
    let other : (j : ℕ) → i ≢ j → used_at (clear_at i t) j ≡ used_at t j =
      λ j ne. ap (λ w. if w.used then 1 else 0) (update_ne t.vnodes _ ne) in
    let before : used_at t i ≡ 1 = ground (arith, used) in
    let after : used_at (clear_at i t) i ≡ 0 =
      ap (λ w. if w.used then 1 else 0)
        (update_self t.vnodes i (record (t.vnodes i) { used = false })) in
    omega (
      arith,
      total-change max_vnodes (used_at t) (used_at (clear_at i t)) i lt other,
      before,
      after,
      counted,
      le-total max_vnodes (used_at t) i lt,
    )

cleared-get :
    (t : VnodeTable) (i j : ℕ)
    → vnode_get j (clear_at i t) ≡ (if j == i then none else vnode_get j t)
unfolding vnode_get
cleared-get t i j = elim (ℕ_discrete i j) [
  | yes e ↦
      subst (λ k. vnode_get k (clear_at i t) ≡ (if k == i then none else vnode_get k t)) e
        (ground (arith, update_self t.vnodes i (record (t.vnodes i) { used = false })))
  | no ne ↦ ground (arith, ne, update_ne t.vnodes (record (t.vnodes i) { used = false }) ne)
]

one_used :
    (t : VnodeTable) (i : ℕ) → i < max_vnodes → (t.vnodes i).used ≡ true → IsCounted t → t.count ≢ 0
one_used t i lt used counted =
    let here : used_at t i ≡ 1 = ground (arith, used) in
    omega (arith, counted, here, le-total max_vnodes (used_at t) i lt)

unused-get :
    (t : VnodeTable) (id j : ℕ)
    → (ltb id max_vnodes && (t.vnodes id).used) ≡ false
    → vnode_get j t ≡ (if j == id then none else vnode_get j t)
unfolding vnode_get
unused-get t id j e = elim (ℕ_discrete id j) [
  | yes same ↦
      subst (λ k. vnode_get k t ≡ (if k == id then none else vnode_get k t)) same
        (ground (arith, e))
  | no ne ↦ ground (arith, ne)
]

-- A vnode that `alloc` enters stands at a place that was free, from where `get` gives it; every other
-- id gives what it gave. Where no place is free nothing changes. The count stays the number of the
-- vnodes in use.
pub vnode_alloc-Allocs :
    (ino fs_id mount_id ops : ℕ) (t : VnodeTable)
    → IsCounted t
    → Allocs
        (record { ino = ino; fs_id = fs_id; mount_id = mount_id; ops = ops; used = true })
        t
        (vnode_alloc ino fs_id mount_id ops t)
unfolding vnode_alloc
vnode_alloc-Allocs ino fs_id mount_id ops t counted =
    enter_at-Allocs _ t (find_index (λ i. not (t.vnodes i).used) max_vnodes 0) refl counted
      (find_index-Finds (λ i. not (t.vnodes i).used) max_vnodes 0)

-- What `free` may give.
abbrev pub Frees : ℕ → VnodeTable → Bool × VnodeTable → Type 0
Frees id t (b, t') =
    ((j : ℕ) → vnode_get j t' ≡ (if j == id then none else vnode_get j t))
    × (t.count ≡ (if b then t'.count + 1 else t'.count))
    × IsCounted t'

-- From a `free` on `get` gives nothing for the id, and for every
-- other id what it gave. The count goes down by one where it answers true, without wrapping, and
-- stays the number of the vnodes in use.
pub vnode_free-Frees : (id : ℕ) (t : VnodeTable) → IsCounted t → Frees id t (vnode_free id t)
unfolding vnode_free
vnode_free-Frees id t counted = elim (Bool-cases (ltb id max_vnodes && (t.vnodes id).used)) [
  | inl e ↦
      let freed : vnode_free id t ≡ (true, clear_at id t) = ground (arith, e) in
      let lt : id < max_vnodes = ground (arith, e) in
      let used : (t.vnodes id).used ≡ true = ground (arith, e) in
      subst (Frees id t) (sym freed) (
        cleared-get t id,
        omega (arith, one_used t id lt used counted),
        cleared-IsCounted t id lt used counted,
      )
  | inr e ↦
      let kept : vnode_free id t ≡ (false, t) = ground (arith, e) in
      subst (Frees id t) (sym kept) (λ j. unused-get t id j e, refl, counted)
]
