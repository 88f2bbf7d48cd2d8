-- ===== src/Vfs/Mounts/Longest.antt =====
-- `find_mount` of src/vfs_core/mod.rs.
use rynex.Prelude.{
  ℕ, zero, suc, ◌≤◌, ◌<◌, ◌≡◌, inl, inr, refl, ap, sym, ◌∙◌, arith, Bool, true, false, List, Option,
  none, some, ◌&&◌, ltb, length, Bool-cases, Option-cases, subst,
}
use native.Mathlib.Decide.{ℕ_discrete}
use rynex.Vfs.Mounts.{MountTable, max_mounts, is_prefix, best_of, find_mount}

-- A mount in use whose mount point is a prefix of the path.
abbrev pub covers : MountTable → List ℕ → ℕ → Bool
covers t path i = (t.mounts i).used && is_prefix (t.mounts i).mount_point path

abbrev pub point_len : MountTable → ℕ → ℕ
point_len t i = length (t.mounts i).mount_point

-- What the search over the first `n` mounts may give: the longest mount that covers the path, the first
-- one of those, or none.
abbrev pub Longest : ℕ → List ℕ → MountTable → Option ℕ → Type 0
Longest n path t none = (i : ℕ) → i < n → covers t path i ≡ true → point_len t i ≡ 0
Longest n path t (some i) =
    (i < n)
    × (covers t path i ≡ true)
    × (0 < point_len t i)
    × ((j : ℕ) → j < n → covers t path j ≡ true → point_len t j ≤ point_len t i)

abbrev Best : ℕ → List ℕ → MountTable → Option ℕ × ℕ → Type 0
Best n path t (none, len) = (len ≡ 0) × Longest n path t none
Best n path t (some i, len) = (len ≡ point_len t i) × Longest n path t (some i)

-- One more mount that is not better.
skip-Best :
    (n : ℕ) (path : List ℕ) (t : MountTable) (r : Option ℕ × ℕ)
    → (covers t path n && ltb r.1 (point_len t n)) ≡ false
    → Best n path t r
    → Best (suc n) path t r
skip-Best n path t (none, len) worse (zero_len, all) = (
  zero_len,
  λ i lt c. elim (ℕ_discrete i n) [
    | yes e ↦
        let here : covers t path n ≡ true = ap (covers t path) (sym e) ∙ c in
        ap (point_len t) e ∙ ground (arith, here, worse, zero_len)
    | no ne ↦ all i (omega (arith, lt, ne)) c
  ],
)
skip-Best n path t (some i, len) worse (same, (lt, c, filled, all)) = (
  same,
  (
    omega (arith, lt),
    c,
    filled,
    λ j lt' c'. elim (ℕ_discrete j n) [
      | yes e ↦
          let here : covers t path n ≡ true = ap (covers t path) (sym e) ∙ c' in
          let le : point_len t n ≤ point_len t i = ground (arith, here, worse, same) in
          omega (arith, ap (point_len t) e, le)
      | no ne ↦ all j (omega (arith, lt', ne)) c'
    ],
  ),
)

better-Best :
    (n : ℕ) (path : List ℕ) (t : MountTable) (r : Option ℕ × ℕ)
    → covers t path n ≡ true
    → r.1 < point_len t n
    → Best n path t r
    → Best (suc n) path t (some n, point_len t n)
better-Best n path t (none, len) c more (zero_len, all) = (
  refl,
  (
    omega arith,
    c,
    omega (arith, more),
    λ j lt c'. elim (ℕ_discrete j n) [
      | yes e ↦ omega (arith, ap (point_len t) e)
      | no ne ↦ omega (arith, all j (omega (arith, lt, ne)) c')
    ],
  ),
)
better-Best n path t (some i, len) c more (same, (lt, _, filled, all)) = (
  refl,
  (
    omega arith,
    c,
    omega (arith, more),
    λ j lt' c'. elim (ℕ_discrete j n) [
      | yes e ↦ omega (arith, ap (point_len t) e)
      | no ne ↦ omega (arith, all j (omega (arith, lt', ne)) c', same, more)
    ],
  ),
)

best_of-Best : (n : ℕ) (path : List ℕ) (t : MountTable) → Best n path t (best_of n path t)
unfolding best_of
best_of-Best zero path t = (refl, λ i lt c. absurd (omega (arith, lt)))
best_of-Best (suc n) path t =
    let r = best_of n path t in
    let before = best_of-Best n path t in
    let m = t.mounts n in
    elim (Bool-cases (m.used && (is_prefix m.mount_point path && ltb r.1 (length m.mount_point)))) [
      | inl e ↦ rw e (better-Best n path t r (ground (arith, e)) (ground (arith, e)) before)
      | inr e ↦ rw e (skip-Best n path t r (ground (arith, e)) before)
    ]

Best-Longest :
    (n : ℕ) (path : List ℕ) (t : MountTable) (r : Option ℕ × ℕ)
    → Best n path t r
    → Longest n path t r.0
Best-Longest n path t (none, len) (_, all) = all
Best-Longest n path t (some i, len) (_, l) = l

-- `find_mount` gives, of the mounts in use whose mount point is a prefix of the path, one whose mount
-- point is the longest, and none only where no such mount point has a byte.
pub find_mount-Longest :
    (path : List ℕ) (t : MountTable) → Longest max_mounts path t (find_mount path t)
unfolding find_mount
find_mount-Longest path t =
    Best-Longest max_mounts path t (best_of max_mounts path t) (best_of-Best max_mounts path t)

-- A mount that covers a path, and is longer than every other one that does, is the one that is found.
pub find_mount_only :
    (path : List ℕ) (i : ℕ) (t : MountTable)
    → i < max_mounts
    → covers t path i ≡ true
    → 0 < point_len t i
    → ((j : ℕ) → j < max_mounts → covers t path j ≡ true → point_len t i ≤ point_len t j → j ≡ i)
    → find_mount path t ≡ some i
find_mount_only path i t lt here filled only = elim (Option-cases (find_mount path t)) [
  | inl e ↦
      let all = subst (Longest max_mounts path t) e (find_mount-Longest path t) in
      absurd (omega (arith, all i lt here, filled))
  | inr (k, e) ↦
      let (below, there, _, longest) =
        subst (Longest max_mounts path t) e (find_mount-Longest path t) in
      e ∙ ap some (only k below there (longest i lt here))
]
