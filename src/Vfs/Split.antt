-- ===== src/Vfs/Split.antt =====
-- `parent_path` and `file_name` of src/vfs_core/mod.rs, on canonical paths.
use rynex.Prelude.{
  ℕ, zero, suc, ◌+◌, ◌-◌, ◌≤◌, ◌≡◌, ◌≢◌, refl, ap, ap₂, sym, ◌∙◌, arith, Bool, true, false, List,
  [], ◌∷◌, ◌++◌, Option, none, some, ◌||◌, ◌==◌, if◌then◌else◌, if_false, length, take, eq_bytes,
  length-append,
}
use rynex.Vfs.Path.{slash, ends_in_slash}
use rynex.Vfs.Canonical.{no_slash, IsSegment}

abbrev drop : ℕ → List ℕ → List ℕ
drop zero xs = xs
drop (suc n) [] = []
drop (suc n) (x ∷ xs) = drop n xs

-- The place of the last slash.
unfoldable pub last_slash : List ℕ → Option ℕ
last_slash [] = none
last_slash (c ∷ path) =
    let here : Option ℕ = if c == slash then some 0 else none in
    elim (last_slash path) [ none ↦ here | some j ↦ some (suc j) ]

-- The path without a slash at its end.
unfoldable pub trimmed : List ℕ → List ℕ
trimmed path = if ends_in_slash path then take (length path - 1) path else path

abbrev pub is_root : List ℕ → Bool
is_root path = length path == 0 || eq_bytes path (slash ∷ [])

unfoldable pub parent_at : List ℕ → Option ℕ → List ℕ
parent_at path none = slash ∷ []
parent_at path (some zero) = slash ∷ []
parent_at path (some (suc pos)) = take (suc pos) path

unfoldable pub parent_path : List ℕ → List ℕ
parent_path path = if is_root path then slash ∷ [] else parent_at path (last_slash (trimmed path))

unfoldable pub name_at : List ℕ → Option ℕ → List ℕ
name_at path none = path
name_at path (some pos) = drop (pos + 1) path

unfoldable pub file_name : List ℕ → List ℕ
file_name path = if is_root path then path else name_at (trimmed path) (last_slash (trimmed path))

no_last_slash : (seg : List ℕ) → no_slash seg ≡ true → last_slash seg ≡ none
unfolding last_slash
no_last_slash [] free = refl
no_last_slash (c ∷ seg) free = ground (arith, free, no_last_slash seg)

last_slash-append :
    (front seg : List ℕ)
    → no_slash seg ≡ true
    → last_slash (front ++ slash ∷ seg) ≡ some (length front)
unfolding last_slash
last_slash-append [] seg free = ground (arith, no_last_slash seg free)
last_slash-append (c ∷ front) seg free = ground (arith, last_slash-append front seg free)

ends-cons :
    (c : ℕ) (path : List ℕ) → length path ≢ 0 → ends_in_slash (c ∷ path) ≡ ends_in_slash path
ends-cons c [] ne = absurd (ne refl)
ends-cons c (d ∷ path) ne = refl

segment_ends : (seg : List ℕ) → length seg ≢ 0 → no_slash seg ≡ true → ends_in_slash seg ≡ false
segment_ends [] ne free = absurd (ne refl)
segment_ends (c ∷ []) ne free = ground (arith, free)
segment_ends (c ∷ d ∷ seg) ne free = segment_ends (d ∷ seg) (omega arith) (ground (arith, free))

path_ends :
    (front seg : List ℕ)
    → length seg ≢ 0
    → no_slash seg ≡ true
    → ends_in_slash (front ++ slash ∷ seg) ≡ false
path_ends [] seg ne free = ends-cons slash seg ne ∙ segment_ends seg ne free
path_ends (c ∷ front) seg ne free =
    ends-cons c (front ++ slash ∷ seg) (omega (arith, length-append front (slash ∷ seg)))
    ∙ path_ends front seg ne free

take-front : (front rest : List ℕ) → take (length front) (front ++ rest) ≡ front
take-front [] rest = refl
take-front (c ∷ front) rest = ap (◌∷◌ c) (take-front front rest)

drop-front :
    (front : List ℕ) (c : ℕ) (rest : List ℕ) → drop (length front + 1) (front ++ c ∷ rest) ≡ rest
drop-front [] c rest = refl
drop-front (d ∷ front) c rest =
    let e : length (d ∷ front) + 1 ≡ suc (length front + 1) = omega arith in
    ap (λ n. drop n (d ∷ (front ++ c ∷ rest))) e ∙ drop-front front c rest

parent_at-front :
    (front rest : List ℕ)
    → parent_at (front ++ rest) (some (length front))
      ≡ (if length front == 0 then slash ∷ [] else front)
unfolding parent_at
parent_at-front [] rest = refl
parent_at-front (c ∷ front) rest =
    let some_front : (length (c ∷ front) == 0) ≡ false = ground arith in
    ap (◌∷◌ c) (take-front front rest) ∙ sym (if_false _ _ _ some_front)

long_path : (path : List ℕ) → 2 ≤ length path → is_root path ≡ false
long_path [] le = absurd (omega (arith, le))
long_path (c ∷ []) le = absurd (omega (arith, le))
long_path (c ∷ d ∷ path) le = ground arith

not_root : (front seg : List ℕ) → length seg ≢ 0 → is_root (front ++ slash ∷ seg) ≡ false
not_root front seg ne =
    long_path (front ++ slash ∷ seg) (omega (arith, length-append front (slash ∷ seg), ne))

-- On a path that ends in a slash and a segment, whatever stands before, `file_name` gives the
-- segment, and `parent_path` what stands before it, or the root where that is nothing.
pub split_path :
    (front seg : List ℕ)
    → IsSegment seg
    → (file_name (front ++ slash ∷ seg) ≡ seg)
      × (parent_path (front ++ slash ∷ seg) ≡ (if length front == 0 then slash ∷ [] else front))
unfolding file_name parent_path trimmed name_at
split_path front seg good =
    let ends = path_ends front seg good.filled good.slash_free in
    let whole : trimmed (front ++ slash ∷ seg) ≡ front ++ slash ∷ seg = if_false _ _ _ ends in
    let found : last_slash (trimmed (front ++ slash ∷ seg)) ≡ some (length front) =
      ap last_slash whole ∙ last_slash-append front seg good.slash_free in
    (
      if_false _ _ _ (not_root front seg good.filled)
          ∙ ap₂ name_at whole found
          ∙ drop-front front slash seg,
      if_false _ _ _ (not_root front seg good.filled)
          ∙ ap (parent_at (front ++ slash ∷ seg)) found
          ∙ parent_at-front front (slash ∷ seg),
    )
