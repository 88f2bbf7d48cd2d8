-- ===== src/Vfs/Tests.antt =====
-- The theorems on the paths of src/vfs.rs at small inputs.
use rynex.Prelude.{ℕ, ◌≡◌, refl, arith, [], ◌∷◌, some, List}
use rynex.Vfs.Path.{
  normalize_path, join_path, start_relative, append_to, append_all, scanned, scan, finish_segment,
  written, write_path, write_segments,
}
use rynex.Vfs.Canonical.{IsSegment, IsCanonical, Normal, normalize_path-Normal}
use rynex.Vfs.Fixed.{normalize_path-IsCanonical}

-- The directory `/a`.
abbrev cwd : List ℕ
cwd = 47 ∷ 97 ∷ []

-- `b/.././c` in `/a` is `/a/c`.
relative_path :
    normalize_path cwd 512 (98 ∷ 47 ∷ 46 ∷ 46 ∷ 47 ∷ 46 ∷ 47 ∷ 99 ∷ [])
    ≡ some (47 ∷ 97 ∷ 47 ∷ 99 ∷ [])
unfolding normalize_path join_path start_relative append_to append_all scanned scan finish_segment
    written write_path write_segments
relative_path = refl

normalize_path-Normal_example : Normal 512 (normalize_path cwd 512 (98 ∷ 47 ∷ 46 ∷ 46 ∷ []))
normalize_path-Normal_example = normalize_path-Normal cwd 512 98 (47 ∷ 46 ∷ 46 ∷ [])

-- The path `/b`.
b-IsCanonical : IsCanonical (47 ∷ 98 ∷ [])
unfolding IsCanonical
b-IsCanonical = (
  (98 ∷ []) ∷ [],
  refl,
  (record { filled = omega arith; slash_free = refl; no_dot = refl; no_dot_dot = refl }, refl),
  omega arith,
)

normalize_path-IsCanonical_example : normalize_path cwd 512 (47 ∷ 98 ∷ []) ≡ some (47 ∷ 98 ∷ [])
normalize_path-IsCanonical_example =
    normalize_path-IsCanonical cwd 512 (47 ∷ 98 ∷ []) b-IsCanonical (omega arith)

-- The segment `b`.
b-IsSegment : IsSegment (98 ∷ [])
b-IsSegment = record { filled = omega arith; slash_free = refl; no_dot = refl; no_dot_dot = refl }
