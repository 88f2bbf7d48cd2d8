-- ===== src/Vfs/Mounts/Walk.antt =====
-- `path_resolve` of src/vfs_core/mod.rs, on paths that are a mount point and then names.
use rynex.Prelude.{◌≤◌, Bool, ℕ, ◌<◌, ◌≡◌, Bool, true, not, List, [], ◌∷◌, ◌++◌, ◌&&◌, ◌==◌, length}
use rynex.Vfs.Path.{slash}
use rynex.Vfs.Mounts.Longest.{covers, point_len}
use rynex.Vfs.Mounts.{max_mounts, MountTable, MountEntry, Found, found, missing, is_space}

abbrev spaceless : List ℕ → Bool
spaceless [] = true
spaceless (c ∷ cs) = not (is_space c) && spaceless cs

-- A name has bytes, and no slash and no space among them.
abbrev plain : List ℕ → Bool
plain [] = true
plain (c ∷ cs) = not (c == slash) && (not (is_space c) && plain cs)

abbrev pub AreNames : List (List ℕ) → Type 0
AreNames [] = Unit
AreNames (n ∷ ns) = (0 < length n) × (plain n ≡ true) × AreNames ns

-- Names, each behind a slash.
abbrev pub joined : List (List ℕ) → List ℕ
joined [] = []
joined (n ∷ ns) = slash ∷ n ++ joined ns

-- No other mount whose mount point is a prefix of the path has one as long.
abbrev pub IsLongest : List ℕ → ℕ → MountTable → Type 0
IsLongest path i t =
    (j : ℕ) → j < max_mounts → covers t path j ≡ true → point_len t i ≤ point_len t j → j ≡ i

module _ (lookup : ℕ → ℕ → List ℕ → Found ℕ) where
  -- Each name is looked up in the inode that the name before it gave.
  abbrev pub follow : ℕ → List (List ℕ) → Found ℕ → Found ℕ
  follow ops ns missing = missing
  follow ops [] (found ino) = found ino
  follow ops (n ∷ ns) (found ino) = follow ops ns (lookup ops ino n)

  -- What `path_resolve` gives in a mount, where the walk gives an inode.
  abbrev pub in_mount : MountEntry → Found ℕ → Found (ℕ × MountEntry)
  in_mount m missing = missing
  in_mount m (found ino) = found (ino, m)
