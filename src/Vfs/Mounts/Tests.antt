-- ===== src/Vfs/Mounts/Tests.antt =====
-- The mount table of src/vfs_core/mod.rs, on a root and a mount at `/proc`.
use rynex.Prelude.{ℕ, ◌+◌, List, [], ◌∷◌, ◌==◌, if◌then◌else◌}
use rynex.Vfs.Path.{slash}
use rynex.Vfs.Mounts.{
  MountTable, Found, found, missing, new_mounts, mount_alloc, max_mounts, find_mount,
}
use rynex.Vfs.Mounts.Longest.{Longest, find_mount-Longest}

abbrev proc : List ℕ
proc = 47 ∷ 112 ∷ 114 ∷ 111 ∷ 99 ∷ []

abbrev stat : List ℕ
stat = 115 ∷ 116 ∷ []

abbrev two_mounts : MountTable
two_mounts = (mount_alloc proc 2 7 5 (mount_alloc (slash ∷ []) 1 1 4 new_mounts).1).1

-- A name's inode is the one of its directory and the name's first byte.
abbrev sum_lookup : ℕ → ℕ → List ℕ → Found ℕ
sum_lookup ops ino [] = missing
sum_lookup ops ino (c ∷ cs) = if ops == 5 then found (ino + c) else missing

find_mount-Longest_example : Longest max_mounts proc two_mounts (find_mount proc two_mounts)
find_mount-Longest_example = find_mount-Longest proc two_mounts
