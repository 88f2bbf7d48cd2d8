-- ===== src/Vfs/Mounts.antt =====
-- The mount table of src/vfs_core/mod.rs, and the walk from a path to an inode. A file system is its
-- number, and `lookup` its operation of that name.
pub mod Longest
mod Tests
pub mod Walk
use rynex.Prelude.{
  ℕ, zero, suc, ◌+◌, ◌-◌, Bool, true, false, not, List, [], ◌∷◌, ◌++◌, Option, none, some, ◌&&◌,
  ◌||◌, ◌==◌, leb, ltb, min, length, take, if◌then◌else◌, eq_bytes, update,
}
use rynex.Prelude.Bytes.{drop}
use rynex.Prelude.Find.{find_index}
use rynex.Vfs.Path.{slash, dot}
use rynex.Vfs.Vnodes.{VnodeTable, vnode_alloc}

abbrev pub max_mounts : ℕ
max_mounts = 16

abbrev pub max_path : ℕ
max_path = 4096

-- The array of the mount point and its length are one list.
pub record MountEntry : Type 0 where
  pub mount_point : List ℕ
  pub fs_id : ℕ
  pub root_ino : ℕ
  pub ops : ℕ
  pub flags : ℕ
  pub used : Bool

abbrev pub empty_mount : MountEntry
empty_mount = record { mount_point = []; fs_id = 0; root_ino = 0; ops = 0; flags = 0; used = false }

pub record MountTable : Type 0 where
  pub mounts : ℕ → MountEntry
  pub count : ℕ

abbrev pub new_mounts : MountTable
new_mounts = record { mounts = λ _. empty_mount; count = 0 }

unfoldable pub put_mount : MountEntry → Option ℕ → MountTable → Option ℕ × MountTable
put_mount m none t = (none, t)
put_mount m (some i) t = (some i, record t { mounts = update t.mounts i m; count = t.count + 1 })

unfoldable pub mount_alloc : List ℕ → ℕ → ℕ → ℕ → MountTable → Option ℕ × MountTable
mount_alloc mp fs_id root_ino ops t =
    let m : MountEntry = record {
      mount_point = take (min (length mp) (max_path - 1)) mp;
      fs_id = fs_id;
      root_ino = root_ino;
      ops = ops;
      flags = 0;
      used = true;
    } in
    if leb max_mounts t.count
    then (none, t)
    else put_mount m (find_index (λ i. not (t.mounts i).used) max_mounts 0) t

unfoldable pub unmount : ℕ → MountTable → Bool × MountTable
unmount idx t =
    let gone : MountTable = record t {
      mounts = update t.mounts idx (record (t.mounts idx) { used = false });
      count = t.count - 1;
    } in
    if ltb idx max_mounts && (t.mounts idx).used then (true, gone) else (false, t)

abbrev pub is_prefix : List ℕ → List ℕ → Bool
is_prefix mp path = leb (length mp) (length path) && eq_bytes (take (length mp) path) mp

-- The best of the first `n` mounts for a path, and the length of its mount point.
unfoldable pub best_of : ℕ → List ℕ → MountTable → Option ℕ × ℕ
best_of zero path t = (none, 0)
best_of (suc n) path t =
    let (idx, len) = best_of n path t in
    let m = t.mounts n in
    if m.used && (is_prefix m.mount_point path && ltb len (length m.mount_point))
    then (some n, length m.mount_point)
    else (idx, len)

unfoldable pub find_mount : List ℕ → MountTable → Option ℕ
find_mount path t = (best_of max_mounts path t).0

pub data Found {ℓ} (A : Type ℓ) : Type ℓ where
  found : A → Found A
  missing : Found A

abbrev pub is_space : ℕ → Bool
is_space c = c == 32 || c == 9 || c == 10 || c == 13

unfoldable pub trim_start : List ℕ → List ℕ
trim_start [] = []
trim_start (c ∷ cs) = let rest = trim_start cs in if is_space c then rest else c ∷ cs

unfoldable pub trim_end : List ℕ → List ℕ
trim_end [] = []
trim_end (c ∷ cs) =
    let rest = trim_end cs in if is_space c && length rest == 0 then [] else c ∷ rest

abbrev pub trim_ascii : List ℕ → List ℕ
trim_ascii cs = trim_end (trim_start cs)

-- The path behind the mount point.
unfoldable pub rel_path : List ℕ → List ℕ → List ℕ
rel_path mp path =
    if length path == length mp
    then dot
    else if length mp == 1 && ltb (length mp) (length path)
    then drop 1 path
    else drop (length mp) path

module _ (lookup : ℕ → ℕ → List ℕ → Found ℕ) where
  -- A component is looked up; an empty one is passed over.
  abbrev pub step : ℕ → ℕ → List ℕ → Found ℕ
  step ops ino [] = found ino
  step ops ino (c ∷ cs) = lookup ops ino (c ∷ cs)

  -- The rest of a path, with the bytes of the component that is read.
  unfoldable pub walk : ℕ → List ℕ → List ℕ → ℕ → Found ℕ
  walk ops seg [] ino = step ops ino seg
  walk ops seg (c ∷ cs) ino =
      let more = walk ops (seg ++ c ∷ []) cs ino in
      let next : Found ℕ = elim (step ops ino seg) [
        | found ino' ↦ walk ops [] cs ino'
        | missing ↦ missing
      ] in
      if c == slash then next else more

  unfoldable pub resolve_in : List ℕ → Option ℕ → MountTable → Found (ℕ × MountEntry)
  resolve_in path none t = missing
  resolve_in path (some i) t =
      let m = t.mounts i in
      let rel = rel_path m.mount_point path in
      let walked : Found (ℕ × MountEntry) = elim (walk m.ops [] (trim_ascii rel) m.root_ino) [
        | found ino ↦ found (ino, m)
        | missing ↦ missing
      ] in
      if eq_bytes rel dot || length rel == 0 then found (m.root_ino, m) else walked

  -- `path_resolve`, the inode with the mount that it was found in.
  unfoldable pub path_resolve : List ℕ → MountTable → Found (ℕ × MountEntry)
  path_resolve path t = resolve_in path (find_mount path t) t

  unfoldable pub vnode_for : Found (ℕ × MountEntry) → VnodeTable → Option ℕ × VnodeTable
  vnode_for missing v = (none, v)
  vnode_for (found (ino, m)) v = vnode_alloc ino m.fs_id 0 m.ops v

  -- `path_to_vnode`, whose walk is that of `path_resolve`. The error's text is left out.
  unfoldable pub path_to_vnode : List ℕ → MountTable → VnodeTable → Option ℕ × VnodeTable
  path_to_vnode path t v = vnode_for (path_resolve path t) v
