-- ===== src/Vfs/Vnodes.antt =====
-- The vnode table of src/vfs_core/mod.rs. The operations of a file system, a static object there, are
-- a number here.
pub mod Table
mod Tests
use rynex.Prelude.{
  ℕ, zero, suc, ◌+◌, ◌-◌, Bool, true, false, not, Option, none, some, ◌&&◌, ◌==◌, ltb,
  if◌then◌else◌, update,
}
use rynex.Prelude.Find.{find_index}

abbrev pub max_vnodes : ℕ
max_vnodes = 256

pub record Vnode : Type 0 where
  pub ino : ℕ
  pub fs_id : ℕ
  pub mount_id : ℕ
  pub ops : ℕ
  pub used : Bool

abbrev pub empty_vnode : Vnode
empty_vnode = record { ino = 0; fs_id = 0; mount_id = 0; ops = 0; used = false }

pub record VnodeTable : Type 0 where
  pub vnodes : ℕ → Vnode
  pub count : ℕ

abbrev pub new_table : VnodeTable
new_table = record { vnodes = λ _. empty_vnode; count = 0 }

unfoldable pub enter_at : Vnode → Option ℕ → VnodeTable → Option ℕ × VnodeTable
enter_at v none t = (none, t)
enter_at v (some i) t = (some i, record t { vnodes = update t.vnodes i v; count = t.count + 1 })

unfoldable pub vnode_alloc : ℕ → ℕ → ℕ → ℕ → VnodeTable → Option ℕ × VnodeTable
vnode_alloc ino fs_id mount_id ops t =
    enter_at (record { ino = ino; fs_id = fs_id; mount_id = mount_id; ops = ops; used = true })
      (find_index (λ i. not (t.vnodes i).used) max_vnodes 0) t

unfoldable pub vnode_get : ℕ → VnodeTable → Option Vnode
vnode_get id t = if ltb id max_vnodes && (t.vnodes id).used then some (t.vnodes id) else none

abbrev pub clear_at : ℕ → VnodeTable → VnodeTable
clear_at i t = record t {
  vnodes = update t.vnodes i (record (t.vnodes i) { used = false });
  count = t.count - 1;
}

unfoldable pub vnode_free : ℕ → VnodeTable → Bool × VnodeTable
vnode_free id t =
    if ltb id max_vnodes && (t.vnodes id).used then (true, clear_at id t) else (false, t)

-- The loop of `free_by_ino`, over the first `n` places.
unfoldable pub free_below : ℕ → ℕ → VnodeTable → VnodeTable
free_below zero ino t = t
free_below (suc n) ino t =
    let t' = free_below n ino t in
    if (t'.vnodes n).used && (t'.vnodes n).ino == ino then clear_at n t' else t'

unfoldable pub free_by_ino : ℕ → VnodeTable → VnodeTable
free_by_ino ino t = free_below max_vnodes ino t
