-- ===== src/Vfs/Vnodes/Tests.antt =====
-- The theorems on the vnode table of src/vfs_core/mod.rs at small tables.
use rynex.Prelude.{◌≡◌, refl, sym, true, some}
use rynex.Prelude.Sums.{total_zero}
use rynex.Prelude.Find.{find_index}
use rynex.Vfs.Vnodes.{Vnode, max_vnodes, new_table, vnode_alloc, enter_at}
use rynex.Vfs.Vnodes.Table.{IsCounted, Allocs, vnode_alloc-Allocs}

new_table-IsCounted : IsCounted new_table
new_table-IsCounted = sym (total_zero max_vnodes)

-- The vnode of inode 7.
abbrev seventh : Vnode
seventh = record { ino = 7; fs_id = 1; mount_id = 0; ops = 2; used = true }

vnode_alloc-Allocs_example : Allocs seventh new_table (vnode_alloc 7 1 0 2 new_table)
vnode_alloc-Allocs_example = vnode_alloc-Allocs 7 1 0 2 new_table new_table-IsCounted

first_place : (vnode_alloc 7 1 0 2 new_table).0 ≡ some 0
unfolding vnode_alloc find_index enter_at
first_place = refl

one_vnode-IsCounted : IsCounted (vnode_alloc 7 1 0 2 new_table).1
unfolding vnode_alloc find_index enter_at
one_vnode-IsCounted = (vnode_alloc-Allocs 7 1 0 2 new_table new_table-IsCounted).2
