-- ===== src/Task/Areas/Tests.antt =====
-- The pool of mapped areas of src/task.rs with one area in it.
use rynex.Prelude.{◌≡◌, refl, arith, false}
use rynex.Prelude.Find.{find_index}
use rynex.Task.Areas.{VmaPool, no_record, vma_register, vma_clear_range}
use rynex.Task.Areas.Mapped.{is_mapped, IsPool, vma_clear_range-Keeps}
use rynex.Task.Areas.Registered.{Registers, vma_register-Registers}

abbrev no_areas : VmaPool
no_areas = record { vmas = λ _. no_record; vma_used = 0 }

-- The addresses from 16 to 63 of the address space 4096.
abbrev one_area : VmaPool
one_area = record {
  vmas = λ _. record { pml4 = 4096; vma = record { start = 16; end = 64; flags = 3 } };
  vma_used = 1;
}

no_areas-IsPool : IsPool no_areas
no_areas-IsPool = record { fits = omega arith; empties = λ i lt e. refl }

vma_register-Registers_example :
    Registers 4096 16 64 3 no_areas (vma_register 4096 16 64 3 no_areas)
vma_register-Registers_example =
    vma_register-Registers 4096 16 64 3 no_areas no_areas-IsPool (omega arith)

-- The end of the area is lost with what is cut out of its middle.
vma_clear_range-Keeps_example : is_mapped 4096 50 (vma_clear_range 4096 32 48 one_area) ≡ false
unfolding find_index
vma_clear_range-Keeps_example =
    vma_clear_range-Keeps 4096 32 48 one_area (omega arith) (λ i lt e z. omega (arith, z)) 4096 50
