-- ===== src/Memory/Kheap/Tests.antt =====
-- The kernel's heap at the boot table, and at a table of two blocks.
use alpha_os.Prelude.{
  ℕ, ◌+◌, ◌*◌, ◌≤◌, ◌<◌, ◌≡◌, inl, inr, refl, some, List, [], ◌∷◌, if◌then◌else◌, within, arith,
  length, length-replicate, replicate,
}
use alpha_os.Memory.Heap.{block_size, heap_get_entry_type, heap_align_value_to_upper}
use alpha_os.Memory.Heap.Scan.{first_fit}
use alpha_os.Memory.Kheap.{Kernel, kzalloc, kfree}
use alpha_os.Memory.Kheap.Laws.{kzalloc_lem}

abbrev small_kernel : Kernel
small_kernel = record {
  heap = record { entries = 0x41 ∷ 0 ∷ []; saddr = 0x01000000 };
  ram = λ a. 0xAA;
}

-- The table's bytes at boot.
boot_table : List ℕ
boot_table = replicate 25600 0xFF

length-boot_table : length boot_table ≡ 25600
unfolding boot_table
length-boot_table = length-replicate {A = ℕ} 25600 0xFF

kzalloc_example :
    (ptr : ℕ) × (k' k'' : Kernel) × (kzalloc small_kernel 10 ≡ some (ptr, k'))
    × (0 < ptr)
    × (0x01000000 ≤ ptr)
    × (ptr + 10 ≤ 0x01000000 + 2 * block_size)
    × ((a : ℕ) → k'.ram a ≡ (if within ptr 10 a then 0 else 0xAA))
    × (kfree k' ptr ≡ some k'')
    × (k''.heap ≡ small_kernel.heap)
unfolding first_fit heap_get_entry_type heap_align_value_to_upper
kzalloc_example =
    kzalloc_lem small_kernel 10 1 (omega arith) (omega arith) (omega arith)
      (inl refl, (inr refl, tt)) refl
