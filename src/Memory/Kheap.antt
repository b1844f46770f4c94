-- ===== src/Memory/Kheap.antt =====
-- src/memory/heap/kheap.c: the kernel's one heap, with the bytes that its addresses name.
pub mod Laws
mod Tests
use alpha_os.Prelude.{ℕ, ◌+◌, ◌/◌, ◌==◌, Option, none, some, List, if◌then◌else◌, Ram, ◌>>=◌}
use alpha_os.Memory.Heap.{Heap, heap_create, heap_malloc, heap_free}
use alpha_os.Memory.Raw.{memset}

abbrev pub heap_size_bytes : ℕ
heap_size_bytes = 104857600

abbrev pub heap_address : ℕ
heap_address = 0x01000000

-- `kernel_heap`, and the memory
pub record Kernel : Type 0 where
  pub heap : Heap
  pub ram : Ram

-- `entries` are the bytes at ALPHAOS_HEAP_TABLE_ADDRESS. A failure is printed, and no more.
pub kheap_init : Kernel → List ℕ → Kernel
kheap_init k entries = record k {
  heap = (heap_create k.heap heap_address (heap_address + heap_size_bytes) entries).1;
}

unfoldable pub kmalloc : Kernel → ℕ → Option (ℕ × Kernel)
kmalloc k size = do (ptr, heap) ← heap_malloc k.heap size; some (ptr, record k { heap = heap })

unfoldable pub kzalloc : Kernel → ℕ → Option (ℕ × Kernel)
unfolding kmalloc
kzalloc k size = do
  (ptr, k') ← kmalloc k size
  some (ptr, if ptr == 0 then k' else record k' { ram = memset k'.ram ptr 0x00 size })

unfoldable pub kfree : Kernel → ℕ → Option Kernel
kfree k ptr = do heap ← heap_free k.heap ptr; some (record k { heap = heap })
