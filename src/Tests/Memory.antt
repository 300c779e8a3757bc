-- ===== src/Tests/Memory.antt =====
-- Runs of the models of src/memory.c and src/task.c.
use my_kernel.Base.{
  ℕ, ◌+◌, ◌-◌, ◌*◌, ◌/◌, ◌<◌, ◌≤◌, ◌≡◌, ◌⊎◌, refl, ◌==◌, if◌then◌else◌, true, false, none, some,
  List, [], ◌∷◌, ◌++◌, All, replicate, length-replicate, arith,
}
use my_kernel.Heap.{
  Store, Heap, write, init_heap, round_up, malloc, heap_start, heap_size, header_size,
}
use my_kernel.Heap.Blocks.{Block, block, span, IsHeap}
use my_kernel.Heap.Search.{fits}
use my_kernel.Heap.Malloc.{Allocated, malloc_lem, malloc_huge}
use my_kernel.Heap.Free.{Freed, free_lem, init_heap-IsHeap}
use my_kernel.Frames.{block_size, alloc_block, free_block}
use my_kernel.Frames.Bitmap.{taken}
use my_kernel.Frames.Alloc.{alloc_block_lem, free_block_lem}
use my_kernel.Paging.{Machine, map_vaddr_to_paddr, map_shared_library, sys_sbrk}
use my_kernel.Paging.Translate.{IsTables}
use my_kernel.Paging.Mapping.{Mapped, map_vaddr_to_paddr-Mapped}
use my_kernel.Paging.Break.{Run, new_pages, sys_sbrk_lem, map_shared_library_lem}

abbrev no_headers : Store
no_headers a = record { size = 0; is_free = false; next = 0 }

-- The heap at boot.
abbrev boot : Heap
boot = init_heap no_headers 0

abbrev boot_blocks : List Block
boot_blocks = block (heap_size - header_size) true ∷ []

malloc_lem_example :
    (100 ≤ round_up 100)
    × (((malloc 100 boot ≡ some (0, boot)) × All (λ b. fits (round_up 100) b ≡ false) boot_blocks)
        ⊎ Allocated boot_blocks 100 boot)
malloc_lem_example =
    malloc_lem 100 boot boot_blocks (omega arith) (omega arith) (init_heap-IsHeap no_headers)

malloc_huge_example :
    ((malloc 4294967295 boot ≡ some (0, boot)) × All (λ b. b.is_free ≡ false) boot_blocks)
    ⊎ ((given : Allocated boot_blocks 4294967295 boot) × (given.here.size < 4294967295))
malloc_huge_example =
    malloc_huge 4294967295 boot boot_blocks (omega arith) (omega arith)
      (init_heap-IsHeap no_headers)

-- A heap with 100 bytes handed out, and the rest free.
abbrev second : ℕ
second = heap_start + 112

abbrev rest_size : ℕ
rest_size = heap_size - 124

abbrev used_heap : Heap
used_heap = record {
  store =
      write (write no_headers second (record { size = rest_size; is_free = true; next = 0 }))
        heap_start (record { size = 100; is_free = false; next = second });
  head = heap_start;
  next_fit = second;
  used = 100;
}

abbrev used_blocks : List Block
used_blocks = block 100 false ∷ block rest_size true ∷ []

used_heap-IsHeap : IsHeap used_heap used_blocks
used_heap-IsHeap = record {
  starts = refl;
  chain = (refl, (refl, tt));
  whole = refl;
  cursor = record {
    before = block 100 false ∷ [];
    here = block rest_size true;
    after = [];
    parts = refl;
    place = refl;
  };
  counted = refl;
}

free_lem_example :
    Freed
      (heap_start + span [] + header_size)
      used_heap
      ([] ++ block 100 true ∷ block rest_size true ∷ [])
free_lem_example =
    free_lem used_heap [] (block 100 false) (block rest_size true ∷ []) used_heap-IsHeap refl

-- The frames of the first word are taken.
abbrev frames : List ℕ
frames = 0xFFFFFFFF ∷ replicate 1023 0

alloc_block_lem_example :
    ((alloc_block frames ≡ (0, frames)) × ((k : ℕ) → k < 32768 → taken frames k ≡ 1))
    ⊎ ((f : ℕ) × (f < 32768)
        × (taken frames f ≡ 0)
        × ((k : ℕ) → k < f → taken frames k ≡ 1)
        × ((alloc_block frames).0 ≡ f * block_size)
        × ((g : ℕ) → taken (alloc_block frames).1 g ≡ (if f == g then 1 else taken frames g)))
alloc_block_lem_example = alloc_block_lem frames (omega (arith, length-replicate {A = ℕ} 1023 0))

free_block_lem_example :
    (after : List ℕ) × (free_block 0x5123 frames ≡ some after)
    × ((g : ℕ) → taken after g ≡ (if 0x5123 / block_size == g then 0 else taken frames g))
free_block_lem_example =
    free_block_lem frames 0x5123 (omega (arith, length-replicate {A = ℕ} 1023 0)) (omega arith)

-- A directory at 0x100000 with no table yet, and the allocators as at boot.
abbrev machine : Machine
machine = record { mem = λ a. 2; dma_memory_pointer = 0xC00010; user_phys_memory = 0x1000000 }

machine-IsTables : IsTables 0x100000 machine.mem machine.dma_memory_pointer
machine-IsTables = record {
  aligned = refl;
  below = omega arith;
  table = λ {i} {pt} lt is. absurd (no_table pt is);
  apart = λ {i} {j} {pt} lt lt' is is'. absurd (no_table pt is);
}
  where
    no_table : (pt : ℕ) → none ≡ some pt → ⊥
    no_table pt is = ground arith

map_vaddr_to_paddr-Mapped_example :
    Mapped 0x100000 0x401234 0x1003000 machine
      (map_vaddr_to_paddr 0x100000 0x401234 0x1003000 machine)
map_vaddr_to_paddr-Mapped_example =
    map_vaddr_to_paddr-Mapped 0x100000 0x401234 0x1003000 machine machine-IsTables (omega arith)
      (omega arith) (omega arith)

sys_sbrk_lem_example :
    ((sys_sbrk 0x100000 0x410000 5000 machine).0 ≡ 0x410000)
    × ((sys_sbrk 0x100000 0x410000 5000 machine).1 ≡ 0x410000 + 5000)
    × Run 0x100000
        ((0x410000 + 4095) / 4096)
        0x1000000
        (new_pages 0x410000 5000)
        machine
        (sys_sbrk 0x100000 0x410000 5000 machine).2
sys_sbrk_lem_example =
    sys_sbrk_lem 0x100000 0x410000 5000 machine machine-IsTables (omega arith) (omega arith) refl
      (omega arith)

map_shared_library_lem_example :
    Run 0x100000
      (0x60000000 / 4096)
      (0x900000 / 4096 * 4096)
      ((0x60000000 + 9000 + 4095) / 4096 - 0x60000000 / 4096)
      machine
      (map_shared_library 0x100000 0x60000000 0x900000 9000 machine)
map_shared_library_lem_example =
    map_shared_library_lem 0x100000 0x60000000 0x900000 9000 machine machine-IsTables (omega arith)
      (omega arith) (omega arith)
