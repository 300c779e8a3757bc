-- ===== src/Paging.antt =====
-- The page tables of src/task.c and src/memory.c: map_vaddr_to_paddr, map_shared_library, sys_sbrk
-- and the allocators of pages.
pub mod Words
pub mod Translate
pub mod Map
pub mod Mapping
pub mod Break
use my_kernel.Base.{
  ℕ, zero, suc, ◌+◌, ◌-◌, ◌*◌, ◌^◌, ◌/◌, ◌%◌, ◌==◌, ltb, if◌then◌else◌, Bool, true, false, not,
  bit_and, bit_or,
}

-- 32-bit words by their byte address.
abbrev pub Words : Type 0
Words = ℕ → ℕ

abbrev pub write : Words → ℕ → ℕ → Words
write m a v b = if b == a then v else m b

-- The words of memory with the two page pointers and the program break.
pub record Machine : Type 0 where
  pub mem : Words
  pub dma_memory_pointer : ℕ
  pub user_phys_memory : ℕ

-- The address, rounded up to a page, and the machine with the pointer behind the page.
unfoldable pub alloc_page_aligned : Machine → ℕ × Machine
alloc_page_aligned s =
    let p = s.dma_memory_pointer in
    let ptr = if p % 4096 == 0 then p else (p + (4096 - p % 4096)) % 2 ^ 32 in
    (ptr, record s { dma_memory_pointer = (ptr + 4096) % 2 ^ 32 })

unfoldable pub alloc_user_page : Machine → ℕ × Machine
alloc_user_page s =
    (s.user_phys_memory, record s { user_phys_memory = (s.user_phys_memory + 4096) % 2 ^ 32 })

-- `for (i = 0; i < 1024; i++) pt[i] = 0;`, with `n` rounds left.
unfoldable pub clear_table : ℕ → ℕ → ℕ → Words → Words
clear_table zero i pt m = m
clear_table (suc n) i pt m = clear_table n (i + 1) pt (write m (pt + 4 * i) 0)

-- `addr & 0xFFFFF000`
abbrev pub page_mask : ℕ → ℕ
page_mask addr = bit_and addr 0xFFFFF000

-- The page table for a directory entry: a new, empty one, or the one that the entry names.
unfoldable pub table_for : ℕ → ℕ → Machine → ℕ × Machine
table_for page_dir pdindex s =
    let (pt, s') = alloc_page_aligned s in
    if bit_and (s.mem (page_dir + 4 * pdindex)) 1 == 0
    then (
      pt,
      record s' {
        mem = write (clear_table 1024 0 pt s'.mem) (page_dir + 4 * pdindex) (bit_or pt 7);
      },
    )
    else (page_mask (s.mem (page_dir + 4 * pdindex)), s)

unfoldable pub map_vaddr_to_paddr : ℕ → ℕ → ℕ → Machine → Machine
map_vaddr_to_paddr page_dir vaddr paddr s =
    let pdindex = vaddr / 2 ^ 22 in
    let ptindex = bit_and (vaddr / 2 ^ 12) 0x03FF in
    let (pt, s') = table_for page_dir pdindex s in
    record s' { mem = write s'.mem (pt + 4 * ptindex) (bit_or (page_mask paddr) 7) }

-- The loop of map_shared_library: `n` pages from `cur_v` on.
unfoldable pub map_pages : ℕ → ℕ → ℕ → ℕ → Machine → Machine
map_pages page_dir zero cur_v current_paddr s = s
map_pages page_dir (suc n) cur_v current_paddr s =
    map_pages page_dir n (cur_v + 4096) (current_paddr + 4096)
      (map_vaddr_to_paddr page_dir cur_v current_paddr s)

-- `for (cur_v = start_page; cur_v < end_page; cur_v += 4096)`: both ends are on a page.
unfoldable pub map_shared_library : ℕ → ℕ → ℕ → ℕ → Machine → Machine
map_shared_library page_dir vaddr paddr size s =
    map_pages page_dir ((page_mask ((vaddr + size + 4095) % 2 ^ 32) - page_mask vaddr) / 4096)
      (page_mask vaddr) (page_mask paddr) s

-- The loop of sys_sbrk: `n` new pages from `vaddr` on.
unfoldable pub grow : ℕ → ℕ → ℕ → Machine → Machine
grow page_dir zero vaddr s = s
grow page_dir (suc n) vaddr s =
    let (paddr, s') = alloc_user_page s in
    grow page_dir n (vaddr + 4096) (map_vaddr_to_paddr page_dir vaddr paddr s')

-- The old break, the new one, and the machine; `increment` as a word of 32 bits.
unfoldable pub sys_sbrk : ℕ → ℕ → ℕ → Machine → ℕ × ℕ × Machine
sys_sbrk page_dir old_break increment s =
    let new_break = (old_break + increment) % 2 ^ 32 in
    let start_page = page_mask ((old_break + 4095) % 2 ^ 32) in
    let end_page = page_mask ((new_break + 4095) % 2 ^ 32) in
    if increment == 0
    then (old_break, old_break, s)
    else (if ltb old_break new_break
        then (old_break, new_break, grow page_dir ((end_page - start_page) / 4096) start_page s)
        else (old_break, new_break, s))
