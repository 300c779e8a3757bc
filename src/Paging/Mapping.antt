-- ===== src/Paging/Mapping.antt =====
-- One page mapped by map_vaddr_to_paddr of src/task.c.
use my_kernel.Base.{
  ℕ, ◌+◌, ◌*◌, ◌^◌, ◌/◌, ◌%◌, ◌<◌, ◌≤◌, ◌≡◌, ◌≢◌, refl, ap, sym, ◌∙◌, ◌==◌, inl, inr, Bool-cases,
  none, some, bit_and, bit_or, arith, ==_iff, ne→not_==, ℕ_discrete, subst,
}
use my_kernel.Base.Bits.{bit_and-mask}
use my_kernel.Paging.{
  Words, write, clear_table, page_mask, Machine, alloc_page_aligned, table_for, map_vaddr_to_paddr,
}
use my_kernel.Paging.Words.{page_mask_lem, entry_flags}
use my_kernel.Paging.Translate.{target, table_of, frame, IsTables}
use my_kernel.Paging.Map.{
  entry_frame_here, entry_frame_there, entry_IsTables, fresh_frame, fresh_IsTables,
  fresh_table_here,
}

-- The allocator returns a whole page that is not in front of its pointer, and moves the pointer
-- behind it.
pub alloc_page_aligned_lem :
    (s : Machine)
    → s.dma_memory_pointer + 8192 ≤ 2 ^ 32
    → ((alloc_page_aligned s).0 % 4096 ≡ 0)
      × (s.dma_memory_pointer ≤ (alloc_page_aligned s).0)
      × ((alloc_page_aligned s).0 < s.dma_memory_pointer + 4096)
      × ((alloc_page_aligned s).1.dma_memory_pointer ≡ (alloc_page_aligned s).0 + 4096)
      × ((alloc_page_aligned s).1.mem ≡ s.mem)
      × ((alloc_page_aligned s).1.user_phys_memory ≡ s.user_phys_memory)
unfolding alloc_page_aligned
alloc_page_aligned_lem s room = elim (ℕ_discrete (s.dma_memory_pointer % 4096) 0) [
  | yes whole ↦ rw ((==_iff _ _).1 whole) (whole, omega arith, omega arith, omega arith, refl, refl)
  | no part ↦
      rw (ne→not_== _ _ part) (omega arith, omega arith, omega arith, omega arith, refl, refl)
]

-- What a table for the directory entry `pd` is, with the machine `out.1` that has it.
pub record Tabled (page_dir pd : ℕ) (s : Machine) (out : ℕ × Machine) : Type 0 where
  pub named : table_of out.1.mem page_dir pd ≡ some out.0
  pub tables : IsTables page_dir out.1.mem out.1.dma_memory_pointer
  pub frames : (q : ℕ) → q < 2 ^ 20 → frame out.1.mem page_dir q ≡ frame s.mem page_dir q
  pub up : s.dma_memory_pointer ≤ out.1.dma_memory_pointer
  pub user : out.1.user_phys_memory ≡ s.user_phys_memory
  pub near : out.1.dma_memory_pointer ≤ s.dma_memory_pointer + 8191

table_for-Tabled :
    (page_dir pd : ℕ) (s : Machine)
    → IsTables page_dir s.mem s.dma_memory_pointer
    → s.dma_memory_pointer + 8192 ≤ 2 ^ 32
    → pd < 1024
    → Tabled page_dir pd s (table_for page_dir pd s)
unfolding table_for
table_for-Tabled page_dir pd s t room lt =
    let (whole, fresh, near, behind, kept, user) = alloc_page_aligned_lem s room in
    let pt = (alloc_page_aligned s).0 in
    let old = (alloc_page_aligned s).1 in
    let m2 = write (clear_table 1024 0 pt old.mem) (page_dir + 4 * pd) (bit_or pt 7) in
    let is : m2 ≡ write (clear_table 1024 0 pt s.mem) (page_dir + 4 * pd) (bit_or pt 7) =
      ap (λ (m : Words). write (clear_table 1024 0 pt m) (page_dir + 4 * pd) (bit_or pt 7)) kept in
    elim (Bool-cases (bit_and (s.mem (page_dir + 4 * pd)) 1 == 0)) [
      | inl absent ↦
          let no_table : table_of s.mem page_dir pd ≡ none = rw absent refl in
          rw (absent, table_for)
            (record {
              named =
                  fresh_table_here page_dir s.mem s.dma_memory_pointer t pd pt lt no_table whole
                    fresh (omega arith) m2 is;
              tables =
                  subst (λ d. IsTables page_dir m2 d) (sym behind)
                    (fresh_IsTables page_dir s.mem s.dma_memory_pointer t pd pt lt no_table whole
                      fresh (omega arith) m2 is);
              frames =
                  fresh_frame page_dir s.mem s.dma_memory_pointer t pd pt lt no_table whole fresh
                    (omega arith) m2 is;
              up = omega arith;
              user = user;
              near = omega arith;
            })
      | inr present ↦
          let table : table_of s.mem page_dir pd ≡ some (page_mask (s.mem (page_dir + 4 * pd))) =
            rw present refl in
          rw (present, table_for)
            (record {
              named = table;
              tables = t;
              frames = λ q in_range. refl;
              up = omega arith;
              user = refl;
              near = omega arith;
            })
    ]

-- The machine `after` has the page of `vaddr` lead to the frame of `paddr`, and every other page to
-- where it led in `s`; its tables are whole and apart, and the allocators gave at most one page table.
pub record Mapped (page_dir vaddr paddr : ℕ) (s after : Machine) : Type 0 where
  pub tables : IsTables page_dir after.mem after.dma_memory_pointer
  pub up : s.dma_memory_pointer ≤ after.dma_memory_pointer
  pub user : after.user_phys_memory ≡ s.user_phys_memory
  pub near : after.dma_memory_pointer ≤ s.dma_memory_pointer + 8191
  pub leads : frame after.mem page_dir (vaddr / 4096) ≡ some (paddr / 4096 * 4096)
  pub others :
      (q : ℕ) → q < 2 ^ 20 → q ≢ vaddr / 4096 → frame after.mem page_dir q ≡ frame s.mem page_dir q

-- Mapping a page keeps the tables of the directory whole and apart. It lets the virtual page lead to
-- the frame of the physical address, and every other virtual page to where it led before; at most
-- one page table is taken from the allocator. Addresses have 32 bits, and the allocator has two
-- pages left.
pub map_vaddr_to_paddr-Mapped :
    (page_dir vaddr paddr : ℕ) (s : Machine)
    → IsTables page_dir s.mem s.dma_memory_pointer
    → s.dma_memory_pointer + 8192 ≤ 2 ^ 32
    → vaddr < 2 ^ 32
    → paddr < 2 ^ 32
    → Mapped page_dir vaddr paddr s (map_vaddr_to_paddr page_dir vaddr paddr s)
unfolding map_vaddr_to_paddr
map_vaddr_to_paddr-Mapped page_dir vaddr paddr s t room v_fits p_fits =
    let page = vaddr / 4096 in
    let tabled = table_for-Tabled page_dir (page / 1024) s t room (omega arith) in
    let pt = (table_for page_dir (page / 1024) s).0 in
    let next = (table_for page_dir (page / 1024) s).1 in
    let entry = bit_or (page_mask paddr) 7 in
    let low : page_mask paddr ≡ paddr / 4096 * 4096 = omega (arith, page_mask_lem paddr) in
    let (present, names) = entry_flags (page_mask paddr) (omega arith) (omega arith) in
    let leads : target entry ≡ some (paddr / 4096 * 4096) = rw present (ap some (names ∙ low)) in
    let table : vaddr / 2 ^ 22 ≡ page / 1024 = omega arith in
    let slot : bit_and (vaddr / 2 ^ 12) 0x03FF ≡ page % 1024 = bit_and-mask 10 (vaddr / 2 ^ 12) in
    let after : Machine = record next { mem = write next.mem (pt + 4 * (page % 1024)) entry } in
    let is : map_vaddr_to_paddr page_dir vaddr paddr s ≡ after =
      rw (table, slot, map_vaddr_to_paddr) refl in
    subst (Mapped page_dir vaddr paddr s) (sym is) (record {
      tables =
          entry_IsTables page_dir next.mem next.dma_memory_pointer tabled.tables page pt entry
            (omega arith) tabled.named;
      up = tabled.up;
      user = tabled.user;
      near = tabled.near;
      leads =
          entry_frame_here page_dir next.mem next.dma_memory_pointer tabled.tables page pt entry
            (omega arith) tabled.named
          ∙ leads;
      others = λ q lt ne.
          entry_frame_there page_dir next.mem next.dma_memory_pointer tabled.tables page pt entry
            (omega arith) tabled.named q lt ne
          ∙ tabled.frames q lt;
    })
