-- ===== src/Paging/Break.antt =====
-- sys_sbrk and map_shared_library of src/task.c and src/memory.c: runs of pages.
use my_kernel.Base.{
  ℕ, zero, suc, ◌+◌, ◌-◌, ◌*◌, ◌^◌, ◌/◌, ◌%◌, ◌<◌, ◌≤◌, ◌≡◌, ◌⊎◌, refl, ap, sym, ◌∙◌, inl, some,
  arith, ==_iff, ne→not_==, ℕ_discrete, subst, lt→ltb,
}
use my_kernel.Paging.{
  Machine, page_mask, alloc_user_page, map_vaddr_to_paddr, map_pages, map_shared_library, grow,
  sys_sbrk,
}
use my_kernel.Paging.Words.{page_mask_lem}
use my_kernel.Paging.Translate.{frame, IsTables}
use my_kernel.Paging.Mapping.{Mapped, map_vaddr_to_paddr-Mapped}

-- The machine `after` has `n` virtual pages, from number `page` on, lead to the frames from `paddr`
-- on, and every other page to where it led in `s`; its tables are whole and apart.
pub record Run (page_dir page paddr n : ℕ) (s after : Machine) : Type 0 where
  pub tables : IsTables page_dir after.mem after.dma_memory_pointer
  pub leads : (i : ℕ) → i < n → frame after.mem page_dir (page + i) ≡ some (paddr + 4096 * i)
  pub others :
      (q : ℕ)
      → q < 2 ^ 20
      → (q < page) ⊎ (page + n ≤ q)
      → frame after.mem page_dir q ≡ frame s.mem page_dir q

-- A page in front of a run.
extend :
    (page_dir vaddr paddr n : ℕ) (s s' next after : Machine)
    → vaddr % 4096 ≡ 0
    → paddr % 4096 ≡ 0
    → vaddr + 4096 * suc n ≤ 2 ^ 32
    → s'.mem ≡ s.mem
    → Mapped page_dir vaddr paddr s' next
    → Run page_dir (vaddr / 4096 + 1) (paddr + 4096) n next after
    → Run page_dir (vaddr / 4096) paddr (suc n) s after
extend page_dir vaddr paddr n s s' next after v_page p_page fits same m r = record {
  tables = r.tables;
  leads = λ i lt. elim (ℕ_discrete i 0) [
    | yes first ↦
        let here : vaddr / 4096 + i ≡ vaddr / 4096 = omega arith in
        let value : paddr / 4096 * 4096 ≡ paddr + 4096 * i = omega arith in
        ap (frame after.mem page_dir) here
        ∙ r.others (vaddr / 4096) (omega arith) (inl (omega arith))
        ∙ m.leads
        ∙ ap some value
    | no later ↦
        let there : vaddr / 4096 + i ≡ vaddr / 4096 + 1 + (i - 1) = omega arith in
        let value : paddr + 4096 + 4096 * (i - 1) ≡ paddr + 4096 * i = omega arith in
        ap (frame after.mem page_dir) there ∙ r.leads (i - 1) (omega arith) ∙ ap some value
  ];
  others = λ q in_range outside.
      r.others q in_range (ground arith)
      ∙ m.others q in_range (ground arith)
      ∙ ap (λ w. frame w page_dir q) same;
}

-- No page at all.
Run-zero :
    (page_dir page paddr : ℕ) (s : Machine)
    → IsTables page_dir s.mem s.dma_memory_pointer
    → Run page_dir page paddr 0 s s
Run-zero page_dir page paddr s t = record {
  tables = t;
  leads = λ i lt. absurd (omega arith);
  others = λ q in_range outside. refl;
}

grow-Run :
    (page_dir n vaddr : ℕ) (s : Machine)
    → IsTables page_dir s.mem s.dma_memory_pointer
    → s.dma_memory_pointer + 8192 * suc n ≤ 2 ^ 32
    → vaddr % 4096 ≡ 0
    → vaddr + 4096 * n ≤ 2 ^ 32
    → s.user_phys_memory % 4096 ≡ 0
    → s.user_phys_memory + 4096 * n < 2 ^ 32
    → Run page_dir (vaddr / 4096) s.user_phys_memory n s (grow page_dir n vaddr s)
unfolding grow alloc_user_page
grow-Run page_dir zero vaddr s t room v_page v_fits u_page u_fits =
    Run-zero page_dir (vaddr / 4096) s.user_phys_memory s t
grow-Run page_dir (suc n) vaddr s t room v_page v_fits u_page u_fits =
    let s' : Machine = record s { user_phys_memory = (s.user_phys_memory + 4096) % 2 ^ 32 } in
    let next = map_vaddr_to_paddr page_dir vaddr s.user_phys_memory s' in
    let m =
      map_vaddr_to_paddr-Mapped page_dir vaddr s.user_phys_memory s' t (omega arith) (omega arith)
        (omega arith) in
    let user : next.user_phys_memory ≡ s.user_phys_memory + 4096 = omega (arith, m.user) in
    let page : (vaddr + 4096) / 4096 ≡ vaddr / 4096 + 1 = omega arith in
    let rest =
      grow-Run page_dir n (vaddr + 4096) next m.tables (omega (arith, m.near)) (omega arith)
        (omega arith) (omega (arith, user)) (omega (arith, user)) in
    extend page_dir vaddr s.user_phys_memory n s s' next (grow page_dir n (vaddr + 4096) next)
      v_page u_page v_fits refl m
      (subst
        (λ p.
          Run page_dir p (s.user_phys_memory + 4096) n next (grow page_dir n (vaddr + 4096) next))
        page
        (subst
          (λ u. Run page_dir ((vaddr + 4096) / 4096) u n next (grow page_dir n (vaddr + 4096) next))
          user rest))

map_pages-Run :
    (page_dir n vaddr paddr : ℕ) (s : Machine)
    → IsTables page_dir s.mem s.dma_memory_pointer
    → s.dma_memory_pointer + 8192 * suc n ≤ 2 ^ 32
    → vaddr % 4096 ≡ 0
    → vaddr + 4096 * n ≤ 2 ^ 32
    → paddr % 4096 ≡ 0
    → paddr + 4096 * n < 2 ^ 32
    → Run page_dir (vaddr / 4096) paddr n s (map_pages page_dir n vaddr paddr s)
unfolding map_pages
map_pages-Run page_dir zero vaddr paddr s t room v_page v_fits u_page u_fits =
    Run-zero page_dir (vaddr / 4096) paddr s t
map_pages-Run page_dir (suc n) vaddr paddr s t room v_page v_fits p_page p_fits =
    let next = map_vaddr_to_paddr page_dir vaddr paddr s in
    let m =
      map_vaddr_to_paddr-Mapped page_dir vaddr paddr s t (omega arith) (omega arith)
        (omega arith) in
    let page : (vaddr + 4096) / 4096 ≡ vaddr / 4096 + 1 = omega arith in
    let rest =
      map_pages-Run page_dir n (vaddr + 4096) (paddr + 4096) next m.tables (omega (arith, m.near))
        (omega arith) (omega arith) (omega arith) (omega arith) in
    extend page_dir vaddr paddr n s s next (map_pages page_dir n (vaddr + 4096) (paddr + 4096) next)
      v_page p_page v_fits refl m
      (subst
        (λ p.
          Run page_dir p (paddr + 4096) n next
            (map_pages page_dir n (vaddr + 4096) (paddr + 4096) next))
        page rest)

-- The pages that a program gets when its break moves up by `increment`.
abbrev pub new_pages : ℕ → ℕ → ℕ
new_pages old_break increment = (old_break + increment + 4095) / 4096 - (old_break + 4095) / 4096

-- The system call sbrk returns the old break and moves the break by the increment. The virtual pages
-- between the two breaks, rounded up, lead to as many new frames of user memory in order, and every
-- other page of the program leads to where it led before. The increment is not negative, and the
-- addresses, the page tables and the user memory stay below 2^32.
pub sys_sbrk_lem :
    (page_dir old_break increment : ℕ) (s : Machine)
    → IsTables page_dir s.mem s.dma_memory_pointer
    → s.dma_memory_pointer + 8192 * suc (new_pages old_break increment) ≤ 2 ^ 32
    → old_break + increment + 4095 < 2 ^ 32
    → s.user_phys_memory % 4096 ≡ 0
    → s.user_phys_memory + 4096 * new_pages old_break increment < 2 ^ 32
    → ((sys_sbrk page_dir old_break increment s).0 ≡ old_break)
      × ((sys_sbrk page_dir old_break increment s).1 ≡ old_break + increment)
      × Run page_dir
          ((old_break + 4095) / 4096)
          s.user_phys_memory
          (new_pages old_break increment)
          s
          (sys_sbrk page_dir old_break increment s).2
unfolding sys_sbrk
sys_sbrk_lem page_dir old_break increment s t room fits u_page u_fits =
    let n = new_pages old_break increment in
    let first = (old_break + 4095) / 4096 * 4096 in
    let new_break : (old_break + increment) % 2 ^ 32 ≡ old_break + increment = omega arith in
    let low : (old_break + 4095) % 2 ^ 32 ≡ old_break + 4095 = omega arith in
    let high : (old_break + increment + 4095) % 2 ^ 32 ≡ old_break + increment + 4095 =
      omega arith in
    let start : page_mask (old_break + 4095) ≡ first =
      omega (arith, page_mask_lem (old_break + 4095)) in
    let stop : page_mask (old_break + increment + 4095)
        ≡ (old_break + increment + 4095) / 4096 * 4096 =
      omega (arith, page_mask_lem (old_break + increment + 4095)) in
    let pages : ((old_break + increment + 4095) / 4096 * 4096 - first) / 4096 ≡ n = omega arith in
    let page : first / 4096 ≡ (old_break + 4095) / 4096 = omega arith in
    elim (ℕ_discrete increment 0) [
      | yes still ↦
          let none_new : n ≡ 0 = ap (new_pages old_break) still ∙ omega arith in
          rw ((==_iff increment 0).1 still) (
            refl,
            omega arith,
            subst (λ k. Run page_dir ((old_break + 4095) / 4096) s.user_phys_memory k s s)
                (sym none_new)
                (Run-zero page_dir ((old_break + 4095) / 4096) s.user_phys_memory s t),
          )
      | no more ↦
          rw
            (
              ne→not_== increment 0 more,
              new_break,
              lt→ltb old_break (old_break + increment) (omega arith),
              low,
              high,
              start,
              stop,
              pages,
            )
            (
              refl,
              refl,
              subst (λ p. Run page_dir p s.user_phys_memory n s (grow page_dir n first s)) page
                  (grow-Run page_dir n first s t room (omega arith) (omega arith) u_page u_fits),
            )
    ]

-- Mapping a shared library lets every page that its virtual range touches lead to its frame, in
-- order, and every other page to where it led before. The addresses and the page tables stay below
-- 2^32.
pub map_shared_library_lem :
    (page_dir vaddr paddr size : ℕ) (s : Machine)
    → IsTables page_dir s.mem s.dma_memory_pointer
    → let n = (vaddr + size + 4095) / 4096 - vaddr / 4096 in
      s.dma_memory_pointer + 8192 * suc n ≤ 2 ^ 32
      → vaddr + size + 4095 < 2 ^ 32
      → paddr + 4096 * n < 2 ^ 32
      → Run page_dir
          (vaddr / 4096)
          (paddr / 4096 * 4096)
          n
          s
          (map_shared_library page_dir vaddr paddr size s)
unfolding map_shared_library
map_shared_library_lem page_dir vaddr paddr size s t room fits p_fits =
    let n = (vaddr + size + 4095) / 4096 - vaddr / 4096 in
    let start : page_mask vaddr ≡ vaddr / 4096 * 4096 = omega (arith, page_mask_lem vaddr) in
    let phys : page_mask paddr ≡ paddr / 4096 * 4096 = omega (arith, page_mask_lem paddr) in
    let no_wrap : (vaddr + size + 4095) % 2 ^ 32 ≡ vaddr + size + 4095 = omega arith in
    let stop : page_mask (vaddr + size + 4095) ≡ (vaddr + size + 4095) / 4096 * 4096 =
      omega (arith, page_mask_lem (vaddr + size + 4095)) in
    let pages : ((vaddr + size + 4095) / 4096 * 4096 - vaddr / 4096 * 4096) / 4096 ≡ n =
      omega arith in
    let first : vaddr / 4096 * 4096 / 4096 ≡ vaddr / 4096 = omega arith in
    rw (start, phys, no_wrap, stop, pages)
      (subst
        (λ p.
          Run page_dir p (paddr / 4096 * 4096) n s
            (map_pages page_dir n (vaddr / 4096 * 4096) (paddr / 4096 * 4096) s))
        first
        (map_pages-Run page_dir n (vaddr / 4096 * 4096) (paddr / 4096 * 4096) s t room (omega arith)
          (omega arith) (omega arith) (omega arith)))
