-- ===== src/Paging/Map.antt =====
-- map_vaddr_to_paddr of src/task.c against the translation of addresses.
use my_kernel.Base.{
  ℕ, ◌+◌, ◌*◌, ◌^◌, ◌/◌, ◌%◌, ◌<◌, ◌≤◌, ◌≡◌, ◌≢◌, ◌⊎◌, ap, sym, ◌∙◌, inl, inr, Option-cases, none,
  some, bit_or, arith, ℕ_discrete,
}
use my_kernel.Paging.{Words, write, clear_table}
use my_kernel.Paging.Words.{entry_flags, write_same, write_other, clear_table_other, clear_table_in}
use my_kernel.Paging.Translate.{
  target, table_of, frame, IsTables, table_of-aligned, frame_in, frame-none,
}

-- Writing an entry of a table that a directory names.
module _ (page_dir : ℕ) (m : Words) (dma : ℕ) (t : IsTables page_dir m dma) (page pt v : ℕ)
    (in_range : page < 2 ^ 20) (named : table_of m page_dir (page / 1024) ≡ some pt) where
  entry_table_same :
      (i : ℕ)
      → i < 1024
      → table_of (write m (pt + 4 * (page % 1024)) v) page_dir i ≡ table_of m page_dir i
  entry_table_same i lt =
      let not_dir = (t.table {i = page / 1024} {pt = pt} (omega arith) named).1 in
      let whole = table_of-aligned m page_dir (page / 1024) named in
      ap target (
        write_other m (pt + 4 * (page % 1024)) v (page_dir + 4 * i)
          (apart_pages page_dir pt i (page % 1024) t.aligned whole not_dir lt (omega arith)))
    where
      apart_pages :
          (a b i j : ℕ)
          → a % 4096 ≡ 0
          → b % 4096 ≡ 0
          → b ≢ a
          → i < 1024
          → j < 1024
          → a + 4 * i ≢ b + 4 * j
      apart_pages a b i j x y ne lt lt' e = ne (omega arith)

  pub entry_frame_here : frame (write m (pt + 4 * (page % 1024)) v) page_dir page ≡ target v
  entry_frame_here =
      frame_in (write m (pt + 4 * (page % 1024)) v) page_dir page
        (entry_table_same (page / 1024) (omega arith) ∙ named)
      ∙ ap target (write_same m (pt + 4 * (page % 1024)) v)

  pub entry_frame_there :
      (q : ℕ)
      → q < 2 ^ 20
      → q ≢ page
      → frame (write m (pt + 4 * (page % 1024)) v) page_dir q ≡ frame m page_dir q
  entry_frame_there q lt ne = elim (Option-cases (table_of m page_dir (q / 1024))) [
    | inl absent ↦
        frame-none (write m (pt + 4 * (page % 1024)) v) page_dir q
          (entry_table_same (q / 1024) (omega arith) ∙ absent)
        ∙ sym (frame-none m page_dir q absent)
    | inr (other, present) ↦
        frame_in (write m (pt + 4 * (page % 1024)) v) page_dir q
          (entry_table_same (q / 1024) (omega arith) ∙ present)
        ∙ ap target (
            write_other m (pt + 4 * (page % 1024)) v (other + 4 * (q % 1024))
              (apart_entries other present))
        ∙ sym (frame_in m page_dir q present)
  ]
    where
      apart_entries :
          (other : ℕ)
          → table_of m page_dir (q / 1024) ≡ some other
          → other + 4 * (q % 1024) ≢ pt + 4 * (page % 1024)
      apart_entries other present same = elim (ℕ_discrete other pt) [
        | yes is ↦
            let one : q / 1024 ≡ page / 1024 =
              t.apart (omega arith) (omega arith) (present ∙ ap some is) named in
            ne (omega arith)
        | no not ↦
            let a = table_of-aligned m page_dir (q / 1024) present in
            let b = table_of-aligned m page_dir (page / 1024) named in not (omega arith)
      ]

  pub entry_IsTables : IsTables page_dir (write m (pt + 4 * (page % 1024)) v) dma
  entry_IsTables = record {
    aligned = t.aligned;
    below = t.below;
    table = λ {i} {pt = p} lt is. t.table lt (sym (entry_table_same i lt) ∙ is);
    apart = λ {i} {j} {pt = p} lt lt' is is'.
        t.apart lt lt' (sym (entry_table_same i lt) ∙ is) (sym (entry_table_same j lt') ∙ is');
  }

-- Giving a directory entry that is not present a new table.
module _ (page_dir : ℕ) (m : Words) (dma : ℕ) (t : IsTables page_dir m dma) (pd pt : ℕ)
    (in_range : pd < 1024) (absent : table_of m page_dir pd ≡ none) (aligned : pt % 4096 ≡ 0)
    (fresh : dma ≤ pt) (fits : pt + 4096 < 2 ^ 32) (after : Words)
    (is : after ≡ write (clear_table 1024 0 pt m) (page_dir + 4 * pd) (bit_or pt 7)) where
  fresh_other : (a : ℕ) → (a < pt) ⊎ (pt + 4096 ≤ a) → a ≢ page_dir + 4 * pd → after a ≡ m a
  fresh_other a outside ne =
      ap (λ (w : Words). w a) is
      ∙ write_other (clear_table 1024 0 pt m) (page_dir + 4 * pd) (bit_or pt 7) a ne
      ∙ clear_table_other 1024 0 pt m a (ground arith)

  pub fresh_table_here : table_of after page_dir pd ≡ some pt
  fresh_table_here =
      let (present, names) = entry_flags pt aligned (omega arith) in
      ap (λ (w : Words). target (w (page_dir + 4 * pd))) is
      ∙ ap target (write_same (clear_table 1024 0 pt m) (page_dir + 4 * pd) (bit_or pt 7))
      ∙ rw present (ap some names)

  fresh_table_other :
      (i : ℕ) → i < 1024 → i ≢ pd → table_of after page_dir i ≡ table_of m page_dir i
  fresh_table_other i lt ne =
      ap target
        (fresh_other (page_dir + 4 * i) (inl (omega (arith, t.below))) (λ e. ne (omega arith)))

  pub fresh_frame : (q : ℕ) → q < 2 ^ 20 → frame after page_dir q ≡ frame m page_dir q
  fresh_frame q lt = elim (ℕ_discrete (q / 1024) pd) [
    | yes here ↦
        let named : table_of after page_dir (q / 1024) ≡ some pt =
          ap (table_of after page_dir) here ∙ fresh_table_here in
        frame_in after page_dir q named
        ∙ ap target (zero_entry (q % 1024) (omega arith))
        ∙ sym (frame-none m page_dir q (ap (table_of m page_dir) here ∙ absent))
    | no other ↦ elim (Option-cases (table_of m page_dir (q / 1024))) [
      | inl no_table ↦
          frame-none after page_dir q (fresh_table_other (q / 1024) (omega arith) other ∙ no_table)
          ∙ sym (frame-none m page_dir q no_table)
      | inr (p, present) ↦
          frame_in after page_dir q (fresh_table_other (q / 1024) (omega arith) other ∙ present)
          ∙ ap target (old_entry p present)
          ∙ sym (frame_in m page_dir q present)
    ]
  ]
    where
      zero_entry : (j : ℕ) → j < 1024 → after (pt + 4 * j) ≡ 0
      zero_entry j lt =
          ap (λ (w : Words). w (pt + 4 * j)) is
          ∙ write_other (clear_table 1024 0 pt m) (page_dir + 4 * pd) (bit_or pt 7) (pt + 4 * j)
              (λ e. absurd (omega (arith, t.below)))
          ∙ clear_table_in 1024 0 pt m j (omega arith) (omega arith)

      old_entry :
          (p : ℕ)
          → table_of m page_dir (q / 1024) ≡ some p
          → after (p + 4 * (q % 1024)) ≡ m (p + 4 * (q % 1024))
      old_entry p present =
          let (below, not_dir) = t.table {i = q / 1024} {pt = p} (omega arith) present in
          let whole = table_of-aligned m page_dir (q / 1024) present in
          fresh_other (p + 4 * (q % 1024)) (inl (omega arith))
            (λ e. not_dir (omega (arith, t.aligned)))

  pub fresh_IsTables : IsTables page_dir after (pt + 4096)
  fresh_IsTables = record {
    aligned = t.aligned;
    below = omega (arith, t.below);
    table = λ {i} {pt = p} lt named. elim (ℕ_discrete i pd) [
      | yes here ↦
          let same : some p ≡ some pt =
            sym named ∙ ap (table_of after page_dir) here ∙ fresh_table_here in
          let this : p ≡ pt = ground arith in (omega arith, λ e. absurd (omega (arith, t.below)))
      | no other ↦
          let (below, not_dir) = t.table lt (sym (fresh_table_other i lt other) ∙ named) in
          (omega arith, not_dir)
    ];
    apart = λ {i} {j} {pt = p} lt lt' named named'. elim (ℕ_discrete i pd) [
      | yes here ↦ elim (ℕ_discrete j pd) [
        | yes here' ↦ omega arith
        | no other ↦ absurd (new_table i j p lt' here other named named')
      ]
      | no other ↦ elim (ℕ_discrete j pd) [
        | yes here' ↦ absurd (new_table j i p lt here' other named' named)
        | no other' ↦
            t.apart lt lt' (sym (fresh_table_other i lt other) ∙ named)
              (sym (fresh_table_other j lt' other') ∙ named')
      ]
    ];
  }
    where
      new_table :
          (i j p : ℕ)
          → j < 1024
          → i ≡ pd
          → j ≢ pd
          → table_of after page_dir i ≡ some p
          → table_of after page_dir j ≡ some p
          → ⊥
      new_table i j p lt here other named named' =
          let same : some p ≡ some pt =
            sym named ∙ ap (table_of after page_dir) here ∙ fresh_table_here in
          let this : p ≡ pt = ground arith in
          let old = (t.table lt (sym (fresh_table_other j lt other) ∙ named')).0 in omega arith
