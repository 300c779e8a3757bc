-- ===== src/Paging/Translate.antt =====
-- The address translation that the page tables of src/task.c are for: two levels of tables, as the
-- processor walks them.
use my_kernel.Base.{
  ℕ, ◌+◌, ◌*◌, ◌/◌, ◌%◌, ◌<◌, ◌≤◌, ◌≡◌, ◌≢◌, ap, ◌==◌, if◌then◌else◌, inl, inr, Bool-cases, Option,
  none, some, bit_and, arith, ◌>>=◌,
}
use my_kernel.Paging.{Words, page_mask}
use my_kernel.Paging.Words.{page_mask_lem}

-- What an entry points to, if it is present.
abbrev pub target : ℕ → Option ℕ
target entry = if bit_and entry 1 == 0 then none else some (page_mask entry)

abbrev pub table_of : Words → ℕ → ℕ → Option ℕ
table_of m page_dir i = target (m (page_dir + 4 * i))

-- The frame of a virtual page, by its number.
abbrev pub frame : Words → ℕ → ℕ → Option ℕ
frame m page_dir page =
    table_of m page_dir (page / 1024) >>= λ pt. target (m (pt + 4 * (page % 1024)))

-- The tables of a directory are whole pages in front of the allocator's pointer, apart from the
-- directory and from each other.
pub record IsTables (page_dir : ℕ) (m : Words) (dma : ℕ) : Type 0 where
  pub aligned : page_dir % 4096 ≡ 0
  pub below : page_dir + 4096 ≤ dma
  pub table :
      {i pt : ℕ} → i < 1024 → table_of m page_dir i ≡ some pt → (pt + 4096 ≤ dma) × (pt ≢ page_dir)
  pub apart :
      {i j pt : ℕ}
      → i < 1024
      → j < 1024
      → table_of m page_dir i ≡ some pt
      → table_of m page_dir j ≡ some pt
      → i ≡ j

target_aligned : (entry : ℕ) {pt : ℕ} → target entry ≡ some pt → pt % 4096 ≡ 0
target_aligned entry {pt} is = elim (Bool-cases (bit_and entry 1 == 0)) [
  | inl absent ↦ ground arith
  | inr present ↦
      let same : page_mask entry ≡ pt = ground arith in omega (arith, page_mask_lem entry)
]

pub table_of-aligned :
    (m : Words) (page_dir i : ℕ) {pt : ℕ} → table_of m page_dir i ≡ some pt → pt % 4096 ≡ 0
table_of-aligned m page_dir i is = target_aligned (m (page_dir + 4 * i)) is

pub frame_in :
    (m : Words) (page_dir page : ℕ) {pt : ℕ}
    → table_of m page_dir (page / 1024) ≡ some pt
    → frame m page_dir page ≡ target (m (pt + 4 * (page % 1024)))
frame_in m page_dir page is = ap (λ o. o >>= λ pt. target (m (pt + 4 * (page % 1024)))) is

pub frame-none :
    (m : Words) (page_dir page : ℕ)
    → table_of m page_dir (page / 1024) ≡ none
    → frame m page_dir page ≡ none
frame-none m page_dir page is = ap (λ o. o >>= λ pt. target (m (pt + 4 * (page % 1024)))) is
