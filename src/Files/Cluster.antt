-- ===== src/Files/Cluster.antt =====
-- The cluster that ardaos_write_file of src/disk.c takes for a new file.
use my_kernel.Base.{
  ℕ, zero, suc, ◌+◌, ◌-◌, ◌*◌, ◌/◌, ◌%◌, ◌<◌, ◌≤◌, ◌==◌, ◌≡◌, refl, ap, ap₂, sym, ◌∙◌, subst,
  if◌then◌else◌, Bool, true, false, Option, none, some, arith, Option-cases, inl, inr, ==_iff,
  ne→not_==, ℕ_discrete,
}
use my_kernel.Disk.{Buffer, Device, Volume, word_at}
use my_kernel.Files.{sector_at, put_bytes, low_first2}
use my_kernel.Files.Save.{free_cluster, write_fat, take_cluster}

free_cluster_lem :
    (n i j : ℕ) (t : Buffer)
    → free_cluster n i t ≡ some j
    → (i ≤ j) × (j < i + n) × (word_at t (2 * j) ≡ 0)
unfolding free_cluster
free_cluster_lem zero i j t e = absurd (cc)
free_cluster_lem (suc n) i j t e = elim (ℕ_discrete (word_at t (2 * i)) 0) [
  | yes z ↦
      let here : some i ≡ some j = (rw (free_cluster, (==_iff _ 0).1 z) refl) ∙ e in
      let same : i ≡ j = cc in
      (omega (arith, same), omega (arith, same), ap (λ (m : ℕ). word_at t (2 * m)) (sym same) ∙ z)
  | no nz ↦
      let later : free_cluster n (i + 1) t ≡ some j =
        (rw (free_cluster, ne→not_== _ 0 nz) refl) ∙ e in
      let rest = free_cluster_lem n (i + 1) j t later in
      (omega (arith, rest.0), omega (arith, rest.1), rest.2)
]

-- What is known of a cluster that is taken: it is the number of a sector's entry that was free.
abbrev pub WasFree : Volume → Device → ℕ → ℕ → Type 0
WasFree v device fs c =
    (fs ≤ c / 256)
    × (word_at (sector_at device (v.bpb.reserved_sectors + c / 256)) (2 * (c % 256)) ≡ 0)
    × ((c / 256 ≡ 0) → 2 ≤ c)

taken :
    (v : Volume) (device : Device) (fs i : ℕ)
    → free_cluster
        (256 - (if fs == 0 then 2 else 0))
        (if fs == 0 then 2 else 0)
        (sector_at device (v.bpb.reserved_sectors + fs))
      ≡ some i
    → WasFree v device fs (fs * 256 + i)
taken v device fs i e =
    let start = if fs == 0 then 2 else 0 in
    let small : start ≤ 2 = low (fs == 0) in
    let found = free_cluster_lem (256 - start) start i _ e in
    let row : (fs * 256 + i) / 256 ≡ fs = omega (arith, found.1, small) in
    let column : (fs * 256 + i) % 256 ≡ i = omega (arith, found.1, small) in
    (
      omega (arith, row),
      ap₂ (λ (r m : ℕ). word_at (sector_at device (v.bpb.reserved_sectors + r)) (2 * m)) row column
          ∙ found.2,
      λ first.
          let z : fs ≡ 0 = sym row ∙ first in
          let two_start : start ≡ 2 = rw ((==_iff fs 0).1 z) refl in
          omega (arith, found.0, two_start),
    )
  where
    low : (b : Bool) → (if b then 2 else 0) ≤ 2
    low true = omega arith
    low false = omega arith

-- A new file gets a cluster that was free in the table, and never one of the two reserved ones.
pub take_cluster-WasFree :
    (v : Volume) (device : Device) (n fs c : ℕ) (after : Device)
    → take_cluster v device n fs ≡ some (c, after)
    → WasFree v device fs c
unfolding take_cluster
take_cluster-WasFree v device zero fs c after e = absurd (cc)
take_cluster-WasFree v device (suc n) fs c after e =
    let start : ℕ = if fs == 0 then 2 else 0 in
    let t : Buffer = sector_at device (v.bpb.reserved_sectors + fs) in
    elim (Option-cases (free_cluster (256 - start) start t)) [
      | inr (i, f) ↦
          let full : Buffer = put_bytes (2 * i) (low_first2 0xFFFF) t in
          let here : some (fs * 256 + i, write_fat v fs full device) ≡ some (c, after) =
            (rw (take_cluster, f) refl) ∙ e in
          subst (WasFree v device fs) (ap first_of here) (taken v device fs i f)
      | inl f ↦
          let later : take_cluster v device n (fs + 1) ≡ some (c, after) =
            (rw (take_cluster, f) refl) ∙ e in
          let rest = take_cluster-WasFree v device n (fs + 1) c after later in
          let row : fs ≤ c / 256 = omega (arith, rest.0) in (row, rest.1, rest.2)
    ]
  where
    first_of : Option (ℕ × Device) → ℕ
    first_of none = 0
    first_of (some (a, d)) = a
