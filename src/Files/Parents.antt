-- ===== src/Files/Parents.antt =====
-- A new folder of src/disk.c: the search for its parent ends, and one sector is written at most.
use my_kernel.Base.{
  ℕ, zero, suc, ◌+◌, ◌<◌, ◌≡◌, ◌≢◌, ◌⊎◌, inl, inr, refl, leb, some, List, [], ◌∷◌, length, arith,
  Option-cases, Bool-cases, leb→le, le→not_ltb,
}
use my_kernel.Disk.{selected, ata_command, Buffer, Device, ata_lba_write, Volume, cluster_to_lba}
use my_kernel.Fat.{find_in, entry_of, parse_path_node}
use my_kernel.Fat.Path.{parse_path_node-length}
use my_kernel.Files.{failure, find_free, sector_at}
use my_kernel.Files.Folders.{
  Parents, no_parent, parent, is_folder, parent_loop, fat16_get_parent_dir, new_folder,
  ardaos_create_dir,
}

parent_loop-total :
    (v : Volume) (device : Device) (fuel : ℕ) (path : List ℕ) (lba sectors : ℕ)
    → length path < fuel
    → (r : Parents) × (parent_loop v device fuel path lba sectors ≡ some r)
unfolding parent_loop
parent_loop-total v device zero path lba sectors enough = absurd (omega arith)
parent_loop-total v device (suc fuel) path lba sectors enough =
    elim (Option-cases (parse_path_node path)) [
      | inl e ↦ (no_parent, rw (parent_loop, e) refl)
      | inr ((node, []), e) ↦ (
        parent (record { dir_lba = lba; dir_sectors = sectors; target = node }),
        rw (parent_loop, e) refl,
      )
      | inr ((node, c ∷ cs), e) ↦
          let shorter = (parse_path_node-length path e).2 in
          elim (Option-cases (find_in (is_folder node) device lba sectors 0)) [
            | inl f ↦ (no_parent, rw (parent_loop, e, f) refl)
            | inr (place, f) ↦
                let deeper =
                  parent_loop-total v device fuel (c ∷ cs)
                    (cluster_to_lba v (entry_of device lba place).cluster) v.bpb.sectors_per_cluster
                    (omega arith) in
                (deeper.0, rw (parent_loop, e, f) deeper.1)
          ]
    ]

-- A write of one sector changes no other than the one that the registers select.
ata_lba_write-other :
    (lba : ℕ) (source : Buffer) (device : Device) (l o : ℕ)
    → l ≢ selected (ata_command 0x30 lba 1)
    → ata_lba_write lba 1 source device l o ≡ device l o
unfolding ata_lba_write
ata_lba_write-other lba source device l o ne =
    let first = selected (ata_command 0x30 lba 1) in
    elim (Bool-cases (leb first l)) [
      | inl e ↦ rw (e, le→not_ltb l (first + 1) (omega (arith, leb→le first l e, ne))) refl
      | inr e ↦ rw e refl
    ]

-- What a call may leave: -1 and the disk as it was, or 0 and a change in one sector.
abbrev pub IsCreated : Device → ℕ × Device → Type 0
IsCreated device (result, after) =
    ((result ≡ failure) × (after ≡ device))
    ⊎ ((result ≡ 0) × ((s : ℕ) × ((l o : ℕ) → l ≢ s → after l o ≡ device l o)))

created :
    (v : Volume) (full_path : List ℕ) (device : Device) (r : Parents)
    → fat16_get_parent_dir v device full_path ≡ some r
    → (t : ℕ × Device) × (ardaos_create_dir v full_path device ≡ some t) × IsCreated device t
unfolding ardaos_create_dir
created v full_path device no_parent e =
    ((failure, device), rw (ardaos_create_dir, e) refl, inl (refl, refl))
created v full_path device (parent p) e =
    elim (Option-cases (find_free device p.dir_lba p.dir_sectors 0)) [
      | inl f ↦ ((failure, device), rw (ardaos_create_dir, e, f) refl, inl (refl, refl))
      | inr ((s, i), f) ↦
          let dir = new_folder p.target.name i (sector_at device (p.dir_lba + s)) in
          (
            (0, ata_lba_write (p.dir_lba + s) 1 dir device),
            rw (ardaos_create_dir, e, f) refl,
            inr (
              refl,
              (
                selected (ata_command 0x30 (p.dir_lba + s) 1),
                ata_lba_write-other (p.dir_lba + s) dir device,
              ),
            ),
          )
    ]

fat16_get_parent_dir-total :
    (v : Volume) (device : Device) (full_path : List ℕ)
    → (r : Parents) × (fat16_get_parent_dir v device full_path ≡ some r)
unfolding fat16_get_parent_dir
fat16_get_parent_dir-total v device full_path =
    parent_loop-total v device (length full_path + 1) full_path v.root_dir_start_lba 32
      (omega arith)

-- Making a folder always ends: with -1 and the disk as it was, or with 0 and a change in one sector
-- at most.
pub ardaos_create_dir-IsCreated :
    (v : Volume) (full_path : List ℕ) (device : Device)
    → (r : ℕ × Device) × (ardaos_create_dir v full_path device ≡ some r) × IsCreated device r
ardaos_create_dir-IsCreated v full_path device =
    let (r, e) = fat16_get_parent_dir-total v device full_path in created v full_path device r e
