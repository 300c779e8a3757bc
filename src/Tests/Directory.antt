-- ===== src/Tests/Directory.antt =====
-- Runs of the models of reading, writing and deleting files and of making folders.
use my_kernel.Base.{ℕ, ◌≡◌, zero, suc, inl, inr, All, refl, some, List, [], ◌∷◌, replicate, arith}
use my_kernel.Disk.{Device, Volume, default_bpb, ata_lba_read, word_at}
use my_kernel.Files.Load.{read_chunks}
use my_kernel.Files.Chunks.{loaded, read_chunks-loaded}
use my_kernel.Files.Remove.{freed, free_chain}
use my_kernel.Files.Chain.{zero_all, IsLink, OnlyFreed, free_chain-total, free_chain-IsChain}
use my_kernel.Files.Save.{free_cluster, take_cluster}
use my_kernel.Files.Cluster.{WasFree, take_cluster-WasFree}
use my_kernel.Files.Folders.{ardaos_create_dir}
use my_kernel.Files.Parents.{IsCreated, ardaos_create_dir-IsCreated}

-- A disk of zeros with the fallback geometry.
abbrev empty_disk : Device
empty_disk l o = 0

abbrev volume : Volume
volume = record { bpb = default_bpb; root_dir_start_lba = 65; data_start_lba = 97 }

-- A file of 300 sectors: three chunks.
read_chunks-loaded_example :
    read_chunks 301 empty_disk 97 300 0 (λ _. 1) ≡ some (loaded empty_disk 97 300 0 (λ _. 1))
read_chunks-loaded_example =
    read_chunks-loaded 301 empty_disk 97 300 0 (λ _. 1) (omega arith) (omega arith)

-- A chain of the clusters 2 and 3, and a circle of the same two.
abbrev table : ℕ → List ℕ
table last = 0xFFF8 ∷ 0xFFFF ∷ 3 ∷ last ∷ replicate 252 0

free_links : (n : ℕ) → All (IsLink 256) (replicate n 0)
free_links zero = tt
free_links (suc n) = (inl (omega arith), free_links n)

free_chain-total_example :
    (after : List ℕ) × (free_chain 258 2 (table 2) ≡ freed after) × OnlyFreed (table 2) after
free_chain-total_example =
    free_chain-total 258 2 (table 2) (inl (omega arith))
      (
        inr (omega arith),
        (inr (omega arith), (inl (omega arith), (inl (omega arith), free_links 252))),
      )
      (omega arith)

free_chain-IsChain_example :
    free_chain 258 2 (table 0xFFFF) ≡ freed (zero_all (2 ∷ 3 ∷ []) (table 0xFFFF))
free_chain-IsChain_example =
    free_chain-IsChain 258 2 (2 ∷ 3 ∷ []) (table 0xFFFF) refl
      (
        refl,
        omega arith,
        omega arith,
        ((λ e. absurd (omega arith)), tt),
        (refl, omega arith, omega arith, tt, refl),
      )
      (omega arith)

take_cluster-WasFree_example : WasFree volume empty_disk 0 2
unfolding take_cluster free_cluster word_at ata_lba_read
take_cluster-WasFree_example = take_cluster-WasFree volume empty_disk 32 0 2 _ refl

ardaos_create_dir-IsCreated_example :
    (r : ℕ × Device) × (ardaos_create_dir volume (b'A' ∷ []) empty_disk ≡ some r)
    × IsCreated empty_disk r
ardaos_create_dir-IsCreated_example = ardaos_create_dir-IsCreated volume (b'A' ∷ []) empty_disk
