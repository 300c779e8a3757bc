-- ===== src/Fat/Find.antt =====
-- The search for a directory entry in src/disk.c.
use my_kernel.Base.{
  ℕ, zero, suc, ◌+◌, ◌*◌, ◌<◌, ◌≤◌, ◌≡◌, ◌≢◌, ◌⊎◌, refl, subst, sym, if◌then◌else◌, Bool, true,
  false, Bool-cases, Option-cases, inl, inr, Option, none, some, List, [], ◌∷◌, length, arith,
  ==_iff, ne→not_==, ℕ_discrete,
}
use my_kernel.Disk.{Buffer, Device, Volume, cluster_to_lba}
use my_kernel.Fat.{
  Entry, Lookup, failed, done, entry_at, find_slot, find_in, entry_of, matches_node, is_directory,
  parse_path_node, find_entry_loop, fat16_find_entry,
}
use my_kernel.Fat.Path.{parse_path_node-length}

-- The first byte of the name in slot `i`.
abbrev pub first_byte : Buffer → ℕ → ℕ
first_byte sector i = sector (32 * i)

-- A slot that the search skips: deleted, or another entry.
abbrev pub Skipped : (Entry → Bool) → Buffer → ℕ → Type 0
Skipped matches sector i =
    (first_byte sector i ≢ 0)
    × ((first_byte sector i ≡ 0xE5) ⊎ (matches (entry_at sector i) ≡ false))

-- A slot that the search returns.
abbrev pub Hit : (Entry → Bool) → Buffer → ℕ → Type 0
Hit matches sector i =
    (first_byte sector i ≢ 0) × (first_byte sector i ≢ 0xE5) × (matches (entry_at sector i) ≡ true)

-- The scan of `n` slots from slot `i` on returns the first entry in use that matches, before the end
-- of the directory; or there is none, up to the end of the directory or of the sector.
abbrev pub SlotScan : (Entry → Bool) → Buffer → ℕ → ℕ → Option ℕ → Type 0
SlotScan matches sector i n r =
    ((k : ℕ) × (r ≡ some k)
      × (i ≤ k)
      × (k < i + n)
      × Hit matches sector k
      × ((j : ℕ) → i ≤ j → j < k → Skipped matches sector j))
    ⊎ ((r ≡ none)
        × ((e : ℕ) × (i ≤ e)
            × (e ≤ i + n)
            × ((e ≡ i + n) ⊎ (first_byte sector e ≡ 0))
            × ((j : ℕ) → i ≤ j → j < e → Skipped matches sector j)))

skip_first :
    (matches : Entry → Bool) (sector : Buffer) (i e : ℕ)
    → Skipped matches sector i
    → ((j : ℕ) → i + 1 ≤ j → j < e → Skipped matches sector j)
    → (j : ℕ) → i ≤ j
    → j < e
    → Skipped matches sector j
skip_first matches sector i e here later j lo hi = elim (ℕ_discrete j i) [
  | yes same ↦ subst (Skipped matches sector) (sym same) here
  | no ne ↦ later j (omega arith) hi
]

skip_slot :
    (matches : Entry → Bool) (sector : Buffer) (i n : ℕ) (r : Option ℕ)
    → Skipped matches sector i
    → SlotScan matches sector (i + 1) n r
    → SlotScan matches sector i (suc n) r
skip_slot matches sector i n r here (inl (k, e, lo, hi, hit, before)) =
    inl (k, e, omega arith, omega arith, hit, skip_first matches sector i k here before)
skip_slot matches sector i n r here (inr (e, (stop, lo, le, inl end, before))) = inr (
  e,
  (stop, omega arith, omega arith, inl (omega arith), skip_first matches sector i stop here before),
)
skip_slot matches sector i n r here (inr (e, (stop, lo, le, inr zero_byte, before))) = inr (
  e,
  (stop, omega arith, omega arith, inr zero_byte, skip_first matches sector i stop here before),
)

find_slot-SlotScan :
    (matches : Entry → Bool) (sector : Buffer) (i n : ℕ)
    → SlotScan matches sector i n (find_slot matches n i sector)
unfolding find_slot
find_slot-SlotScan matches sector i zero =
    inr (refl, (i, omega arith, omega arith, inl (omega arith), λ j lo hi. absurd (omega arith)))
find_slot-SlotScan matches sector i (suc n) =
    let later = find_slot-SlotScan matches sector (i + 1) n in
    let rest = find_slot matches n (i + 1) sector in
    elim (ℕ_discrete (first_byte sector i) 0) [
      | yes end ↦
          rw ((==_iff _ 0).1 end)
            (inr (refl, (i, omega arith, omega arith, inr end, λ j lo hi. absurd (omega arith))))
      | no on ↦ elim (ℕ_discrete (first_byte sector i) 0xE5) [
        | yes deleted ↦
            rw (ne→not_== (first_byte sector i) 0 on, (==_iff _ 0xE5).1 deleted)
              (skip_slot matches sector i n rest (on, inl deleted) later)
        | no kept ↦ elim (Bool-cases (matches (entry_at sector i))) [
          | inl hit ↦
              rw
                (
                  ne→not_== (first_byte sector i) 0 on,
                  ne→not_== (first_byte sector i) 0xE5 kept,
                  hit,
                )
                (inl (
                  i,
                  refl,
                  omega arith,
                  omega arith,
                  (on, kept, hit),
                  λ j lo hi. absurd (omega arith),
                ))
          | inr other ↦
              rw
                (
                  ne→not_== (first_byte sector i) 0 on,
                  ne→not_== (first_byte sector i) 0xE5 kept,
                  other,
                )
                (skip_slot matches sector i n rest (on, inr other) later)
        ]
      ]
    ]

-- The search of one directory sector returns the first slot that is in use and matches, before the
-- end of the directory; or it returns none, and then every slot up to the end of the directory or of
-- the sector is deleted or does not match.
pub find_slot_lem :
    (matches : Entry → Bool) (sector : Buffer)
    → SlotScan matches sector 0 16 (find_slot matches 16 0 sector)
find_slot_lem matches sector = find_slot-SlotScan matches sector 0 16

find_entry_loop-total :
    (v : Volume) (device : Device) (fuel : ℕ) (path : List ℕ) (lba sectors : ℕ) (o : Option Entry)
    → length path < fuel
    → (r : Lookup) × (find_entry_loop v device fuel path lba sectors o ≡ some r)
unfolding find_entry_loop
find_entry_loop-total v device zero path lba sectors o enough = absurd (omega arith)
find_entry_loop-total v device (suc fuel) path lba sectors o enough =
    elim (Option-cases (parse_path_node path)) [
      | inl no_node ↦ (done o, rw (no_node, find_entry_loop))
      | inr ((node, rest), parsed) ↦
          let shorter = (parse_path_node-length path parsed).2 in
          elim (Option-cases (find_in (matches_node node) device lba sectors 0)) [
            | inl missing ↦ (failed, rw (parsed, missing, find_entry_loop))
            | inr (place, found) ↦
                let e = entry_of device lba place in
                rw (parsed, found, find_entry_loop)
                  (branch rest e
                    (find_entry_loop-total v device fuel rest lba sectors (some e) (omega arith))
                    (find_entry_loop-total v device fuel rest (cluster_to_lba v e.cluster)
                      v.bpb.sectors_per_cluster (some e) (omega arith)))
          ]
    ]
  where
    branch :
        (rest : List ℕ) (e : Entry) {last deeper : Option Lookup}
        → (r : Lookup) × (last ≡ some r)
        → (r : Lookup) × (deeper ≡ some r)
        → (r : Lookup) × (elim rest [
          | [] ↦ last
          | c ∷ cs ↦ if is_directory e then deeper else some failed
        ]
            ≡ some r)
    branch [] e a b = a
    branch (c ∷ cs) e a b = pick (is_directory e) b
      where
        pick :
            (d : Bool) {deeper : Option Lookup}
            → (r : Lookup) × (deeper ≡ some r)
            → (r : Lookup) × ((if d then deeper else some failed) ≡ some r)
        pick true b = b
        pick false b = (failed, refl)

-- The resolution of a path always ends: with a failure, or with what it found.
pub fat16_find_entry-total :
    (v : Volume) (device : Device) (full_path : List ℕ)
    → (r : Lookup) × (fat16_find_entry v device full_path ≡ some r)
unfolding fat16_find_entry
fat16_find_entry-total v device full_path =
    find_entry_loop-total v device (length full_path + 1) full_path v.root_dir_start_lba 32 none
      (omega arith)
