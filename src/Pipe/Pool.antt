-- ===== src/Pipe/Pool.antt =====
-- The pool of src/disk.c: which pipe a name opens.
use my_kernel.Base.{
  ℕ, zero, suc, ◌+◌, ◌<◌, ◌≡◌, ◌⊎◌, ◌↔◌, inl, inr, refl, true, false, ◌&&◌, ◌≢◌, Bool-cases,
  Option-cases, none, some, List, [], ◌∷◌, arith, length, All,
}
use my_kernel.Text.{strncmp}
use my_kernel.Pipe.{Pipe, name_from, start, is_zero, named, find_named, create, open_pipe}

-- The first `n` bytes of the object exist, or a terminator comes before.
abbrev pub Readable : ℕ → List ℕ → Type 0
Readable zero s = Unit
Readable (suc n) [] = ⊥
Readable (suc n) (c ∷ s) = (c ≡ 0) ⊎ Readable n s

strncmp-name_from :
    (n : ℕ) (filename name : List ℕ)
    → Readable n filename
    → n < length name
    → strncmp (name_from n filename name) filename n ≡ some 0
unfolding strncmp name_from
strncmp-name_from zero filename [] r room = refl
strncmp-name_from zero filename (m ∷ name) r room = refl
strncmp-name_from (suc n) [] name r room = absurd r
strncmp-name_from (suc n) (c ∷ s) [] r room = absurd (omega arith)
strncmp-name_from (suc n) (c ∷ s) (m ∷ name) (inl e) room = ground arith
strncmp-name_from (suc n) (c ∷ s) (m ∷ name) (inr r) room =
    ground (arith, strncmp-name_from n s name r (omega arith))

named-start :
    (filename : List ℕ) (p : Pipe)
    → Readable 8 filename
    → length p.name ≡ 16
    → named filename (start filename p) ≡ true
unfolding named start
named-start filename p r e = rw (strncmp-name_from 8 filename p.name r (omega arith))

find_named-create :
    (filename : List ℕ) (i : ℕ) (pool : List Pipe) {j : ℕ} {after : List Pipe}
    → Readable 8 filename
    → All (λ p. length p.name ≡ 16) pool
    → find_named filename i pool ≡ none
    → create filename i pool ≡ some (j, after)
    → find_named filename i after ≡ some j
unfolding find_named create
find_named-create filename i [] r names missed made = cc
find_named-create filename i (p ∷ ps) r names missed made =
    let first : named filename p ≡ false = ground arith in
    let others : find_named filename (i + 1) ps ≡ none = ground arith in
    let begun = named-start filename p r names.0 in
    elim (Option-cases (create filename (i + 1) ps)) [
      | inl nothing ↦ ground arith
      | inr ((k, qs), later) ↦
          let found = find_named-create filename (i + 1) ps r names.1 others later in ground arith
    ]

-- Opening a name once more, by whichever task, gives the same pipe and starts no other: the pool
-- stays as the first call left it. The names in the pool are arrays of 16 bytes, and the first 8
-- bytes of the file name, or those up to its terminator, can be read.
pub open_pipe-again :
    (filename : List ℕ) (pool : List Pipe) {i : ℕ} {after : List Pipe}
    → Readable 8 filename
    → All (λ p. length p.name ≡ 16) pool
    → open_pipe filename pool ≡ some (i, after)
    → open_pipe filename after ≡ some (i, after)
unfolding open_pipe
open_pipe-again filename pool {i} {after} r names made =
    elim (Option-cases (find_named filename 0 pool)) [
      | inl missed ↦
          let new : create filename 0 pool ≡ some (i, after) = ground arith in
          let found = find_named-create filename 0 pool r names missed new in ground arith
      | inr (k, hit) ↦ ground arith
    ]

-- The scan for a free pipe fails exactly when all are in use.
create-none_iff :
    (filename : List ℕ) (i : ℕ) (pool : List Pipe)
    → (create filename i pool ≡ none) ↔ All (λ p. p.active ≡ true) pool
unfolding create
create-none_iff filename i [] = (λ _. tt, λ _. refl)
create-none_iff filename i (p ∷ ps) =
    let (full, back) = create-none_iff filename (i + 1) ps in
    (λ e. (ground arith, full (ground arith)), λ all. let rest = back all.1 in ground arith)

-- The scan for a name misses exactly when every pipe in use has another one.
find_named-none_iff :
    (filename : List ℕ) (i : ℕ) (pool : List Pipe)
    → (find_named filename i pool ≡ none)
      ↔ All (λ p. p.active ≡ true → strncmp p.name filename 8 ≢ some 0) pool
unfolding find_named named
find_named-none_iff filename i [] = (λ _. tt, λ _. refl)
find_named-none_iff filename i (p ∷ ps) =
    let (missed, back) = find_named-none_iff filename (i + 1) ps in
    elim (Bool-cases (p.active && is_zero (strncmp p.name filename 8))) [
      | inl hit ↦ (λ e. absurd (cc), λ all. absurd (let h = all.0 in ground arith))
      | inr miss ↦
          rw miss (λ e. (λ active same. absurd (ground arith), missed e), λ all. back all.1)
    ]

-- A pipe in use that has another name, by its first 8 bytes.
abbrev pub IsOther : List ℕ → Pipe → Type 0
IsOther filename p = (p.active ≡ true) × (strncmp p.name filename 8 ≢ some 0)

-- An open of a pipe, which vfs_open comes to when there is a task and it has a free descriptor,
-- fails exactly when each pipe of the pool is in use and has another name, told apart by its first
-- 8 bytes.
pub open_pipe-none_iff :
    (filename : List ℕ) (pool : List Pipe)
    → (open_pipe filename pool ≡ none) ↔ All (IsOther filename) pool
unfolding open_pipe
open_pipe-none_iff filename pool =
    let (full, back) = create-none_iff filename 0 pool in
    let (missed, miss) = find_named-none_iff filename 0 pool in
    (
      λ e. both pool (full (ground arith)) (missed (ground arith)),
      λ all.
          let rest = back (active pool all) in
          let none_named = miss (others pool all) in ground arith,
    )
  where
    both :
        (ps : List Pipe)
        → All (λ p. p.active ≡ true) ps
        → All (λ p. p.active ≡ true → strncmp p.name filename 8 ≢ some 0) ps
        → All (IsOther filename) ps
    both [] all others = tt
    both (p ∷ ps) all others = ((all.0, others.0 all.0), both ps all.1 others.1)

    active : (ps : List Pipe) → All (IsOther filename) ps → All (λ p. p.active ≡ true) ps
    active [] all = tt
    active (p ∷ ps) all = (all.0.0, active ps all.1)

    others :
        (ps : List Pipe)
        → All (IsOther filename) ps
        → All (λ p. p.active ≡ true → strncmp p.name filename 8 ≢ some 0) ps
    others [] all = tt
    others (p ∷ ps) all = ((λ used. all.0.1), others ps all.1)
