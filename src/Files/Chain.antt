-- ===== src/Files/Chain.antt =====
-- The chain of clusters that ardaos_delete_file of src/disk.c frees.
use my_kernel.Base.{
  ℕ, zero, suc, ◌+◌, ◌-◌, ◌<◌, ◌≤◌, ◌==◌, ◌≡◌, ◌≢◌, refl, ap, ap₂, sym, ◌∙◌, subst, ltb, leb,
  if◌then◌else◌, true, false, ◌&&◌, some, List, [], ◌∷◌, length, get_elem?, get_or, set, arith, All,
  All-set, All-get_or, ◌⊎◌, length-set, get_or-set_ne, le→leb, lt→ltb, Bool-cases, inl, inr,
  ℕ_discrete, ne→not_==,
}
use my_kernel.Files.Remove.{freed, free_chain}

-- The number of entries of a table that are not free.
abbrev pub used : List ℕ → ℕ
used [] = 0
used (w ∷ ws) = if w == 0 then used ws else used ws + 1

used-le : (t : List ℕ) → used t ≤ length t
used-le [] = omega arith
used-le (w ∷ ws) = elim (Bool-cases (w == 0)) [
  | inl e ↦ rw e (omega (arith, used-le ws))
  | inr e ↦ rw e (omega (arith, used-le ws))
]

used-set :
    (t : List ℕ) (c next : ℕ) → get_elem? t c ≡ some next → next ≢ 0 → used (set t c 0) + 1 ≡ used t
used-set [] c next e ne = absurd (cc)
used-set (w ∷ ws) zero next e ne =
    let same : w ≡ next = cc in
    let nz : w ≢ 0 = λ z. ne (sym same ∙ z) in rw (ne→not_== w 0 nz) refl
used-set (w ∷ ws) (suc c) next e ne =
    let rest = used-set ws c next e ne in
    elim (Bool-cases (w == 0)) [ inl z ↦ rw z rest | inr z ↦ rw z (omega (arith, rest)) ]

-- The loop stops on a number that is not one of a cluster.
free_chain-end :
    (fuel c : ℕ) (t : List ℕ)
    → (leb 2 c && ltb c 0xFFF8) ≡ false
    → free_chain (suc fuel) c t ≡ freed t
unfolding free_chain
free_chain-end fuel c t e = rw (free_chain, e) refl

free_chain-step :
    (fuel c next : ℕ) (t : List ℕ)
    → (leb 2 c && ltb c 0xFFF8) ≡ true
    → get_elem? t c ≡ some next
    → free_chain (suc fuel) c t ≡ free_chain fuel next (set t c 0)
unfolding free_chain
free_chain-step fuel c next t e f = rw (free_chain, e, f) refl

-- A number that the loop finds in a table of `n` words, or that ends it.
abbrev pub IsLink : ℕ → ℕ → Type 0
IsLink n w = (w < n) ⊎ (0xFFF8 ≤ w)

get_elem?-get_or : (t : List ℕ) (i : ℕ) → i < length t → get_elem? t i ≡ some (get_or t i 0)
get_elem?-get_or [] i lt = absurd (omega arith)
get_elem?-get_or (x ∷ xs) zero lt = refl
get_elem?-get_or (x ∷ xs) (suc i) lt = get_elem?-get_or xs i (omega arith)

IsLink-inside : (n c : ℕ) → IsLink n c → (leb 2 c && ltb c 0xFFF8) ≡ true → c < n
IsLink-inside n c (inl lt) going = lt
IsLink-inside n c (inr ge) going = absurd (ground arith)

-- Each entry of the table is as it was, or free.
abbrev pub OnlyFreed : List ℕ → List ℕ → Type 0
OnlyFreed t after = (i : ℕ) → (get_or after i 0 ≡ get_or t i 0) ⊎ (get_or after i 0 ≡ 0)

OnlyFreed-set :
    (t : List ℕ) (c : ℕ) (after : List ℕ) → OnlyFreed (set t c 0) after → OnlyFreed t after
OnlyFreed-set t c after kept i = elim (kept i) [
  | inr free ↦ inr free
  | inl same ↦ elim (ℕ_discrete c i) [
    | yes e ↦ inr (same ∙ ap (λ (j : ℕ). get_or (set t c 0) j 0) (sym e) ∙ get_or-zero t c)
    | no ne ↦ inl (same ∙ get_or-set_ne t c i 0 0 ne)
  ]
]
  where
    get_or-zero : (t : List ℕ) (c : ℕ) → get_or (set t c 0) c 0 ≡ 0
    get_or-zero [] c = refl
    get_or-zero (x ∷ xs) zero = refl
    get_or-zero (x ∷ xs) (suc c) = get_or-zero xs c

-- On a table, with or without words of the memory behind it, whose numbers all end a chain or are
-- inside it, and from such a number on, the loop ends with a table, also where the clusters are linked
-- in a circle: each round but the last two frees an entry that was in use, so that there are at most
-- as many rounds as entries in use, and two. It has freed entries and changed no other.
pub free_chain-total :
    (fuel c : ℕ) (t : List ℕ)
    → IsLink (length t) c
    → All (IsLink (length t)) t
    → used t + 2 ≤ fuel
    → (after : List ℕ) × (free_chain fuel c t ≡ freed after) × OnlyFreed t after
free_chain-total zero c t link links le = absurd (omega arith)
free_chain-total (suc fuel) c t link links le = elim (Bool-cases (leb 2 c && ltb c 0xFFF8)) [
  | inr e ↦ (t, free_chain-end fuel c t e, λ i. inl refl)
  | inl e ↦
      let inside = IsLink-inside (length t) c link e in
      let next = get_or t c 0 in
      let f = get_elem?-get_or t c inside in
      let step = free_chain-step fuel c next t e f in
      elim (ℕ_discrete next 0) [
        | yes z ↦
            let more : fuel ≡ suc (fuel - 1) = omega (arith, le) in
            (
              set t c 0,
              step
                  ∙ ap₂ (λ (n m : ℕ). free_chain n m (set t c 0)) more z
                  ∙ free_chain-end (fuel - 1) 0 (set t c 0) refl,
              OnlyFreed-set t c (set t c 0) (λ i. inl refl),
            )
        | no ne ↦
            let size = sym (length-set t c 0) in
            let free_link : IsLink (length t) 0 = inl (omega (arith, inside)) in
            let (after, ends, kept) =
              free_chain-total fuel next (set t c 0)
                (subst (λ (n : ℕ). IsLink n next) size
                  (All-get_or (IsLink (length t)) t c 0 links free_link))
                (subst (λ (n : ℕ). All (IsLink n) (set t c 0)) size
                  (All-set (IsLink (length t)) t c 0 links free_link))
                (omega (arith, le, used-set t c next f ne)) in
            (after, step ∙ ends, OnlyFreed-set t c after kept)
      ]
]

-- The clusters that a table links from `c` on: each within the table and none twice, up to a number
-- that ends the loop.
abbrev pub IsChain : List ℕ → ℕ → List ℕ → Type 0
IsChain t c [] = (leb 2 c && ltb c 0xFFF8) ≡ false
IsChain t c (d ∷ cs) =
    (c ≡ d) × (2 ≤ d) × (d < 256) × All (λ e. e ≢ d) cs × IsChain t (get_or t d 0) cs

-- The table with the entries of some clusters free.
abbrev pub zero_all : List ℕ → List ℕ → List ℕ
zero_all [] t = t
zero_all (d ∷ cs) t = zero_all cs (set t d 0)

IsChain-set :
    (t : List ℕ) (d c : ℕ) (cs : List ℕ)
    → All (λ e. e ≢ d) cs
    → IsChain t c cs
    → IsChain (set t d 0) c cs
IsChain-set t d c [] apart chain = chain
IsChain-set t d c (e ∷ cs) apart chain =
    let link : get_or t e 0 ≡ get_or (set t d 0) e 0 =
      sym (get_or-set_ne t d e 0 0 (λ same. apart.0 (sym same))) in
    (
      chain.0,
      chain.1,
      chain.2,
      chain.3,
      subst (λ (n : ℕ). IsChain (set t d 0) n cs) link
          (IsChain-set t d (get_or t e 0) cs apart.1 chain.4),
    )

-- Of a chain that the table links, exactly the clusters are freed, in one round for each and one for
-- the end; the table has the 256 entries of a sector.
pub free_chain-IsChain :
    (fuel c : ℕ) (cs t : List ℕ)
    → length t ≡ 256
    → IsChain t c cs
    → length cs < fuel
    → free_chain fuel c t ≡ freed (zero_all cs t)
free_chain-IsChain zero c cs t size chain lt = absurd (omega arith)
free_chain-IsChain (suc fuel) c [] t size chain lt = free_chain-end fuel c t chain
free_chain-IsChain (suc fuel) c (d ∷ cs) t size (same, low, high, apart, chain) lt =
    let going : (leb 2 d && ltb d 0xFFF8) ≡ true =
      rw (le→leb 2 d low, lt→ltb d 0xFFF8 (omega (arith, high))) refl in
    let next = get_elem?-get_or t d (omega (arith, size, high)) in
    let step : free_chain (suc fuel) c t ≡ free_chain fuel (get_or t d 0) (set t d 0) =
      ap (λ (n : ℕ). free_chain (suc fuel) n t) same ∙ free_chain-step fuel d _ t going next in
    step
    ∙ free_chain-IsChain fuel (get_or t d 0) cs (set t d 0) (length-set t d 0 ∙ size)
        (IsChain-set t d (get_or t d 0) cs apart chain) (omega (arith, lt))
