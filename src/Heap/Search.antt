-- ===== src/Heap/Search.antt =====
-- The search loop of malloc in src/memory.c takes the first block that fits, from the cursor to the
-- end of the heap and then from its head to the cursor.
use my_kernel.Base.{
  ℕ, zero, suc, ◌+◌, ◌-◌, ◌<◌, ◌≡◌, ◌≢◌, refl, ap, ◌∙◌, ◌==◌, leb, Bool, true, false, if◌then◌else◌,
  ◌&&◌, ==_iff, ne→not_==, Bool-cases, inl, inr, List, [], ◌∷◌, ◌++◌, length, arith, All, Option,
  none, some,
}
use my_kernel.Heap.{Store, header_size, heap_start, Outcome, found, missing, search}
use my_kernel.Heap.Blocks.{Block, span, Seg, header}

-- A free block of at least `size` bytes.
abbrev pub fits : ℕ → Block → Bool
fits size b = b.is_free && leb size b.size

-- The address of the first block that fits, for blocks that lie from `a` on.
pub first_fit : ℕ → ℕ → List Block → Option ℕ
first_fit size a [] = none
first_fit size a (b ∷ bs) =
    if fits size b then some a else first_fit size (a + header_size + b.size) bs

-- A block that was found, or else what the search finds later.
abbrev pub or_else : Option ℕ → Outcome → Outcome
or_else none later = later
or_else (some p) later = found p

module _ (s : Store) (head start size : ℕ) where
  -- One round: at a block that fits, at one that does not and has a successor, and at the last one.
  search-fits :
      (f a n : ℕ) (w : Bool) (b : Block)
      → a ≢ 0
      → s a ≡ header b n
      → fits size b ≡ true
      → search s head start size (suc f) a w ≡ found a
  unfolding search
  search-fits f a n w b ne at fit =
      let taken : ((s a).is_free && leb size (s a).size) ≡ true = rw at fit in
      let real : (a == 0) ≡ false = ground arith in rw (real, taken)

  search-next :
      (f a n : ℕ) (w : Bool) (b : Block)
      → a ≢ 0
      → n ≢ 0
      → s a ≡ header b n
      → fits size b ≡ false
      → search s head start size (suc f) a w
        ≡ (if w && n == start then missing else search s head start size f n w)
  unfolding search
  search-next f a n w b ne more at fit =
      let taken : ((s a).is_free && leb size (s a).size) ≡ false = rw at fit in
      let real : (a == 0) ≡ false = ground arith in
      let next : (s a).next ≡ n = rw at in
      let on : (n == 0) ≡ false = ground arith in rw (real, taken, next, on)

  search-last :
      (f a : ℕ) (b : Block)
      → a ≢ 0
      → s a ≡ header b 0
      → fits size b ≡ false
      → search s head start size (suc f) a false
        ≡ (if head == start then missing else search s head start size f head true)
  unfolding search
  search-last f a b ne at fit =
      let taken : ((s a).is_free && leb size (s a).size) ≡ false = rw at fit in
      let real : (a == 0) ≡ false = ground arith in
      let next : (s a).next ≡ 0 = rw at in rw (real, taken, next)

  -- The scan of the blocks before the cursor, behind the wrap.
  search-wrapped :
      (f a : ℕ) (b : Block) (bs : List Block)
      → a ≢ 0
      → a + span (b ∷ bs) ≡ start
      → length bs < f
      → Seg s start a (b ∷ bs)
      → search s head start size f a true ≡ or_else (first_fit size a (b ∷ bs)) missing
  unfolding first_fit
  search-wrapped zero a b bs ne ends fuel g = absurd (omega arith)
  search-wrapped (suc f) a b [] ne ends fuel g = elim (Bool-cases (fits size b)) [
    | inl fit ↦ rw fit (search-fits f a start true b ne g.0 fit)
    | inr unfit ↦
        let stop : (start == start) ≡ true = ground arith in
        rw unfit (search-next f a start true b ne (omega arith) g.0 unfit ∙ rw stop)
  ]
  search-wrapped (suc f) a b (c ∷ bs) ne ends fuel g =
      let n = a + header_size + b.size in
      elim (Bool-cases (fits size b)) [
        | inl fit ↦ rw fit (search-fits f a n true b ne g.0 fit)
        | inr unfit ↦
            let go : (n == start) ≡ false = ground arith in
            rw unfit (
              search-next f a n true b ne (omega arith) g.0 unfit
              ∙ rw go (search-wrapped f n c bs (omega arith) (omega arith) (omega arith) g.1))
      ]

  -- The scan from the cursor on, and what follows it.
  search-forward :
      (f k a : ℕ) (b : Block) (bs : List Block)
      → a ≢ 0
      → f ≡ length bs + suc k
      → Seg s 0 a (b ∷ bs)
      → search s head start size f a false
        ≡ or_else
            (first_fit size a (b ∷ bs))
            (if head == start then missing else search s head start size k head true)
  unfolding first_fit
  search-forward zero k a b bs ne fuel g = absurd (omega arith)
  search-forward (suc f) k a b [] ne fuel g = elim (Bool-cases (fits size b)) [
    | inl fit ↦ rw fit (search-fits f a 0 false b ne g.0 fit)
    | inr unfit ↦
        let same : f ≡ k = omega arith in rw (unfit, same) (search-last k a b ne g.0 unfit)
  ]
  search-forward (suc f) k a b (c ∷ bs) ne fuel g =
      let n = a + header_size + b.size in
      elim (Bool-cases (fits size b)) [
        | inl fit ↦ rw fit (search-fits f a n false b ne g.0 fit)
        | inr unfit ↦ rw unfit (
            search-next f a n false b ne (omega arith) g.0 unfit
            ∙ search-forward f k n c bs (omega arith) (omega arith) g.1)
      ]

-- With enough fuel the search from the cursor, between the blocks `xs` and `y ∷ ys`, finds the first
-- block that fits behind the cursor, or else the first before it, or says that there is none.
pub search-first_fit :
    (s : Store) (size fuel at : ℕ) (xs : List Block) (y : Block) (ys : List Block)
    → at ≡ heap_start + span xs
    → length xs + length ys + 1 < fuel
    → Seg s at heap_start xs
    → Seg s 0 at (y ∷ ys)
    → search s heap_start at size fuel at false
      ≡ or_else (first_fit size at (y ∷ ys)) (or_else (first_fit size heap_start xs) missing)
unfolding first_fit
search-first_fit s size fuel at [] y ys place enough front back =
    let home : (heap_start == at) ≡ true = (==_iff heap_start at).1 (omega arith) in
    search-forward s heap_start at size fuel (fuel - length ys - 1) at y ys (omega arith)
      (omega arith) back
    ∙ rw home
search-first_fit s size fuel at (x ∷ xs) y ys place enough front back =
    let away : (heap_start == at) ≡ false = ne→not_== heap_start at (omega arith) in
    search-forward s heap_start at size fuel (fuel - length ys - 1) at y ys (omega arith)
      (omega arith) back
    ∙ rw away (
        ap (or_else (first_fit size at (y ∷ ys))) (
          search-wrapped s heap_start at size (fuel - length ys - 1) heap_start x xs (omega arith)
            (omega arith) (omega arith) front))

-- A block that the search finds: its place, and that it fits.
pub record Fit (size p a : ℕ) (blocks : List Block) : Type 0 where
  pub before : List Block
  pub here : Block
  pub after : List Block
  pub parts : blocks ≡ before ++ here ∷ after
  pub place : p ≡ a + span before
  pub fit : fits size here ≡ true

pub first_fit-Fit :
    (size a : ℕ) (bs : List Block) {p : ℕ} → first_fit size a bs ≡ some p → Fit size p a bs
unfolding first_fit
first_fit-Fit size a [] e = cc
first_fit-Fit size a (b ∷ bs) {p} e = elim (Bool-cases (fits size b)) [
  | inl fit ↦ record {
    before = [];
    here = b;
    after = bs;
    parts = refl;
    place = ground arith;
    fit = fit;
  }
  | inr unfit ↦
      let later : first_fit size (a + header_size + b.size) bs ≡ some p = ground arith in
      let r = first_fit-Fit size (a + header_size + b.size) bs later in
      record {
        before = b ∷ r.before;
        here = r.here;
        after = r.after;
        parts = ap (λ t. b ∷ t) r.parts;
        place = omega (arith, r.place);
        fit = r.fit;
      }
]

pub first_fit-none :
    (size a : ℕ) (bs : List Block) → first_fit size a bs ≡ none → All (λ b. fits size b ≡ false) bs
unfolding first_fit
first_fit-none size a [] e = tt
first_fit-none size a (b ∷ bs) e =
    (ground arith, first_fit-none size (a + header_size + b.size) bs (ground arith))
