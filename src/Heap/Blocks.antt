-- ===== src/Heap/Blocks.antt =====
-- The heap of src/memory.c as a list of blocks that lie side by side.
use my_kernel.Base.{
  ℕ, ◌+◌, ◌*◌, ◌<◌, ◌≤◌, ◌≡◌, refl, ap, subst, sym, ◌∙◌, Bool, if◌then◌else◌, List, [], ◌∷◌, ◌++◌,
  length, arith,
}
use my_kernel.Heap.{Header, Store, header_size, heap_start, heap_size, Heap}

pub record Block : Type 0 where
  pub size : ℕ
  pub is_free : Bool

abbrev pub block : ℕ → Bool → Block
block n f = record { size = n; is_free = f }

-- The bytes that blocks take up, headers included.
abbrev pub span : List Block → ℕ
span [] = 0
span (b ∷ bs) = header_size + b.size + span bs

-- The bytes handed out.
abbrev pub in_use : List Block → ℕ
in_use [] = 0
in_use (b ∷ bs) = (if b.is_free then 0 else b.size) + in_use bs

-- The address of the block that follows at `a`, or `z` behind the last one.
abbrev pub link : ℕ → ℕ → List Block → ℕ
link z a [] = z
link z a (b ∷ bs) = a

abbrev pub header : Block → ℕ → Header
header b n = record { size = b.size; is_free = b.is_free; next = n }

-- From `a` on the store holds the headers of the blocks, side by side and linked in this order;
-- the last one's `next` is `z`.
abbrev pub Seg : Store → ℕ → ℕ → List Block → Type 0
Seg s z a [] = Unit
Seg s z a (b ∷ bs) =
    (s a ≡ header b (link z (a + header_size + b.size) bs)) × Seg s z (a + header_size + b.size) bs

pub span-append : (xs ys : List Block) → span (xs ++ ys) ≡ span xs + span ys
span-append [] ys = omega arith
span-append (x ∷ xs) ys = omega (arith, span-append xs ys)

pub in_use-append : (xs ys : List Block) → in_use (xs ++ ys) ≡ in_use xs + in_use ys
in_use-append [] ys = omega arith
in_use-append (x ∷ xs) ys = omega (arith, in_use-append xs ys)

pub in_use-le : (xs : List Block) → in_use xs ≤ span xs
in_use-le [] = omega arith
in_use-le (x ∷ xs) = ground (arith, in_use-le xs)

-- Every block has a header, so there are at most `span / 12` of them.
pub length-le-span : (xs : List Block) → 12 * length xs ≤ span xs
length-le-span [] = omega arith
length-le-span (x ∷ xs) = omega (arith, length-le-span xs)

link-append :
    (z n m : ℕ) (xs : List Block) (y : Block) (ys : List Block)
    → n + span xs ≡ m
    → link z n (xs ++ y ∷ ys) ≡ link m n xs
link-append z n m [] y ys e = omega arith
link-append z n m (x ∷ xs) y ys e = refl

-- A store that agrees on the addresses of a segment holds the same segment.
pub frame :
    (s s' : Store) (z a : ℕ) (xs : List Block)
    → ((p : ℕ) → a ≤ p → p < a + span xs → s' p ≡ s p)
    → Seg s z a xs
    → Seg s' z a xs
frame s s' z a [] same g = tt
frame s s' z a (x ∷ xs) same g = (
  same a (omega arith) (omega arith) ∙ g.0,
  frame s s' z (a + header_size + x.size) xs (λ p lo hi. same p (omega arith) (omega arith)) g.1,
)

-- A segment taken apart in front of a block at `m`, and put together.
pub Seg-split :
    (s : Store) (z a m : ℕ) (xs : List Block) (y : Block) (ys : List Block)
    → a + span xs ≡ m
    → Seg s z a (xs ++ y ∷ ys)
    → Seg s m a xs × Seg s z m (y ∷ ys)
Seg-split s z a m [] y ys e g = (tt, subst (λ t. Seg s z t (y ∷ ys)) (omega arith) g)
Seg-split s z a m (x ∷ xs) y ys e g =
    let n = a + header_size + x.size in
    let (front, back) = Seg-split s z n m xs y ys (omega arith) g.1 in
    ((g.0 ∙ ap (header x) (link-append z n m xs y ys (omega arith)), front), back)

pub Seg-join :
    (s : Store) (z a m : ℕ) (xs : List Block) (y : Block) (ys : List Block)
    → a + span xs ≡ m
    → Seg s m a xs
    → Seg s z m (y ∷ ys)
    → Seg s z a (xs ++ y ∷ ys)
Seg-join s z a m [] y ys e g h = subst (λ t. Seg s z t (y ∷ ys)) (omega arith) h
Seg-join s z a m (x ∷ xs) y ys e g h =
    let n = a + header_size + x.size in
    (
      g.0 ∙ ap (header x) (sym (link-append z n m xs y ys (omega arith))),
      Seg-join s z n m xs y ys (omega arith) g.1 h,
    )

-- Where the cursor stands: at a block of the list.
pub record Cursor (at : ℕ) (blocks : List Block) : Type 0 where
  pub before : List Block
  pub here : Block
  pub after : List Block
  pub parts : blocks ≡ before ++ here ∷ after
  pub place : at ≡ heap_start + span before

-- The heap is well formed and consists of `blocks`: from the head on they fill the four megabytes,
-- the cursor stands at one of them, and the count is that of the bytes handed out.
pub record IsHeap (h : Heap) (blocks : List Block) : Type 0 where
  pub starts : h.head ≡ heap_start
  pub chain : Seg h.store 0 heap_start blocks
  pub whole : span blocks ≡ heap_size
  pub cursor : Cursor h.next_fit blocks
  pub counted : h.used ≡ in_use blocks
