-- ===== src/Heap/Release.antt =====
-- The loop of free in src/memory.c that joins neighbouring free blocks.
use my_kernel.Base.{
  ℕ, zero, suc, ◌+◌, ◌%◌, ◌^◌, ◌<◌, ◌≡◌, ◌≢◌, refl, ap, sym, subst, ◌∙◌, Bool, true, false,
  if◌then◌else◌, ◌&&◌, Bool-cases, inl, inr, ne→not_==, ==_self, List, [], ◌∷◌, ◌++◌, length, arith,
  Option, some,
}
use my_kernel.Heap.{Store, write, header_size, merge_loop}
use my_kernel.Heap.Blocks.{Block, block, span, in_use, Seg, link, header, frame}

-- Neighbours that are free, joined from the front, with `b` the block in hand.
pub joined : Block → List Block → List Block
joined b [] = b ∷ []
joined b (c ∷ bs) =
    let together = joined (block (b.size + (c.size + header_size)) true) bs in
    let apart = b ∷ joined c bs in if b.is_free && c.is_free then together else apart

-- No two neighbours are free.
abbrev pub Separate : List Block → Type 0
Separate [] = Unit
Separate (b ∷ []) = Unit
Separate (b ∷ c ∷ bs) = ((b.is_free && c.is_free) ≡ false) × Separate (c ∷ bs)

pub span-joined : (b : Block) (bs : List Block) → span (joined b bs) ≡ span (b ∷ bs)
unfolding joined
span-joined b [] = refl
span-joined b (c ∷ bs) =
    ground (arith, span-joined (block (b.size + (c.size + header_size)) true) bs, span-joined c bs)

pub in_use-joined : (b : Block) (bs : List Block) → in_use (joined b bs) ≡ in_use (b ∷ bs)
unfolding joined
in_use-joined b [] = refl
in_use-joined b (c ∷ bs) =
    ground
      (arith, in_use-joined (block (b.size + (c.size + header_size)) true) bs, in_use-joined c bs)

-- What the loop leaves behind, started at the address `a`: the blocks `out`, and the rest as before.
pub record Merged (s : Store) (a : ℕ) (out : List Block) (r : Option Store) : Type 0 where
  pub store : Store
  pub ends : r ≡ some store
  pub chain : Seg store 0 a out
  pub same : (q : ℕ) → (q < a) → store q ≡ s q

link-joined : (z n : ℕ) (b : Block) (bs : List Block) → link z n (joined b bs) ≡ n
unfolding joined
link-joined z n b [] = refl
link-joined z n b (c ∷ bs) = elim (Bool-cases (b.is_free && c.is_free)) [
  | inl both ↦ rw both (link-joined z n (block (b.size + (c.size + header_size)) true) bs)
  | inr one ↦ rw one
]

-- One round of the loop: two free neighbours become one block, any other pair is passed.
module _ (s : Store) (a n m : ℕ) (b c : Block) (ne : a ≢ 0) (nn : n ≢ 0) (first : s a ≡ header b n)
    (second : s n ≡ header c m) where
  merge-join :
      (f : ℕ)
      → (b.is_free && c.is_free) ≡ true
      → merge_loop (suc f) a s
        ≡ merge_loop f a
            (write s a (header (block ((b.size + (c.size + header_size)) % 2 ^ 32) b.is_free) m))
  unfolding merge_loop
  merge-join f both = rw (ne→not_== a 0 ne, first, ne→not_== n 0 nn, second, both)

  merge-skip :
      (f : ℕ) → (b.is_free && c.is_free) ≡ false → merge_loop (suc f) a s ≡ merge_loop f n s
  unfolding merge_loop
  merge-skip f one = rw (ne→not_== a 0 ne, first, ne→not_== n 0 nn, second, one)

pub merge_loop-Merged :
    (f : ℕ) (s : Store) (a : ℕ) (b : Block) (bs : List Block)
    → a ≢ 0
    → length bs < f
    → a + span (b ∷ bs) < 2 ^ 32
    → Seg s 0 a (b ∷ bs)
    → Merged s a (joined b bs) (merge_loop f a s)
unfolding merge_loop joined
merge_loop-Merged zero s a b bs ne fuel room g = absurd (omega arith)
merge_loop-Merged (suc f) s a b [] ne fuel room g =
    let real = ne→not_== a 0 ne in
    record { store = s; ends = rw (real, g.0); chain = g; same = λ q lt. refl }
merge_loop-Merged (suc f) s a b (c ∷ bs) ne fuel room g =
    let n = a + header_size + b.size in
    let m = link 0 (n + header_size + c.size) bs in
    let nn : n ≢ 0 = omega arith in
    elim (Bool-cases (b.is_free && c.is_free)) [
      | inl both ↦
          let one = block (b.size + (c.size + header_size)) true in
          let s' =
            write s a (header (block ((b.size + (c.size + header_size)) % 2 ^ 32) b.is_free) m) in
          let end : n + header_size + c.size ≡ a + header_size + one.size = omega arith in
          let free_b : b.is_free ≡ true = ground arith in
          let small : (b.size + (c.size + header_size)) % 2 ^ 32 ≡ b.size + (c.size + header_size) =
            omega arith in
          let top : s' a ≡ header one (link 0 (a + header_size + one.size) bs) =
            rw (==_self a, small, free_b) (ap (λ (t : ℕ). header one (link 0 t bs)) end) in
          let rest : Seg s' 0 (a + header_size + one.size) bs =
            frame s s' 0 (a + header_size + one.size) bs
              (λ q lo hi. rw (ne→not_== q a (omega arith))) (subst (λ t. Seg s 0 t bs) end g.1.1) in
          let r = merge_loop-Merged f s' a one bs ne (omega arith) (omega arith) (top, rest) in
          rw both (record {
            store = r.store;
            ends = merge-join s a n m b c ne nn g.0 g.1.0 f both ∙ r.ends;
            chain = r.chain;
            same = λ q lt. r.same q lt ∙ rw (ne→not_== q a (omega arith));
          })
      | inr one ↦
          let r = merge_loop-Merged f s n c bs nn (omega arith) (omega arith) g.1 in
          rw one (record {
            store = r.store;
            ends = merge-skip s a n m b c ne nn g.0 g.1.0 f one ∙ r.ends;
            chain = (
              r.same a (omega arith) ∙ g.0 ∙ ap (header b) (sym (link-joined 0 n c bs)),
              r.chain,
            );
            same = λ q lt. r.same q (omega arith);
          })
    ]

head_is_free : List Block → Bool
head_is_free [] = false
head_is_free (b ∷ bs) = b.is_free

head_is_free-joined : (b : Block) (bs : List Block) → head_is_free (joined b bs) ≡ b.is_free
unfolding head_is_free joined
head_is_free-joined b [] = refl
head_is_free-joined b (c ∷ bs) =
    ground (arith, head_is_free-joined (block (b.size + (c.size + header_size)) true) bs)

Separate-cons :
    (b : Block) (bs : List Block)
    → (b.is_free && head_is_free bs) ≡ false
    → Separate bs
    → Separate (b ∷ bs)
unfolding head_is_free
Separate-cons b [] e h = tt
Separate-cons b (c ∷ bs) e h = (e, h)

pub joined-Separate : (b : Block) (bs : List Block) → Separate (joined b bs)
unfolding joined
joined-Separate b [] = tt
joined-Separate b (c ∷ bs) = elim (Bool-cases (b.is_free && c.is_free)) [
  | inl both ↦ rw both (joined-Separate (block (b.size + (c.size + header_size)) true) bs)
  | inr one ↦
      rw one
        (Separate-cons b (joined c bs) (rw (head_is_free-joined c bs) one) (joined-Separate c bs))
]

-- The blocks of a heap after the loop.
abbrev pub all_joined : List Block → List Block
all_joined [] = []
all_joined (b ∷ bs) = joined b bs

-- Lists that are not empty, taken apart.
pub append-cons :
    (us : List Block) (b : Block) (vs : List Block)
    → (x : Block) × (xs : List Block) × (us ++ b ∷ vs ≡ x ∷ xs)
append-cons [] b vs = (b, vs, refl)
append-cons (u ∷ us) b vs = (u, us ++ b ∷ vs, refl)

pub joined-cons :
    (b : Block) (bs : List Block) → (y : Block) × (ys : List Block) × (joined b bs ≡ y ∷ ys)
unfolding joined
joined-cons b [] = (b, [], refl)
joined-cons b (c ∷ bs) = elim (Bool-cases (b.is_free && c.is_free)) [
  | inl both ↦ rw both (joined-cons (block (b.size + (c.size + header_size)) true) bs)
  | inr one ↦ rw one (b, joined c bs, refl)
]
