-- ===== src/Heap/Malloc.antt =====
-- malloc of src/memory.c on a well-formed heap.
use my_kernel.Base.{
  ℕ, suc, ◌+◌, ◌-◌, ◌^◌, ◌/◌, ◌%◌, ◌<◌, ◌≤◌, ◌≡◌, ◌⊎◌, refl, ap, sym, subst, ◌∙◌, ◌==◌, true, false,
  Option-cases, inl, inr, ne→not_==, List, [], ◌∷◌, ◌++◌, append_assoc, length, length-append,
  arith, All, some,
}
use my_kernel.Base.Bits.{bit_and_step, bit_and-mask}
use my_kernel.Heap.{
  header_size, heap_start, heap_size, max_blocks, Heap, search, claim, round_up, malloc, found,
  missing,
}
use my_kernel.Heap.Blocks.{Block, span, Seg, Seg-split, span-append, length-le-span, IsHeap}
use my_kernel.Heap.Search.{
  fits, first_fit, or_else, search-first_fit, first_fit-Fit, first_fit-none,
}
use my_kernel.Heap.Claim.{claimed, claim-IsHeap}

-- `(size + 3) & ~3` is the next multiple of 4, unless the sum wraps.
pub round_up_lem :
    (size : ℕ)
    → size ≤ 2 ^ 32 - 4
    → (size ≤ round_up size) × (round_up size < size + 4) × (round_up size % 4 ≡ 0)
unfolding round_up
round_up_lem size h = omega (
  arith,
  bit_and_step ((size + 3) % 2 ^ 32) (2 ^ 32 - 4),
  bit_and_step ((size + 3) % 2 ^ 32 / 2) (2 ^ 31 - 2),
  bit_and-mask 30 ((size + 3) % 2 ^ 32 / 2 / 2),
)

-- A block handed out: which one it was, where the caller's bytes are, and the heap behind the call.
pub record Allocated (bs : List Block) (size : ℕ) (h : Heap) : Type 0 where
  pub before : List Block
  pub here : Block
  pub after : List Block
  pub parts : bs ≡ before ++ here ∷ after
  pub fit : fits (round_up size) here ≡ true
  pub heap : Heap
  pub result : malloc size h ≡ some (heap_start + span before + header_size, heap)
  pub valid : IsHeap heap (before ++ claimed (round_up size) here after)
  pub inside : heap_start + span before + header_size + round_up size ≤ heap_start + heap_size

fits_parts : (n : ℕ) (b : Block) → fits n b ≡ true → (b.is_free ≡ true) × (n ≤ b.size)
fits_parts n b e = ground arith

All-append : (us vs : List Block) (Q : Block → Type 0) → All Q us × All Q vs → All Q (us ++ vs)
All-append [] vs Q both = both.1
All-append (u ∷ us) vs Q ((first, others), last) = (first, All-append us vs Q (others, last))

module _ (size : ℕ) (h : Heap) (bs : List Block) (some_size : 0 < size) (v : IsHeap h bs) where
  nonzero : (size == 0) ≡ false
  nonzero = ne→not_== size 0 (omega arith)

  -- What malloc does when the search ends with a block, and with none.
  malloc-found :
      (before : List Block) (here : Block) (after : List Block)
      → bs ≡ before ++ here ∷ after
      → fits (round_up size) here ≡ true
      → search h.store h.head h.next_fit (round_up size) (max_blocks + 1) h.next_fit false
        ≡ found (heap_start + span before)
      → Allocated bs size h
  unfolding malloc
  malloc-found before here after parts fit e =
      let p = heap_start + span before in
      let (free_here, large) = fits_parts (round_up size) here fit in
      let v' : IsHeap h (before ++ here ∷ after) = subst (IsHeap h) parts v in
      let room : span before + span (here ∷ after) ≡ heap_size =
        omega (arith, span-append before (here ∷ after), v'.whole) in
      let in_range : (p + header_size) % 2 ^ 32 ≡ p + header_size = omega (arith, room) in
      record {
        before = before;
        here = here;
        after = after;
        parts = parts;
        fit = fit;
        heap = claim h p (round_up size);
        result = rw (nonzero, e, in_range);
        valid = claim-IsHeap h before here after (round_up size) p refl large free_here v';
        inside = omega (arith, room);
      }

  malloc-missing :
      search h.store h.head h.next_fit (round_up size) (max_blocks + 1) h.next_fit false ≡ missing
      → malloc size h ≡ some (0, h)
  unfolding malloc
  malloc-missing e = rw (nonzero, e)

  -- The search as the cursor's parts of the heap give it.
  the_search :
      search h.store h.head h.next_fit (round_up size) (max_blocks + 1) h.next_fit false
      ≡ or_else
          (first_fit (round_up size) h.next_fit (v.cursor.here ∷ v.cursor.after))
          (or_else (first_fit (round_up size) heap_start v.cursor.before) missing)
  the_search =
      let c = v.cursor in
      let chain : Seg h.store 0 heap_start (c.before ++ c.here ∷ c.after) =
        subst (Seg h.store 0 heap_start) c.parts v.chain in
      let (front, back) =
        Seg-split h.store 0 heap_start h.next_fit c.before c.here c.after (sym c.place) chain in
      let blocks : length bs ≡ length c.before + suc (length c.after) =
        ap length c.parts ∙ length-append c.before (c.here ∷ c.after) in
      rw v.starts (
        search-first_fit h.store (round_up size) (max_blocks + 1) h.next_fit c.before c.here c.after
          c.place (omega (arith, blocks, length-le-span bs, v.whole)) front back)

  malloc-cases :
      ((malloc size h ≡ some (0, h)) × All (λ b. fits (round_up size) b ≡ false) bs)
      ⊎ Allocated bs size h
  malloc-cases =
      let c = v.cursor in
      elim (Option-cases (first_fit (round_up size) h.next_fit (c.here ∷ c.after))) [
        | inr (p, hit) ↦
            let f = first_fit-Fit (round_up size) h.next_fit (c.here ∷ c.after) hit in
            inr (
              malloc-found (c.before ++ f.before) f.here f.after
                (c.parts
                  ∙ ap (λ t. c.before ++ t) f.parts
                  ∙ sym (append_assoc c.before f.before (f.here ∷ f.after)))
                f.fit
                (the_search
                  ∙ rw hit
                      (ap found (omega (arith, f.place, c.place, span-append c.before f.before)))))
        | inl later ↦ elim (Option-cases (first_fit (round_up size) heap_start c.before)) [
          | inr (p, hit) ↦
              let f = first_fit-Fit (round_up size) heap_start c.before hit in
              inr (
                malloc-found f.before f.here (f.after ++ c.here ∷ c.after)
                  (c.parts
                    ∙ ap (λ t. t ++ c.here ∷ c.after) f.parts
                    ∙ append_assoc f.before (f.here ∷ f.after) (c.here ∷ c.after))
                  f.fit (the_search ∙ rw (later, hit) (ap found (omega (arith, f.place)))))
          | inl earlier ↦ inl (
            malloc-missing (the_search ∙ rw (later, earlier)),
            subst (All (λ b. fits (round_up size) b ≡ false)) (sym c.parts) (
                All-append c.before (c.here ∷ c.after) (λ b. fits (round_up size) b ≡ false)
                  (
                    first_fit-none (round_up size) heap_start c.before earlier,
                    first_fit-none (round_up size) h.next_fit (c.here ∷ c.after) later,
                  )),
          )
        ]
      ]

-- malloc of a size that does not wrap when it is rounded up, on a well-formed heap. Either no block
-- of the heap is free and large enough, and the call returns 0 and changes nothing; or the call
-- returns the bytes of a block that was free, at least as many as asked for and all inside the heap,
-- and leaves a well-formed heap, in which every other block is as it was. In both cases it returns.
pub malloc_lem :
    (size : ℕ) (h : Heap) (bs : List Block)
    → 0 < size
    → size ≤ 2 ^ 32 - 4
    → IsHeap h bs
    → (size ≤ round_up size)
      × (((malloc size h ≡ some (0, h)) × All (λ b. fits (round_up size) b ≡ false) bs)
          ⊎ Allocated bs size h)
malloc_lem size h bs some_size small v =
    ((round_up_lem size small).0, malloc-cases size h bs some_size v)

round_up_wraps : (size : ℕ) → 2 ^ 32 - 4 < size → size < 2 ^ 32 → round_up size ≡ 0
unfolding round_up
round_up_wraps size lo hi = omega (
  arith,
  bit_and_step ((size + 3) % 2 ^ 32) (2 ^ 32 - 4),
  bit_and_step ((size + 3) % 2 ^ 32 / 2) (2 ^ 31 - 2),
  bit_and-mask 30 ((size + 3) % 2 ^ 32 / 2 / 2),
)

-- No block fits 0 bytes only when none is free.
none_free : (bs : List Block) → All (λ b. fits 0 b ≡ false) bs → All (λ b. b.is_free ≡ false) bs
none_free [] all = tt
none_free (b ∷ bs) all = (let h = all.0 in ground arith, none_free bs all.1)

-- A request for 2^32 - 3 bytes or more, on a well-formed heap. Either no block of the heap is free,
-- and the call returns 0 and changes nothing; or the call returns the bytes of a block that was free
-- and is smaller than the request, and leaves a well-formed heap. In both cases it returns.
pub malloc_huge :
    (size : ℕ) (h : Heap) (bs : List Block)
    → 2 ^ 32 - 4 < size
    → size < 2 ^ 32
    → IsHeap h bs
    → ((malloc size h ≡ some (0, h)) × All (λ b. b.is_free ≡ false) bs)
      ⊎ ((given : Allocated bs size h) × (given.here.size < size))
malloc_huge size h bs lo hi v = elim (malloc-cases size h bs (omega arith) v) [
  | inl (refused, missed) ↦
      let wraps = round_up_wraps size lo hi in
      inl (refused, none_free bs (subst (λ n. All (λ b. fits n b ≡ false) bs) wraps missed))
  | inr given ↦
      let parts : span bs ≡ span (given.before ++ given.here ∷ given.after) = ap span given.parts in
      let sizes = span-append given.before (given.here ∷ given.after) in
      inr (given, omega (arith, parts, sizes, v.whole))
]
