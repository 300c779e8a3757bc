-- ===== src/Heap/Free.antt =====
-- free and init_heap of src/memory.c on a well-formed heap.
use my_kernel.Base.{
  ℕ, ◌+◌, ◌-◌, ◌%◌, ◌^◌, ◌≡◌, refl, ap, sym, subst, ◌∙◌, ◌==◌, true, false, ne→not_==, ==_self,
  List, [], ◌∷◌, ◌++◌, arith, some,
}
use my_kernel.Heap.{
  Header, Store, write, header_size, heap_start, heap_size, max_blocks, Heap, init_heap, merge_loop,
  free,
}
use my_kernel.Heap.Blocks.{
  Block, block, span, in_use, Seg, frame, Seg-split, Seg-join, span-append, in_use-append,
  in_use-le, length-le-span, IsHeap,
}
use my_kernel.Heap.Release.{
  all_joined, Separate, joined-Separate, append-cons, joined-cons, merge_loop-Merged, span-joined,
  in_use-joined,
}

-- What free does: it returns, the heap behind it is well formed, its blocks are the old ones with
-- the given one free and free neighbours joined, and no two neighbours are free.
pub record Freed (ptr : ℕ) (h : Heap) (blocks : List Block) : Type 0 where
  pub heap : Heap
  pub result : free ptr h ≡ some heap
  pub valid : IsHeap heap (all_joined blocks)
  pub separate : Separate (all_joined blocks)

module _ (h : Heap) (us : List Block) (b : Block) (vs : List Block)
    (v : IsHeap h (us ++ b ∷ vs)) where
  at_block : ℕ
  at_block = heap_start + span us

  released_store : Store
  released_store = write h.store at_block (record (h.store at_block) { is_free = true })

  released_chain : Seg released_store 0 heap_start (us ++ block b.size true ∷ vs)
  unfolding released_store at_block
  released_chain =
      let p = heap_start + span us in
      let (front, back) = Seg-split h.store 0 heap_start p us b vs refl v.chain in
      Seg-join released_store 0 heap_start p us (block b.size true) vs refl
        (frame h.store released_store p heap_start us (λ q lo hi. rw (ne→not_== q p (omega arith)))
          front)
        (
          rw (==_self p, back.0),
          frame h.store released_store 0 (p + header_size + b.size) vs
              (λ q lo hi. rw (ne→not_== q p (omega arith))) back.1,
        )

  free-result :
      {s : Store}
      → merge_loop (max_blocks + 1) heap_start released_store ≡ some s
      → free (at_block + header_size) h
        ≡ some (record {
          store = s;
          head = h.head;
          next_fit = h.head;
          used = (h.used + 2 ^ 32 - b.size) % 2 ^ 32;
        })
  unfolding free released_store at_block
  free-result e =
      let p = heap_start + span us in
      let room : span us + span (b ∷ vs) ≡ heap_size =
        omega (arith, span-append us (b ∷ vs), v.whole) in
      let size_at : (h.store p).size ≡ b.size =
        ap (λ (t : Header). t.size) (Seg-split h.store 0 heap_start p us b vs refl v.chain).1.0 in
      let back : (p + header_size + 2 ^ 32 - header_size) % 2 ^ 32 ≡ p = omega (arith, room) in
      let real : (p + header_size == 0) ≡ false = ne→not_== _ _ (omega arith) in
      rw (real, back, v.starts, e, size_at)

  -- The heap behind the call, for the blocks in the form that the loop takes.
  free-joined :
      (x : Block) (xs : List Block)
      → us ++ block b.size true ∷ vs ≡ x ∷ xs
      → b.is_free ≡ false
      → Freed (at_block + header_size) h (x ∷ xs)
  free-joined x xs e used_block =
      let blocks = us ++ block b.size true ∷ vs in
      let total : span (x ∷ xs) ≡ heap_size = omega (
        arith,
        ap span e,
        span-append us (block b.size true ∷ vs),
        span-append us (b ∷ vs),
        v.whole,
      ) in
      let counts : in_use (x ∷ xs) ≡ in_use us + in_use vs =
        sym (ap in_use e) ∙ in_use-append us (block b.size true ∷ vs) ∙ omega arith in
      let before : h.used ≡ in_use us + (b.size + in_use vs) =
        v.counted ∙ in_use-append us (b ∷ vs) ∙ rw used_block in
      let r =
        merge_loop-Merged (max_blocks + 1) released_store heap_start x xs (omega arith)
          (omega (arith, length-le-span (x ∷ xs), total)) (omega (arith, total))
          (subst (Seg released_store 0 heap_start) e released_chain) in
      let (y, ys, whole) = joined-cons x xs in
      record {
        heap = record {
          store = r.store;
          head = h.head;
          next_fit = h.head;
          used = (h.used + 2 ^ 32 - b.size) % 2 ^ 32;
        };
        result = free-result r.ends;
        valid = record {
          starts = v.starts;
          chain = r.chain;
          whole = span-joined x xs ∙ total;
          cursor = record {
            before = [];
            here = y;
            after = ys;
            parts = whole;
            place = omega (arith, v.starts);
          };
          counted = omega (
            arith,
            before,
            in_use-joined x xs,
            counts,
            in_use-le (x ∷ xs),
            total,
            in_use-le (us ++ b ∷ vs),
            v.whole,
            v.counted,
          );
        };
        separate = joined-Separate x xs;
      }

-- free of the pointer that malloc returned for a block in use, on a well-formed heap: the call
-- returns, the block is free, free neighbours are joined so that no two are left, the count falls by
-- the block's size, and the heap is well formed.
pub free_lem :
    (h : Heap) (us : List Block) (b : Block) (vs : List Block)
    → IsHeap h (us ++ b ∷ vs)
    → b.is_free ≡ false
    → Freed (heap_start + span us + header_size) h (us ++ block b.size true ∷ vs)
unfolding at_block
free_lem h us b vs v used_block =
    let (x, xs, e) = append-cons us (block b.size true) vs in
    subst (Freed (heap_start + span us + header_size) h) (sym e)
      (free-joined h us b vs v x xs e used_block)

-- The heap that init_heap makes at boot, when nothing is counted yet, is well formed: one free block
-- fills it.
pub init_heap-IsHeap :
    (memory : Store) → IsHeap (init_heap memory 0) (block (heap_size - header_size) true ∷ [])
unfolding init_heap
init_heap-IsHeap memory = record {
  starts = refl;
  chain = (refl, tt);
  whole = refl;
  cursor = record {
    before = [];
    here = block (heap_size - header_size) true;
    after = [];
    parts = refl;
    place = refl;
  };
  counted = refl;
}
