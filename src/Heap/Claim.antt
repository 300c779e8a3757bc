-- ===== src/Heap/Claim.antt =====
-- Taking a block in malloc of src/memory.c: the split, the flag, the cursor and the count.
use my_kernel.Base.{
  ℕ, ◌+◌, ◌-◌, ◌%◌, ◌^◌, ◌<◌, ◌≤◌, ◌≡◌, ◌≢◌, refl, ap, sym, subst, ◌∙◌, ◌==◌, ltb, true, false,
  if◌then◌else◌, Bool-cases, inl, inr, lt→ltb, le→not_ltb, ltb→lt, not_ltb→le, ne→not_==, ==_self,
  List, [], ◌∷◌, ◌++◌, append_assoc, arith,
}
use my_kernel.Heap.{Header, Store, write, header_size, heap_start, heap_size, Heap, split, claim}
use my_kernel.Heap.Blocks.{
  Block, block, span, in_use, Seg, link, header, frame, Seg-split, Seg-join, span-append,
  in_use-append, in_use-le, Cursor, IsHeap,
}

-- The blocks that take the place of `b` and the ones behind it: `size` bytes in use, and the rest of
-- `b` as a free block if it is worth a header.
abbrev pub claimed : ℕ → Block → List Block → List Block
claimed size b vs =
    if ltb (size + 16) b.size
    then block size false ∷ block (b.size - size - header_size) true ∷ vs
    else block b.size false ∷ vs

write_self : (s : Store) (a : ℕ) (h : Header) → write s a h a ≡ h
write_self s a h = rw (==_self a)

write_ne : (s : Store) (a p : ℕ) (h : Header) → p ≢ a → write s a h p ≡ s p
write_ne s a p h ne = rw (ne→not_== p a ne)

module _ (h : Heap) (us : List Block) (b : Block) (vs : List Block) (size p : ℕ)
    (place : p ≡ heap_start + span us) (large : size ≤ b.size) (open_block : b.is_free ≡ true)
    (v : IsHeap h (us ++ b ∷ vs)) where
  room : span us + header_size + b.size + span vs ≡ heap_size
  room = omega (arith, span-append us (b ∷ vs), v.whole)

  parts : Seg h.store p heap_start us × Seg h.store 0 p (b ∷ vs)
  parts = Seg-split h.store 0 heap_start p us b vs (sym place) v.chain

  -- The heap after the two ways to take the block.
  whole_store : Store
  whole_store = write h.store p (header (block b.size false) (link 0 (p + header_size + b.size) vs))

  split_store : Store
  split_store =
      write
        (write
          (write h.store (p + header_size + size) (
            header (block (b.size - size - header_size) true)
              (link 0 (p + header_size + b.size) vs)))
          p (header (block size b.is_free) (p + header_size + size)))
        p (header (block size false) (p + header_size + size))

  claim-whole :
      b.size ≤ size + 16
      → claim h p size ≡ record {
        store = whole_store;
        head = h.head;
        next_fit =
            if link 0 (p + header_size + b.size) vs == 0
            then h.head
            else link 0 (p + header_size + b.size) vs;
        used = (h.used + b.size) % 2 ^ 32;
      }
  unfolding claim whole_store split
  claim-whole small =
      let test : ltb ((size + header_size + 4) % 2 ^ 32) (h.store p).size ≡ false =
        rw parts.1.0 (le→not_ltb _ _ (omega (arith, room))) in
      rw (test, parts.1.0)

  claim-split :
      size + 16 < b.size
      → claim h p size ≡ record {
        store = split_store;
        head = h.head;
        next_fit = p + header_size + size;
        used = (h.used + size) % 2 ^ 32;
      }
  unfolding claim split_store split
  claim-split big =
      let test : ltb ((size + header_size + 4) % 2 ^ 32) (h.store p).size ≡ true =
        rw parts.1.0 (lt→ltb _ _ (omega (arith, room))) in
      let new : (p + header_size + size) % 2 ^ 32 ≡ p + header_size + size = omega (arith, room) in
      let real : (p + header_size + size == 0) ≡ false = ne→not_== _ _ (omega arith) in
      rw (test, new, ==_self p, real, parts.1.0)

  -- The addresses of the blocks before, and of those behind, keep their headers.
  before_kept : (s : Store) → ((q : ℕ) → q < p → s q ≡ h.store q) → Seg s p heap_start us
  before_kept s same = frame h.store s p heap_start us (λ q lo hi. same q (omega arith)) parts.0

  behind_kept :
      (s : Store) (a : ℕ)
      → a ≡ p + header_size + b.size
      → ((q : ℕ) → a ≤ q → s q ≡ h.store q)
      → Seg s 0 a vs
  behind_kept s a e same =
      frame h.store s 0 a vs (λ q lo hi. same q lo)
        (subst (λ t. Seg h.store 0 t vs) (sym e) parts.1.1)

  whole_chain : Seg whole_store 0 heap_start (us ++ block b.size false ∷ vs)
  unfolding whole_store
  whole_chain =
      Seg-join whole_store 0 heap_start p us (block b.size false) vs (sym place)
        (before_kept whole_store (λ q lt. write_ne h.store p q _ (omega arith)))
        (
          write_self h.store p _,
          behind_kept whole_store (p + header_size + b.size) refl
              (λ q le. write_ne h.store p q _ (omega arith)),
        )

  split_other : (q : ℕ) → q ≢ p → q ≢ p + header_size + size → split_store q ≡ h.store q
  unfolding split_store
  split_other q n m = rw (ne→not_== q p n, ne→not_== q (p + header_size + size) m)

  split_chain :
      size + 16 < b.size
      → Seg split_store 0 heap_start
          (us ++ block size false ∷ block (b.size - size - header_size) true ∷ vs)
  unfolding split_store
  split_chain big =
      let new = p + header_size + size in
      let end : new + header_size + (b.size - size - header_size) ≡ p + header_size + b.size =
        omega arith in
      Seg-join split_store 0 heap_start p us (block size false)
        (block (b.size - size - header_size) true ∷ vs) (sym place)
        (before_kept split_store (λ q lt. split_other q (omega arith) (omega arith)))
        (
          rw (==_self p),
          (
            rw (ne→not_== new p (omega arith), ==_self new)
                (ap (λ (t : ℕ). header (block (b.size - size - header_size) true) (link 0 t vs))
                  (sym end)),
            behind_kept split_store (new + header_size + (b.size - size - header_size)) end
                (λ q le. split_other q (omega arith) (omega arith)),
          ),
        )

  counted_before : h.used ≡ in_use us + in_use vs
  counted_before = v.counted ∙ in_use-append us (b ∷ vs) ∙ rw open_block (omega arith)

  -- The count stays below 2^32.
  count_bound : in_use us + in_use vs + b.size < 2 ^ 32
  count_bound = omega (arith, in_use-le us, in_use-le vs, room)

-- The cursor behind the block that was taken, or at the head if that was the last one.
next-Cursor :
    (us vs : List Block) (b : Block) (p : ℕ)
    → p ≡ heap_start + span us
    → Cursor
        (if link 0 (p + header_size + b.size) vs == 0
          then heap_start
          else link 0 (p + header_size + b.size) vs)
        (us ++ b ∷ vs)
next-Cursor [] [] b p place = record {
  before = [];
  here = b;
  after = [];
  parts = refl;
  place = omega arith;
}
next-Cursor (u ∷ us) [] b p place = record {
  before = [];
  here = u;
  after = us ++ b ∷ [];
  parts = refl;
  place = omega arith;
}
next-Cursor us (c ∷ vs) b p place =
    let real : (p + header_size + b.size == 0) ≡ false = ne→not_== _ _ (omega arith) in
    record {
      before = us ++ b ∷ [];
      here = c;
      after = vs;
      parts = sym (append_assoc us (b ∷ []) (c ∷ vs));
      place = rw real (omega (arith, span-append us (b ∷ [])));
    }

-- A block taken from a well-formed heap leaves a well-formed heap, in which the block stands in use
-- at its place, cut to size if what is left over is worth a header.
pub claim-IsHeap :
    (h : Heap) (us : List Block) (b : Block) (vs : List Block) (size p : ℕ)
    → p ≡ heap_start + span us
    → size ≤ b.size
    → b.is_free ≡ true
    → IsHeap h (us ++ b ∷ vs)
    → IsHeap (claim h p size) (us ++ claimed size b vs)
claim-IsHeap h us b vs size p place large open_block v =
    elim (Bool-cases (ltb (size + 16) b.size)) [
      | inl big ↦
          let more = ltb→lt (size + 16) b.size big in
          let rest = block (b.size - size - header_size) true in
          let real : (p + header_size + size == 0) ≡ false = ne→not_== _ _ (omega arith) in
          rw (big, claim-split h us b vs size p place large open_block v more)
            (record {
              starts = v.starts;
              chain = split_chain h us b vs size p place large open_block v more;
              whole = omega (
                arith,
                span-append us (block size false ∷ rest ∷ vs),
                span-append us (b ∷ vs),
                v.whole,
              );
              cursor = record {
                before = us ++ block size false ∷ [];
                here = rest;
                after = vs;
                parts = sym (append_assoc us (block size false ∷ []) (rest ∷ vs));
                place = omega (arith, span-append us (block size false ∷ []));
              };
              counted = omega (
                arith,
                counted_before h us b vs size p place large open_block v,
                count_bound h us b vs size p place large open_block v,
                in_use-append us (block size false ∷ rest ∷ vs),
              );
            })
      | inr small ↦
          let less = not_ltb→le (size + 16) b.size small in
          rw (small, claim-whole h us b vs size p place large open_block v less)
            (record {
              starts = v.starts;
              chain = whole_chain h us b vs size p place large open_block v;
              whole = omega (
                arith,
                span-append us (block b.size false ∷ vs),
                span-append us (b ∷ vs),
                v.whole,
              );
              cursor = rw v.starts (next-Cursor us vs (block b.size false) p place);
              counted = omega (
                arith,
                counted_before h us b vs size p place large open_block v,
                count_bound h us b vs size p place large open_block v,
                in_use-append us (block b.size false ∷ vs),
              );
            })
    ]
