-- ===== src/Heap.antt =====
-- The kernel heap of src/memory.c: init_heap, malloc and free over `struct block_header`.
-- The store gives the header at each address; the bytes of the blocks are not modelled.
pub mod Blocks
pub mod Search
pub mod Claim
pub mod Malloc
pub mod Release
pub mod Free
use my_kernel.Base.{
  ℕ, zero, suc, ◌+◌, ◌-◌, ◌%◌, ◌^◌, ◌==◌, ltb, leb, if◌then◌else◌, Bool, true, false, not, ◌&&◌,
  bit_and, Option, none, some, ◌>>=◌,
}

-- `struct block_header`. Its size is 12 bytes.
pub record Header : Type 0 where
  pub size : ℕ
  pub is_free : Bool
  pub next : ℕ

abbrev pub Store : Type 0
Store = ℕ → Header

abbrev pub write : Store → ℕ → Header → Store
write s a h p = if p == a then h else s p

-- `heap_head`, `next_fit_ptr` and `total_used_memory` with the headers.
pub record Heap : Type 0 where
  pub store : Store
  pub head : ℕ
  pub next_fit : ℕ
  pub used : ℕ

abbrev pub heap_start : ℕ
heap_start = 0x800000

abbrev pub heap_size : ℕ
heap_size = 4194304

-- sizeof(struct block_header)
abbrev pub header_size : ℕ
header_size = 12

unfoldable pub init_heap : Store → ℕ → Heap
init_heap memory used = record {
  store =
      write memory heap_start (record { size = heap_size - header_size; is_free = true; next = 0 });
  head = heap_start;
  next_fit = heap_start;
  used = used;
}

-- How the search loop of malloc ends.
pub data Outcome : Type 0 where
  found : ℕ → Outcome
  missing : Outcome
  no_fuel : Outcome

-- `while (current != 0)`, up to the block that is taken.
unfoldable pub search : Store → (head start size : ℕ) → ℕ → ℕ → Bool → Outcome
search s head start size zero current wrapped = no_fuel
search s head start size (suc fuel) current wrapped =
    let next = (s current).next in
    let wrap = (next == 0) && not wrapped in
    let current' = if wrap then head else next in
    let wrapped' = if wrap then true else wrapped in
    let rest = search s head start size fuel current' wrapped' in
    if current == 0
    then missing
    else (if (s current).is_free && leb size (s current).size
        then found current
        else (if wrapped' && current' == start then missing else rest))

-- The split of a block that is large enough for another header and more than 4 bytes.
unfoldable pub split : Store → ℕ → ℕ → Store
split s current size =
    let c = s current in
    let new_block = (current + header_size + size) % 2 ^ 32 in
    if ltb ((size + header_size + 4) % 2 ^ 32) c.size
    then write
        (write s new_block
          (record { size = c.size - size - header_size; is_free = true; next = c.next }))
        current (record c { size = size; next = new_block })
    else s

-- The block is taken: the split, the flag, the cursor and the count.
unfoldable pub claim : Heap → ℕ → ℕ → Heap
unfolding split
claim h current size =
    let s = split h.store current size in
    let c = s current in
    record {
      store = write s current (record c { is_free = false });
      head = h.head;
      next_fit = if c.next == 0 then h.head else c.next;
      used = (h.used + c.size) % 2 ^ 32;
    }

-- `(size + 3) & ~3`
unfoldable pub round_up : ℕ → ℕ
round_up size = bit_and ((size + 3) % 2 ^ 32) (2 ^ 32 - 4)

-- The heap has room for 349525 headers.
abbrev pub max_blocks : ℕ
max_blocks = 349525

-- The pointer that malloc returns, and the heap behind it; `none` is a search without end.
unfoldable pub malloc : ℕ → Heap → Option (ℕ × Heap)
malloc size h =
    if size == 0
    then some (0, h)
    else elim (search h.store h.head h.next_fit (round_up size) (max_blocks + 1) h.next_fit false) [
      | found current ↦ some ((current + header_size) % 2 ^ 32, claim h current (round_up size))
      | missing ↦ some (0, h)
      | no_fuel ↦ none
    ]

-- `while (current != 0 && current->next != 0)` of free: neighbours that are free are joined.
unfoldable pub merge_loop : ℕ → ℕ → Store → Option Store
merge_loop zero current s = none
merge_loop (suc fuel) current s =
    let c = s current in
    let n = s c.next in
    let joined =
      write s current
        (record c { size = (c.size + (n.size + header_size)) % 2 ^ 32; next = n.next }) in
    let again = merge_loop fuel current joined in
    let onward = merge_loop fuel c.next s in
    if current == 0
    then some s
    else (if c.next == 0 then some s else (if c.is_free && n.is_free then again else onward))

unfoldable pub free : ℕ → Heap → Option Heap
free ptr h =
    if ptr == 0
    then some h
    else (let block = (ptr + 2 ^ 32 - header_size) % 2 ^ 32 in
        let b = h.store block in
        merge_loop (max_blocks + 1) h.head (write h.store block (record b { is_free = true }))
        >>= λ s. some (record {
          store = s;
          head = h.head;
          next_fit = h.head;
          used = (h.used + 2 ^ 32 - b.size) % 2 ^ 32;
        }))
