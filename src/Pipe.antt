-- ===== src/Pipe.antt =====
-- The named pipes of src/disk.c: `pipe_t`, and what vfs_open, vfs_read and vfs_write do with one.
pub mod Ring
pub mod Stream
pub mod Pool
use my_kernel.Base.{
  ℕ, zero, suc, ◌+◌, ◌-◌, ◌%◌, ◌==◌, ltb, if◌then◌else◌, Bool, true, false, not, ◌&&◌, Option, none,
  some, List, [], ◌∷◌, length, set, get_or, replicate,
}
use my_kernel.Text.{strncmp}

abbrev pub pipe_size : ℕ
pipe_size = 512

pub record Pipe : Type 0 where
  pub active : Bool
  pub name : List ℕ
  pub buffer : List ℕ
  pub head : ℕ
  pub tail : ℕ
  pub count : ℕ

-- One entry of `system_pipes[16] = {0}`.
abbrev pub closed : Pipe
closed = record {
  active = false;
  name = replicate 16 0;
  buffer = replicate 512 0;
  head = 0;
  tail = 0;
  count = 0;
}

-- `p->buffer[p->head] = b; p->head = (p->head + 1) % 512; p->count++;`
unfoldable pub put : ℕ → Pipe → Pipe
put b p = record p {
  buffer = set p.buffer p.head b;
  head = (p.head + 1) % 512;
  count = p.count + 1;
}

-- `while (written < count && p->count < 512)`; the list is what is left of `buffer[0..count)`.
unfoldable pub write_loop : List ℕ → ℕ → Pipe → ℕ × Pipe
unfolding put
write_loop [] written p = (written, p)
write_loop (b ∷ bs) written p =
    let rest = write_loop bs (written + 1) (put b p) in
    if ltb p.count 512 then rest else (written, p)

unfoldable pub write : List ℕ → Pipe → ℕ × Pipe
unfolding write_loop
write bytes p = write_loop bytes 0 p

-- `p->tail = (p->tail + 1) % 512; p->count--;`
unfoldable pub drop_first : Pipe → Pipe
drop_first p = record p { tail = (p.tail + 1) % 512; count = p.count - 1 }

-- `while (read_bytes < count && p->count > 0)`: recursion on the bytes still wanted. The list is
-- what goes into `target_buffer`, and its length is the result.
unfoldable pub read : ℕ → Pipe → List ℕ × Pipe
unfolding drop_first
read zero p = ([], p)
read (suc n) p =
    let rest = read n (drop_first p) in
    if ltb 0 p.count then (get_or p.buffer p.tail 0 ∷ rest.0, rest.1) else ([], p)

-- `while (filename[k] && k < 8) { name[k] = filename[k]; k++; } name[k] = '\0';`, on the parts of
-- both arrays from `k` on. The end of the file name's object counts as its terminator.
unfoldable pub name_from : ℕ → List ℕ → List ℕ → List ℕ
name_from n filename [] = []
name_from zero filename (m ∷ name) = 0 ∷ name
name_from (suc n) [] (m ∷ name) = 0 ∷ name
name_from (suc n) (c ∷ cs) (m ∷ name) = if c == 0 then 0 ∷ name else c ∷ name_from n cs name

-- A pipe as vfs_open starts it. The bytes of an earlier use stay in the buffer.
unfoldable pub start : List ℕ → Pipe → Pipe
unfolding name_from
start filename p = record p {
  active = true;
  name = name_from 8 filename p.name;
  head = 0;
  tail = 0;
  count = 0;
}

-- Does `active && strncmp(name, filename, 8) == 0` hold?
abbrev pub is_zero : Option ℕ → Bool
is_zero none = false
is_zero (some v) = v == 0

unfoldable pub named : List ℕ → Pipe → Bool
unfolding strncmp
named filename p = p.active && is_zero (strncmp p.name filename 8)

-- The first scan: an open pipe of that name, counted from `i`.
unfoldable pub find_named : List ℕ → ℕ → List Pipe → Option ℕ
find_named filename i [] = none
find_named filename i (p ∷ ps) = if named filename p then some i else find_named filename (i + 1) ps

-- The second scan: the first pipe not in use is started.
unfoldable pub create : List ℕ → ℕ → List Pipe → Option (ℕ × List Pipe)
create filename i [] = none
create filename i (p ∷ ps) = elim p.active [
  | false ↦ some (i, start filename p ∷ ps)
  | true ↦ elim (create filename (i + 1) ps) [ none ↦ none | some (j, qs) ↦ some (j, p ∷ qs) ]
]

-- The pipe number and the pool; `none` is the full pool.
unfoldable pub open_pipe : List ℕ → List Pipe → Option (ℕ × List Pipe)
unfolding find_named create named start
open_pipe filename pool = elim (find_named filename 0 pool) [
  | some i ↦ some (i, pool)
  | none ↦ create filename 0 pool
]
