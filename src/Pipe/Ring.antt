-- ===== src/Pipe/Ring.antt =====
-- One pipe of src/disk.c as a bounded queue of the bytes that it holds.
use my_kernel.Base.{
  ℕ, zero, suc, ◌+◌, ◌-◌, ◌%◌, ◌<◌, ◌≤◌, ◌≡◌, refl, ap, ap₂, ◌∙◌, ltb, Bool-cases, inl, inr, ltb→lt,
  not_ltb→le, List, [], ◌∷◌, ◌++◌, append-nil, append_assoc, arith, length, set, get_or, take, drop,
  take-nil, length-set, get_or-set_self, get_or-set_ne, min,
}
use my_kernel.Pipe.{Pipe, put, write_loop, write, drop_first, read}

-- The indices and the count agree, and the storage is whole.
pub record IsValid (p : Pipe) : Type 0 where
  pub storage : length p.buffer ≡ 512
  pub tail_in : p.tail < 512
  pub count_in : p.count ≤ 512
  pub head_at : p.head ≡ (p.tail + p.count) % 512

-- `n` bytes of the ring from index `t` on.
abbrev pub stretch : List ℕ → ℕ → ℕ → List ℕ
stretch buf t zero = []
stretch buf t (suc n) = get_or buf t 0 ∷ stretch buf ((t + 1) % 512) n

-- The bytes that a pipe holds, the oldest first.
abbrev pub contents : Pipe → List ℕ
contents p = stretch p.buffer p.tail p.count

pub length-stretch : (buf : List ℕ) (t n : ℕ) → length (stretch buf t n) ≡ n
length-stretch buf t zero = refl
length-stretch buf t (suc n) = ap suc (length-stretch buf ((t + 1) % 512) n)

-- A byte stored behind `n` bytes, at most 511, is the next one of the stretch.
stretch-set :
    (buf : List ℕ) (b t n h : ℕ)
    → length buf ≡ 512
    → t < 512
    → n < 512
    → h ≡ (t + n) % 512
    → stretch (set buf h b) t (suc n) ≡ stretch buf t n ++ b ∷ []
stretch-set buf b t zero h whole inside room at =
    let here : h ≡ t = omega arith in rw (here, get_or-set_self buf t b 0 (omega arith))
stretch-set buf b t (suc n) h whole inside room at =
    ap₂ ◌∷◌ (get_or-set_ne buf h t b 0 (omega arith))
      (stretch-set buf b ((t + 1) % 512) n h whole (omega arith) (omega arith) (omega arith))

module _ (b : ℕ) (p : Pipe) (v : IsValid p) (room : p.count < 512) where
  put-IsValid : IsValid (put b p)
  unfolding put
  put-IsValid = record {
    storage = length-set p.buffer p.head b ∙ v.storage;
    tail_in = v.tail_in;
    count_in = omega arith;
    head_at = omega (arith, v.head_at);
  }

  contents-put : contents (put b p) ≡ contents p ++ b ∷ []
  unfolding put
  contents-put =
      let next : p.count + 1 ≡ suc p.count = omega arith in
      rw next (stretch-set p.buffer b p.tail p.count p.head v.storage v.tail_in room v.head_at)

count-put : (b : ℕ) (p : Pipe) → (put b p).count ≡ p.count + 1
unfolding put
count-put b p = refl

-- What a write of `bytes` makes of the pipe `p`, started with `written` bytes done.
pub record Wrote (p : Pipe) (bytes : List ℕ) (written : ℕ) (out : ℕ × Pipe) : Type 0 where
  pub valid : IsValid out.1
  pub taken : out.0 ≡ written + min (length bytes) (512 - p.count)
  pub holds : contents out.1 ≡ contents p ++ take (512 - p.count) bytes

write_loop-Wrote :
    (bytes : List ℕ) (written : ℕ) (p : Pipe)
    → IsValid p
    → Wrote p bytes written (write_loop bytes written p)
unfolding write_loop
write_loop-Wrote [] written p v = record {
  valid = v;
  taken = omega arith;
  holds = rw (take-nil (512 - p.count), append-nil);
}
write_loop-Wrote (b ∷ bs) written p v = elim (Bool-cases (ltb p.count 512)) [
  | inl room ↦
      let less = ltb→lt p.count 512 room in
      let w = write_loop-Wrote bs (written + 1) (put b p) (put-IsValid b p v less) in
      let fewer : 512 - p.count ≡ suc (511 - p.count) = omega arith in
      let left : 512 - (put b p).count ≡ 511 - p.count = omega (arith, count-put b p) in
      rw room (record {
        valid = w.valid;
        taken = omega (arith, w.taken, left);
        holds = rw fewer (w.holds ∙ rw (left, contents-put b p v less, append_assoc));
      })
  | inr full ↦
      let none_left : 512 - p.count ≡ 0 = omega (arith, not_ltb→le p.count 512 full) in
      rw full (record { valid = v; taken = omega arith; holds = rw (none_left, append-nil) })
]

-- A write into a pipe takes as many of the bytes as there is room for, appends exactly those in
-- their order, returns their number and keeps the pipe well formed.
pub write-Wrote : (bytes : List ℕ) (p : Pipe) → IsValid p → Wrote p bytes 0 (write bytes p)
unfolding write
write-Wrote bytes p v = write_loop-Wrote bytes 0 p v

-- What a read of at most `n` bytes makes of the pipe `p`.
pub record Taken (p : Pipe) (n : ℕ) (out : List ℕ × Pipe) : Type 0 where
  pub valid : IsValid out.1
  pub bytes : out.0 ≡ take n (contents p)
  pub left : contents out.1 ≡ drop n (contents p)

drop_first-IsValid : (p : Pipe) → IsValid p → 0 < p.count → IsValid (drop_first p)
unfolding drop_first
drop_first-IsValid p v some_byte = record {
  storage = v.storage;
  tail_in = omega arith;
  count_in = omega (arith, v.count_in);
  head_at = omega (arith, v.head_at, v.tail_in);
}

-- A pipe that is not empty begins with the byte at its tail.
contents-drop_first :
    (p : Pipe) → 0 < p.count → contents p ≡ get_or p.buffer p.tail 0 ∷ contents (drop_first p)
unfolding drop_first
contents-drop_first p some_byte =
    let more : p.count ≡ suc (p.count - 1) = omega arith in ap (stretch p.buffer p.tail) more

-- A read returns the oldest bytes in their order, at most as many as it is asked for, and leaves
-- the others.
pub read-Taken : (n : ℕ) (p : Pipe) → IsValid p → Taken p n (read n p)
unfolding read
read-Taken zero p v = record { valid = v; bytes = refl; left = refl }
read-Taken (suc n) p v = elim (Bool-cases (ltb 0 p.count)) [
  | inl more ↦
      let some_byte = ltb→lt 0 p.count more in
      let t = read-Taken n (drop_first p) (drop_first-IsValid p v some_byte) in
      let split = contents-drop_first p some_byte in
      rw more (record { valid = t.valid; bytes = rw (split, t.bytes); left = rw (split, t.left) })
  | inr empty ↦
      let nothing : p.count ≡ 0 = omega (arith, not_ltb→le 0 p.count empty) in
      let holds : contents p ≡ [] = ap (stretch p.buffer p.tail) nothing in
      rw empty (record { valid = v; bytes = rw holds; left = rw holds })
]
