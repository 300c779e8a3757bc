-- ===== src/Pipe/Stream.antt =====
-- A pipe of src/disk.c over a whole session: no byte is lost, doubled or reordered.
use my_kernel.Base.{
  ℕ, ◌-◌, ◌≡◌, ap, sym, ◌∙◌, List, [], ◌∷◌, ◌++◌, append-nil, append_assoc, take, take-append-drop,
  take-min, arith, min, length,
}
use my_kernel.Pipe.{Pipe, write, read}
use my_kernel.Pipe.Ring.{IsValid, contents, write-Wrote, read-Taken}

-- The calls that the tasks on the two ends make, in the order in which the kernel serves them.
pub data Op : Type 0 where
  send : List ℕ → Op
  receive : ℕ → Op

-- The bytes received over the session, the bytes accepted, and the pipe at the end.
pub record Trace : Type 0 where
  pub received : List ℕ
  pub accepted : List ℕ
  pub final : Pipe

unfoldable pub session : List Op → Pipe → Trace
unfolding write read
session [] p = record { received = []; accepted = []; final = p }
session (send bytes ∷ ops) p =
    let (n, p') = write bytes p in
    let t = session ops p' in
    record { received = t.received; accepted = take n bytes ++ t.accepted; final = t.final }
session (receive n ∷ ops) p =
    let (bytes, p') = read n p in
    let t = session ops p' in
    record { received = bytes ++ t.received; accepted = t.accepted; final = t.final }

-- Over any session on a well-formed pipe the bytes received, followed by those still in the pipe,
-- are the bytes that the pipe held followed by the bytes accepted, in this order; and the pipe
-- stays well formed.
pub session-fifo :
    (ops : List Op) (p : Pipe)
    → IsValid p
    → ((session ops p).received ++ contents (session ops p).final
        ≡ contents p ++ (session ops p).accepted)
      × IsValid (session ops p).final
unfolding session
session-fifo [] p v = (sym (append-nil (contents p)), v)
session-fifo (send bytes ∷ ops) p v =
    let w = write-Wrote bytes p v in
    let (same, valid) = session-fifo ops (write bytes p).1 w.valid in
    let count : (write bytes p).0 ≡ min (length bytes) (512 - p.count) = omega (arith, w.taken) in
    let kept : take (write bytes p).0 bytes ≡ take (512 - p.count) bytes =
      ap (λ n. take n bytes) count ∙ take-min (512 - p.count) bytes in
    (same ∙ rw (w.holds, kept, append_assoc), valid)
session-fifo (receive n ∷ ops) p v =
    let t = read-Taken n p v in
    let (same, valid) = session-fifo ops (read n p).1 t.valid in
    (rw (append_assoc, same, ← append_assoc, t.bytes, t.left, take-append-drop), valid)
