-- ===== src/Gui/Events.antt =====
-- The queue of events of a window: what sdk/wm.c puts in, src/idt.c takes out in the same order.
use my_kernel.Base.{
  ℕ, zero, suc, ◌+◌, ◌-◌, ◌<◌, ◌≤◌, ◌≡◌, refl, ap, sym, ◌∙◌, ltb, if◌then◌else◌, ◌&&◌, some, List,
  [], ◌∷◌, ◌++◌, length, get_or, set, drop, arith, ltb→lt, inl, inr, Bool-cases, get_or-set_self,
}
use my_kernel.Gui.{
  Window, no_window, Kernel, find_window, window_at, put_window, is_own, real, store_word,
}
use my_kernel.Gui.Buttons.{shift, without_first, poll_event, push_event}
use my_kernel.Gui.Bounds.{IsWindow, IsGui, find_window-window_at, both-right}
use my_kernel.Gui.Keeps.{window_at-IsWindow}

-- The first `n` pairs of two arrays: the types and the numbers of the events.
abbrev pairs : ℕ → List ℕ → List ℕ → List (ℕ × ℕ)
pairs zero xs ys = []
pairs (suc n) [] ys = []
pairs (suc n) (x ∷ xs) [] = []
pairs (suc n) (x ∷ xs) (y ∷ ys) = (x, y) ∷ pairs n xs ys

-- The queue that the arrays of a window stand for, the oldest event first.
abbrev pub queue : Window → List (ℕ × ℕ)
queue win = pairs win.event_count win.event_type win.event_id

pairs-shift :
    (n : ℕ) (x y : ℕ) (xs ys : List ℕ)
    → n ≤ length xs
    → n ≤ length ys
    → pairs n (shift n (x ∷ xs)) (shift n (y ∷ ys)) ≡ pairs n xs ys
unfolding shift
pairs-shift zero x y xs ys lx ly = refl
pairs-shift (suc n) x y [] ys lx ly = absurd (omega arith)
pairs-shift (suc n) x y (x' ∷ xs) [] lx ly = absurd (omega arith)
pairs-shift (suc n) x y (x' ∷ xs) (y' ∷ ys) lx ly =
    ap (λ (t : List (ℕ × ℕ)). (x', y') ∷ t) (pairs-shift n x' y' xs ys (omega arith) (omega arith))

pairs-set :
    (n : ℕ) (xs ys : List ℕ) (v w : ℕ)
    → n < length xs
    → n < length ys
    → pairs (suc n) (set xs n v) (set ys n w) ≡ pairs n xs ys ++ (v, w) ∷ []
pairs-set n [] ys v w lx ly = absurd (omega arith)
pairs-set n (x ∷ xs) [] v w lx ly = absurd (omega arith)
pairs-set zero (x ∷ xs) (y ∷ ys) v w lx ly = refl
pairs-set (suc n) (x ∷ xs) (y ∷ ys) v w lx ly =
    ap (λ (t : List (ℕ × ℕ)). (x, y) ∷ t) (pairs-set n xs ys v w (omega arith) (omega arith))

-- A released button puts its event behind those that wait, where fewer than 20 wait; the event is
-- lost otherwise.
pub push_event-queue :
    (b : ℕ) (win : Window)
    → IsWindow win
    → queue (push_event b win)
      ≡ (if ltb win.event_count 20 then queue win ++ (1, b) ∷ [] else queue win)
unfolding push_event
push_event-queue b win (shapes, buttons, (le, types, ids), texts) =
    elim (Bool-cases (ltb win.event_count 20)) [
      | inl room ↦
          let lt = ltb→lt win.event_count 20 room in
          let next : win.event_count + 1 ≡ suc win.event_count = omega arith in
          rw (push_event, room, next)
            (pairs-set win.event_count win.event_type win.event_id 1 b (omega (arith, types, lt))
              (omega (arith, ids, lt)))
      | inr full ↦ rw (push_event, full) refl
    ]

pairs-uncons :
    (n : ℕ) (xs ys : List ℕ)
    → suc n ≤ length xs
    → suc n ≤ length ys
    → pairs (suc n) xs ys ≡ (get_or xs 0 0, get_or ys 0 0) ∷ pairs n (shift n xs) (shift n ys)
pairs-uncons n [] ys lx ly = absurd (omega arith)
pairs-uncons n (x ∷ xs) [] lx ly = absurd (omega arith)
pairs-uncons n (x ∷ xs) (y ∷ ys) lx ly =
    ap (λ (t : List (ℕ × ℕ)). (x, y) ∷ t)
      (sym (pairs-shift n x y xs ys (omega arith) (omega arith)))

without_first-queue :
    (win : Window)
    → IsWindow win
    → 0 < win.event_count
    → queue win ≡ (get_or win.event_type 0 0, get_or win.event_id 0 0) ∷ queue (without_first win)
without_first-queue win (shapes, buttons, (le, types, ids), texts) waits =
    let next : win.event_count ≡ suc (win.event_count - 1) = omega arith in
    ap (λ n. pairs n win.event_type win.event_id) next
    ∙ pairs-uncons (win.event_count - 1) win.event_type win.event_id
        (omega (arith, types, le, waits)) (omega (arith, ids, le, waits))

-- A program that asks for an event gets the oldest one of its first window that has any: its type is
-- the result, its number goes to the program's memory, and the others stay in their order.
pub poll_event-queue :
    (out_id : ℕ) (k : Kernel) (i e_type e_id : ℕ) (rest : List (ℕ × ℕ))
    → IsGui k
    → find_window (λ win. is_own k win && ltb 0 win.event_count) 2 (drop 2 k.windows) ≡ some i
    → i < length k.windows
    → queue (window_at k i) ≡ (e_type, e_id) ∷ rest
    → ((poll_event out_id k).0 ≡ e_type)
      × (queue (window_at (poll_event out_id k).1 i) ≡ rest)
      × ((poll_event out_id k).1.memory ≡ store_word (real out_id k) e_id k.memory)
unfolding poll_event
poll_event-queue out_id k i e_type e_id rest fits found lt waiting =
    let win = window_at k i in
    let test = find_window-window_at (λ w. is_own k w && ltb 0 w.event_count) k i found in
    let positive = ltb→lt 0 win.event_count (both-right (is_own k win) _ test) in
    let same : (get_or win.event_type 0 0, get_or win.event_id 0 0) ∷ queue (without_first win)
        ≡ (e_type, e_id) ∷ rest =
      sym (without_first-queue win (window_at-IsWindow k fits i) positive) ∙ waiting in
    let heads = ap (λ (t : List (ℕ × ℕ)). get_or t 0 (0, 0)) same in
    let put : window_at (put_window i (without_first win) k) i ≡ without_first win =
      get_or-set_self k.windows i (without_first win) no_window lt in
    rw (poll_event, found)
      (
        ap (λ (e : ℕ × ℕ). e.0) heads,
        ap queue put ∙ ap (drop 1) same,
        ap (λ (e : ℕ × ℕ). store_word (real out_id k) e.1 k.memory) heads,
      )
