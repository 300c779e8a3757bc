-- ===== src/Tasks/Circle.antt =====
-- The tasks of src/task.c as a circle, and the place of a new task in it.
use my_kernel.Base.{
  ℕ, ◌≡◌, ◌≢◌, refl, ap, sym, ◌∙◌, ◌==◌, Bool, true, false, ◌||◌, List, [], ◌∷◌, arith, ==_iff,
  ne→not_==,
}
use my_kernel.Tasks.{Task, Tasks, put, link_task}

abbrev pub mem : ℕ → List ℕ → Bool
mem x [] = false
mem x (y ∷ ys) = x == y || mem x ys

-- From `a` on the links lead through the list and back to the head.
abbrev pub Chain : Tasks → ℕ → ℕ → List ℕ → Type 0
Chain s head a [] = (s a).next ≡ head
Chain s head a (b ∷ more) = ((s a).next ≡ b) × (b ≢ head) × Chain s head b more

abbrev pub Distinct : List ℕ → Type 0
Distinct [] = Unit
Distinct (x ∷ xs) = (mem x xs ≡ false) × Distinct xs

-- The circle from the head, over the others in the order of the links.
abbrev pub Circle : Tasks → ℕ → List ℕ → Type 0
Circle s head others = Chain s head head others × Distinct (head ∷ others)

pub put_here : (s : Tasks) (a : ℕ) (t : Task) → put s a t a ≡ t
put_here s a t = rw ((==_iff a a).1 refl) refl

pub put_other : (s : Tasks) (a : ℕ) (t : Task) (x : ℕ) → x ≢ a → put s a t x ≡ s x
put_other s a t x ne = rw (ne→not_== x a ne) refl

-- A chain rests on the links of its own tasks.
pub Chain-same :
    (s t : Tasks) (head a : ℕ) (more : List ℕ)
    → ((x : ℕ) → mem x (a ∷ more) ≡ true → (t x).next ≡ (s x).next)
    → Chain s head a more
    → Chain t head a more
Chain-same s t head a [] same c = same a (ground arith) ∙ c
Chain-same s t head a (b ∷ more) same c = (
  same a (ground arith) ∙ c.0,
  c.1,
  Chain-same s t head b more (λ x e. same x (ground arith)) c.2,
)

pub or_false : (a b : Bool) → (a || b) ≡ false → (a ≡ false) × (b ≡ false)
or_false true b e = absurd (true_ne e)
  where
    true_ne : true ≡ false → ⊥
    true_ne e = ground arith
or_false false b e = (refl, e)

pub not_==→ne : (a b : ℕ) → (a == b) ≡ false → a ≢ b
not_==→ne a b e same = ground arith

pub in_out : (x y : ℕ) (xs : List ℕ) → mem x xs ≡ true → mem y xs ≡ false → x ≢ y
in_out x y xs inside outside same =
    two_values (mem y xs) (ap (λ t. mem t xs) (sym same) ∙ inside) outside
  where
    two_values : (b : Bool) → b ≡ true → b ≡ false → ⊥
    two_values true e f = ground arith
    two_values false e f = ground arith

module _ (s : Tasks) (head new_task : ℕ) (others : List ℕ) (ring : Circle s head others)
    (fresh : mem new_task (head ∷ others) ≡ false) where
  linked_new : (link_task head new_task s new_task).next ≡ (s head).next
  unfolding link_task
  linked_new =
      let apart =
        not_==→ne new_task head (or_false (new_task == head) (mem new_task others) fresh).0 in
      rw (ne→not_== new_task head apart, (==_iff new_task new_task).1 refl) refl

  linked_head : (link_task head new_task s head).next ≡ new_task
  unfolding link_task
  linked_head = rw ((==_iff head head).1 refl) refl

  linked_other : (x : ℕ) → mem x others ≡ true → (link_task head new_task s x).next ≡ (s x).next
  unfolding link_task
  linked_other x inside =
      let a = in_out x head others inside ring.1.0 in
      let b =
        in_out x new_task others inside
          (or_false (new_task == head) (mem new_task others) fresh).1 in
      rw (ne→not_== x head a, ne→not_== x new_task b) refl

-- A new task stands right behind the head, in front of the others, and the rest of the circle is as
-- it was; the task is not in the circle before.
pub link_task-Circle :
    (s : Tasks) (head new_task : ℕ) (others : List ℕ)
    → Circle s head others
    → mem new_task (head ∷ others) ≡ false
    → Circle (link_task head new_task s) head (new_task ∷ others)
link_task-Circle s head new_task others ring fresh =
    let (first, later) = or_false (new_task == head) (mem new_task others) fresh in
    let apart = not_==→ne new_task head first in
    (
      (
        linked_head s head new_task others ring fresh,
        apart,
        behind others ring.0 (linked_new s head new_task others ring fresh)
            (linked_other s head new_task others ring fresh),
      ),
      (rw (ne→not_== head new_task (λ e. apart (sym e))) ring.1.0, (later, ring.1.1)),
    )
  where
    behind :
        (os : List ℕ)
        → Chain s head head os
        → (link_task head new_task s new_task).next ≡ (s head).next
        → ((x : ℕ) → mem x os ≡ true → (link_task head new_task s x).next ≡ (s x).next)
        → Chain (link_task head new_task s) head new_task os
    behind [] c same kept = same ∙ c
    behind (b ∷ more) c same kept =
        (same ∙ c.0, c.1, Chain-same s (link_task head new_task s) head b more kept c.2)
