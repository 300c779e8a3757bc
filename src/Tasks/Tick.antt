-- ===== src/Tasks/Tick.antt =====
-- The timer's interrupt of src/timer.c on a circle of tasks.
use my_kernel.Base.{
  ℕ, zero, suc, ◌+◌, ◌%◌, ◌^◌, ◌<◌, ◌≡◌, ◌≢◌, refl, ap, sym, ◌∙◌, ◌==◌, if◌then◌else◌, true, false,
  some, List, [], ◌∷◌, length, arith, ==_iff, ne→not_==, ℕ_discrete, subst, Bool-cases, inl, inr,
}
use my_kernel.Tasks.{Task, Tasks, put, Schedule, tick_task, tick_loop, charge, timer_handler_main}
use my_kernel.Tasks.Circle.{mem, Chain, Distinct, Circle, put_here, put_other, Chain-same}
use my_kernel.Tasks.Fields.{Ticked, tick_task_lem, charge_lem, Counted-from, Charged-same}

next-put : (s : Tasks) (a x : ℕ) (t : Task) → t.next ≡ (s a).next → (put s a t x).next ≡ (s x).next
next-put s a x t same = elim (ℕ_discrete x a) [
  | yes here ↦ rw ((==_iff x a).1 here) (same ∙ ap (λ y. (s y).next) (sym here))
  | no other ↦ rw (ne→not_== x a other) refl
]

-- Every task of the list has gone through the handler's loop, and no other has changed.
abbrev Ran : Tasks → List ℕ → Tasks → Type 0
Ran s circle after = (x : ℕ) → after x ≡ (if mem x circle then tick_task (s x) else s x)

tick_loop-Ran :
    (fuel head a : ℕ) (more : List ℕ) (s : Tasks)
    → Chain s head a more
    → Distinct (a ∷ more)
    → length more < fuel
    → (after : Tasks) × (tick_loop fuel head a s ≡ some after) × Ran s (a ∷ more) after
unfolding tick_loop
tick_loop-Ran zero head a more s c d enough = absurd (omega arith)
tick_loop-Ran (suc fuel) head a more s c d enough =
    let s' = put s a (tick_task (s a)) in
    let links : (x : ℕ) → (s' x).next ≡ (s x).next =
      λ x. next-put s a x (tick_task (s a)) (tick_task_lem (s a)).1 in
    step (λ b m t c d e. tick_loop-Ran fuel head b m t c d e) more c d enough s' links
      (put_here s a (tick_task (s a))) (put_other s a (tick_task (s a))) refl
  where
    step :
        ((b : ℕ) (m : List ℕ) (t : Tasks)
          → Chain t head b m
          → Distinct (b ∷ m)
          → length m < fuel
          → (after : Tasks) × (tick_loop fuel head b t ≡ some after) × Ran t (b ∷ m) after)
        → (more : List ℕ) → Chain s head a more
        → Distinct (a ∷ more)
        → length more < suc fuel
        → (s' : Tasks) → ((x : ℕ) → (s' x).next ≡ (s x).next)
        → s' a ≡ tick_task (s a)
        → ((x : ℕ) → x ≢ a → s' x ≡ s x)
        → s' ≡ put s a (tick_task (s a))
        → (after : Tasks) × ((if (s' a).next == head
              then some s'
              else tick_loop fuel head (s' a).next s')
            ≡ some after)
          × Ran s (a ∷ more) after
    step again [] c d enough s' links here other is =
        let last : ((s' a).next == head) ≡ true = (==_iff _ _).1 (links a ∙ c) in
        rw last (
          s',
          refl,
          λ x. elim (ℕ_discrete x a) [
            | yes e ↦ rw ((==_iff x a).1 e) (ap s' e ∙ here ∙ ap (λ y. tick_task (s y)) (sym e))
            | no ne ↦ rw (ne→not_== x a ne) (other x ne)
          ],
        )
    step again (b ∷ more) c d enough s' links here other is =
        let link : (s' a).next ≡ b = links a ∙ c.0 in
        let on : (b == head) ≡ false = ne→not_== b head c.1 in
        let (after, ends, ticked) =
          again b more s' (Chain-same s s' head b more (λ x e. links x) c.2) d.1 (omega arith) in
        rw (link, on)
          (
            after,
            ends,
            λ x. elim (ℕ_discrete x a) [
              | yes e ↦
                  let out : mem x (b ∷ more) ≡ false = ap (λ y. mem y (b ∷ more)) e ∙ d.0 in
                  ticked x
                  ∙ rw ((==_iff x a).1 e, out) (ap s' e ∙ here ∙ ap (λ y. tick_task (s y)) (sym e))
              | no ne ↦ ticked x ∙ rw (ne→not_== x a ne, other x ne) refl
            ],
          )

Ran-Ticked :
    (current : ℕ) (s : Tasks) (circle : List ℕ) (after : Tasks) (x : ℕ)
    → Ran (charge current s) circle after
    → Ticked current circle x (s x) (after x)
Ran-Ticked current s circle after x ran =
    let (i, n, c, a, b) = charge_lem current s x in
    elim (Bool-cases (mem x circle)) [
      | inl inside ↦
          let is : after x ≡ tick_task (charge current s x) = ran x ∙ rw inside refl in
          let (j, m, d, counted) = tick_task_lem (charge current s x) in
          subst (Ticked current circle x (s x)) (sym is) (
            j ∙ i,
            m ∙ n,
            Charged-same current x (s x) (charge current s x) (tick_task (charge current s x)) d c,
            inl (
              inside,
              Counted-from (s x) (charge current s x) (tick_task (charge current s x)) a b counted,
            ),
          )
      | inr out ↦
          let is : after x ≡ charge current s x = ran x ∙ rw out refl in
          subst (Ticked current circle x (s x)) (sym is) (i, n, c, inr (out, a, b))
    ]

-- A timer interrupt, on a circle of tasks that is not empty and with a round of fuel for each of
-- them, returns. Each task of the circle that sleeps (state 1, and ticks left) has one tick less to
-- sleep, and state 0 instead of 1 when none is left; the running task, when there is one, has run one
-- tick more, modulo 2^32. All other fields of all tasks and the circle are as they were, and the
-- count of ticks has gone up by one, modulo 2^32.
pub timer_handler_main_lem :
    (fuel : ℕ) (k : Schedule) (others : List ℕ)
    → k.ready_queue ≢ 0
    → Circle k.tasks k.ready_queue others
    → length others < fuel
    → (after : Schedule) × (timer_handler_main fuel k ≡ some after)
      × ((x : ℕ) → Ticked k.current_task (k.ready_queue ∷ others) x (k.tasks x) (after.tasks x))
      × Circle after.tasks k.ready_queue others
      × (after.timer_ticks ≡ (k.timer_ticks + 1) % 2 ^ 32)
unfolding timer_handler_main
timer_handler_main_lem fuel k others some_task ring enough =
    let s = charge k.current_task k.tasks in
    let head = k.ready_queue in
    let chain =
      Chain-same k.tasks s head head others (λ x e. (charge_lem k.current_task k.tasks x).1)
        ring.0 in
    let (t, ends, ran) = tick_loop-Ran fuel head head others s chain ring.1 enough in
    let ticked : (x : ℕ) → Ticked k.current_task (head ∷ others) x (k.tasks x) (t x) =
      λ x. Ran-Ticked k.current_task k.tasks (head ∷ others) t x ran in
    rw (ne→not_== head 0 some_task, ends)
      (
        record k { tasks = t; timer_ticks = (k.timer_ticks + 1) % 2 ^ 32 },
        refl,
        ticked,
        (Chain-same k.tasks t head head others (λ x e. (ticked x).1) ring.0, ring.1),
        refl,
      )
