-- ===== src/Tasks/Fields.antt =====
-- What one timer interrupt of src/timer.c does to the fields of a task.
use my_kernel.Base.{
  ℕ, ◌+◌, ◌-◌, ◌%◌, ◌^◌, ◌<◌, ◌≡◌, ◌≢◌, refl, ap, sym, ◌∙◌, ltb, true, false, List, arith, ==_iff,
  ne→not_==, ℕ_discrete, Bool-cases, inl, inr, ltb→lt, not_ltb→le, ◌⊎◌,
}
use my_kernel.Tasks.{Task, Tasks, tick_task, charge}
use my_kernel.Tasks.Circle.{mem}

-- What a tick does to a task that may sleep: it has one tick less to sleep, and is ready at 0 and
-- asleep before; or it does not sleep, and stays as it is.
abbrev pub Counted : Task → Task → Type 0
Counted t u =
    ((t.state ≡ 1)
      × (u.sleep_ticks + 1 ≡ t.sleep_ticks)
      × (((u.sleep_ticks ≡ 0) × (u.state ≡ 0)) ⊎ ((0 < u.sleep_ticks) × (u.state ≡ 1))))
    ⊎ (((t.state ≢ 1) ⊎ (t.sleep_ticks ≡ 0))
        × (u.state ≡ t.state)
        × (u.sleep_ticks ≡ t.sleep_ticks))

-- The ticks a task has run: one more for the running one, modulo 2^32, and no more for another.
abbrev pub Charged : ℕ → ℕ → Task → Task → Type 0
Charged current x t u =
    ((x ≡ current) × (current ≢ 0) × (u.cpu_ticks ≡ (t.cpu_ticks + 1) % 2 ^ 32))
    ⊎ (((x ≢ current) ⊎ (current ≡ 0)) × (u.cpu_ticks ≡ t.cpu_ticks))

-- What a tick does to the task at `x`.
abbrev pub Ticked : ℕ → List ℕ → ℕ → Task → Task → Type 0
Ticked current circle x t u =
    (u.id ≡ t.id)
    × (u.next ≡ t.next)
    × Charged current x t u
    × (((mem x circle ≡ true) × Counted t u)
        ⊎ ((mem x circle ≡ false) × (u.state ≡ t.state) × (u.sleep_ticks ≡ t.sleep_ticks)))

-- The fields that the loop leaves, and the two that it may change.
pub tick_task_lem :
    (t : Task)
    → ((tick_task t).id ≡ t.id)
      × ((tick_task t).next ≡ t.next)
      × ((tick_task t).cpu_ticks ≡ t.cpu_ticks)
      × Counted t (tick_task t)
unfolding tick_task
tick_task_lem t = elim (ℕ_discrete t.state 1) [
  | no awake ↦
      rw (tick_task, ne→not_== t.state 1 awake) (refl, refl, refl, inr (inl awake, refl, refl))
  | yes asleep ↦ elim (Bool-cases (ltb 0 t.sleep_ticks)) [
    | inr none_left ↦
        rw (tick_task, (==_iff t.state 1).1 asleep, none_left)
          (
            refl,
            refl,
            refl,
            inr (inr (let le = not_ltb→le 0 t.sleep_ticks none_left in omega arith), refl, refl),
          )
    | inl some_left ↦
        let lt = ltb→lt 0 t.sleep_ticks some_left in
        elim (ℕ_discrete (t.sleep_ticks - 1) 0) [
          | yes last ↦
              rw
                (
                  tick_task,
                  (==_iff t.state 1).1 asleep,
                  some_left,
                  (==_iff (t.sleep_ticks - 1) 0).1 last,
                )
                (refl, refl, refl, inl (asleep, omega arith, inl (last, refl)))
          | no more ↦
              rw
                (
                  tick_task,
                  (==_iff t.state 1).1 asleep,
                  some_left,
                  ne→not_== (t.sleep_ticks - 1) 0 more,
                )
                (refl, refl, refl, inl (asleep, omega arith, inr (omega arith, asleep)))
        ]
  ]
]

-- The charge changes a count of ticks and nothing else.
pub charge_lem :
    (current : ℕ) (s : Tasks) (x : ℕ)
    → ((charge current s x).id ≡ (s x).id)
      × ((charge current s x).next ≡ (s x).next)
      × Charged current x (s x) (charge current s x)
      × ((charge current s x).state ≡ (s x).state)
      × ((charge current s x).sleep_ticks ≡ (s x).sleep_ticks)
unfolding charge
charge_lem current s x = elim (ℕ_discrete current 0) [
  | yes idle ↦ rw (charge, (==_iff current 0).1 idle) (refl, refl, inr (inr idle, refl), refl, refl)
  | no runs ↦ elim (ℕ_discrete x current) [
    | yes e ↦
        let same = ap s e in
        rw (charge, ne→not_== current 0 runs, (==_iff x current).1 e)
          (
            ap (λ (t : Task). t.id) (sym same),
            ap (λ (t : Task). t.next) (sym same),
            inl (e, runs, ap (λ (t : Task). (t.cpu_ticks + 1) % 2 ^ 32) (sym same)),
            ap (λ (t : Task). t.state) (sym same),
            ap (λ (t : Task). t.sleep_ticks) (sym same),
          )
    | no ne ↦
        rw (charge, ne→not_== current 0 runs, ne→not_== x current ne)
          (refl, refl, inr (inl ne, refl), refl, refl)
  ]
]

pub Counted-from :
    (t s u : Task) → s.state ≡ t.state → s.sleep_ticks ≡ t.sleep_ticks → Counted s u → Counted t u
Counted-from t s u a b (inl (asleep, less, now)) = inl (sym a ∙ asleep, less ∙ b, now)
Counted-from t s u a b (inr (inl awake, c, d)) = inr (inl (λ e. awake (a ∙ e)), c ∙ a, d ∙ b)
Counted-from t s u a b (inr (inr rest, c, d)) = inr (inr (sym b ∙ rest), c ∙ a, d ∙ b)

pub Charged-same :
    (current x : ℕ) (t s u : Task)
    → u.cpu_ticks ≡ s.cpu_ticks
    → Charged current x t s
    → Charged current x t u
Charged-same current x t s u e (inl (here, runs, c)) = inl (here, runs, e ∙ c)
Charged-same current x t s u e (inr (other, c)) = inr (other, e ∙ c)
