-- ===== src/Tasks/Wake.antt =====
-- Waking a task of src/task.c by its id.
use my_kernel.Base.{
  ℕ, zero, suc, ◌<◌, ◌≡◌, ◌≢◌, ◌⊎◌, refl, ap, inl, inr, some, List, [], ◌∷◌, ◌++◌, length, All,
  arith, ==_iff, ne→not_==, ℕ_discrete,
}
use my_kernel.Tasks.{Tasks, put, Schedule, wake_loop, wake_task_by_id}
use my_kernel.Tasks.Circle.{Chain, Circle}

-- The first task of the list with the id runs; or none has the id, and nothing changes.
abbrev pub Woken : ℕ → Tasks → List ℕ → Tasks → Type 0
Woken task_id s circle after =
    ((before : List ℕ) × (a : ℕ) × (behind : List ℕ) × (circle ≡ before ++ a ∷ behind)
      × All (λ b. (s b).id ≢ task_id) before
      × ((s a).id ≡ task_id)
      × (after ≡ put s a (record (s a) { state = 0 })))
    ⊎ (All (λ b. (s b).id ≢ task_id) circle × (after ≡ s))

further :
    (task_id : ℕ) (s : Tasks) (a : ℕ) (more : List ℕ) (after : Tasks)
    → (s a).id ≢ task_id
    → Woken task_id s more after
    → Woken task_id s (a ∷ more) after
further task_id s a more after ne (inl (before, b, behind, parts, earlier, this, is)) =
    inl (a ∷ before, b, behind, ap (λ t. a ∷ t) parts, (ne, earlier), this, is)
further task_id s a more after ne (inr (others, is)) = inr ((ne, others), is)

wake_loop-Woken :
    (fuel task_id head a : ℕ) (more : List ℕ) (s : Tasks)
    → Chain s head a more
    → length more < fuel
    → (after : Tasks) × (wake_loop fuel task_id head a s ≡ some after)
      × Woken task_id s (a ∷ more) after
unfolding wake_loop
wake_loop-Woken zero task_id head a more s c enough = absurd (omega arith)
wake_loop-Woken (suc fuel) task_id head a [] s c enough = elim (ℕ_discrete (s a).id task_id) [
  | yes this ↦
      rw ((==_iff _ _).1 this)
        (put s a (record (s a) { state = 0 }), refl, inl ([], a, [], refl, tt, this, refl))
  | no ne ↦ rw (ne→not_== _ _ ne, (==_iff (s a).next head).1 c) (s, refl, inr ((ne, tt), refl))
]
wake_loop-Woken (suc fuel) task_id head a (b ∷ more) s c enough =
    let (after, ends, woken) = wake_loop-Woken fuel task_id head b more s c.2 (omega arith) in
    elim (ℕ_discrete (s a).id task_id) [
      | yes this ↦
          rw ((==_iff _ _).1 this) (
            put s a (record (s a) { state = 0 }),
            refl,
            inl ([], a, b ∷ more, refl, tt, this, refl),
          )
      | no ne ↦
          rw (ne→not_== _ _ ne, c.0, ne→not_== b head c.1)
            (after, ends, further task_id s a (b ∷ more) after ne woken)
    ]

-- Waking by an id, on a circle of tasks that is not empty and with a round of fuel for each of them,
-- returns: the first task of the circle with the id runs, and every other task is as it was; or no
-- task of the circle has the id, and nothing changes.
pub wake_task_by_id_lem :
    (fuel task_id : ℕ) (k : Schedule) (others : List ℕ)
    → k.ready_queue ≢ 0
    → Circle k.tasks k.ready_queue others
    → length others < fuel
    → (after : Tasks) × (wake_task_by_id fuel task_id k ≡ some after)
      × Woken task_id k.tasks (k.ready_queue ∷ others) after
unfolding wake_task_by_id
wake_task_by_id_lem fuel task_id k others some_task ring enough =
    rw (ne→not_== k.ready_queue 0 some_task)
      (wake_loop-Woken fuel task_id k.ready_queue k.ready_queue others k.tasks ring.0 enough)
