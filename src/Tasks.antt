-- ===== src/Tasks.antt =====
-- The circle of tasks of src/task.c and src/timer.c: the timer's interrupt, waking a task, and the
-- place of a new one. The store gives the task at each address.
pub mod Circle
pub mod Fields
pub mod Tick
pub mod Wake
use my_kernel.Base.{
  ℕ, zero, suc, ◌+◌, ◌-◌, ◌%◌, ◌^◌, ◌==◌, ltb, if◌then◌else◌, Bool, true, false, ◌&&◌, Option, none,
  some,
}

-- The fields of `task_t` that the code here uses.
pub record Task : Type 0 where
  pub id : ℕ
  pub next : ℕ
  pub state : ℕ
  pub cpu_ticks : ℕ
  pub sleep_ticks : ℕ

abbrev pub Tasks : Type 0
Tasks = ℕ → Task

abbrev pub put : Tasks → ℕ → Task → Tasks
put s a t p = if p == a then t else s p

-- `current_task`, `ready_queue` and `timer_ticks` with the tasks.
pub record Schedule : Type 0 where
  pub tasks : Tasks
  pub current_task : ℕ
  pub ready_queue : ℕ
  pub timer_ticks : ℕ

-- A sleeping task counts down, and runs again at 0.
unfoldable pub tick_task : Task → Task
tick_task t =
    if t.state == 1 && ltb 0 t.sleep_ticks
    then (if t.sleep_ticks - 1 == 0
        then record t { sleep_ticks = t.sleep_ticks - 1; state = 0 }
        else record t { sleep_ticks = t.sleep_ticks - 1 })
    else t

-- `do { ... curr = curr->next; } while (curr != ready_queue)`
unfoldable pub tick_loop : ℕ → ℕ → ℕ → Tasks → Option Tasks
tick_loop zero head curr s = none
tick_loop (suc fuel) head curr s =
    let s' = put s curr (tick_task (s curr)) in
    let rest = tick_loop fuel head (s' curr).next s' in
    if (s' curr).next == head then some s' else rest

-- `if (current_task != 0) current_task->cpu_ticks++;`
unfoldable pub charge : ℕ → Tasks → Tasks
charge current s =
    if current == 0
    then s
    else put s current (record (s current) { cpu_ticks = ((s current).cpu_ticks + 1) % 2 ^ 32 })

-- The handler, with fuel for the circle.
unfoldable pub timer_handler_main : ℕ → Schedule → Option Schedule
timer_handler_main fuel k =
    let s = charge k.current_task k.tasks in
    let ticks = (k.timer_ticks + 1) % 2 ^ 32 in
    if k.ready_queue == 0
    then some (record k { tasks = s; timer_ticks = ticks })
    else elim (tick_loop fuel k.ready_queue k.ready_queue s) [
      | none ↦ none
      | some t ↦ some (record k { tasks = t; timer_ticks = ticks })
    ]

-- `do { if (curr->id == task_id) { curr->state = 0; return; } ... } while (curr != ready_queue)`
unfoldable pub wake_loop : ℕ → ℕ → ℕ → ℕ → Tasks → Option Tasks
wake_loop zero task_id head curr s = none
wake_loop (suc fuel) task_id head curr s =
    let rest = wake_loop fuel task_id head (s curr).next s in
    if (s curr).id == task_id
    then some (put s curr (record (s curr) { state = 0 }))
    else (if (s curr).next == head then some s else rest)

unfoldable pub wake_task_by_id : ℕ → ℕ → Schedule → Option Tasks
wake_task_by_id fuel task_id k =
    if k.ready_queue == 0
    then some k.tasks
    else wake_loop fuel task_id k.ready_queue k.ready_queue k.tasks

-- The end of create_task: `new_task->next = ready_queue->next; ready_queue->next = new_task;`
unfoldable pub link_task : ℕ → ℕ → Tasks → Tasks
link_task ready_queue new_task s =
    let s' = put s new_task (record (s new_task) { next = (s ready_queue).next }) in
    put s' ready_queue (record (s' ready_queue) { next = new_task })
