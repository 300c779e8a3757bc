-- ===== src/Tests/Processor.antt =====
-- Runs of the models of the tasks and the descriptors.
use my_kernel.Base.{
  ℕ, ◌+◌, ◌/◌, ◌%◌, ◌^◌, ◌≡◌, ◌≢◌, refl, ◌==◌, if◌then◌else◌, some, List, [], ◌∷◌, arith,
}
use my_kernel.Tasks.{Tasks, Schedule, timer_handler_main, wake_task_by_id, link_task}
use my_kernel.Tasks.Circle.{Circle, link_task-Circle}
use my_kernel.Tasks.Fields.{Ticked}
use my_kernel.Tasks.Tick.{timer_handler_main_lem}
use my_kernel.Tasks.Wake.{Woken, wake_task_by_id_lem}
use my_kernel.Descriptors.{Gdt, gdt_set_gate, Idt, idt_set_gate}
use my_kernel.Descriptors.Decode.{
  segment_base, segment_limit, segment_flags, handler_address, gdt_set_gate_lem, idt_set_gate_lem,
}

-- Task 0 at 100, and task 1 at 200, asleep for one tick.
abbrev two_tasks : Tasks
two_tasks a =
    if a == 100
    then record { id = 0; next = 200; state = 0; cpu_ticks = 5; sleep_ticks = 0 }
    else record { id = 1; next = 100; state = 1; cpu_ticks = 7; sleep_ticks = 1 }

abbrev schedule : Schedule
schedule = record {
  tasks = two_tasks;
  current_task = 100;
  ready_queue = 100;
  timer_ticks = 4294967295;
}

abbrev others : List ℕ
others = 200 ∷ []

two_tasks-Circle : Circle two_tasks 100 others
two_tasks-Circle = ((refl, omega arith, refl), (refl, (refl, tt)))

timer_handler_main_lem_example :
    (after : Schedule) × (timer_handler_main 2 schedule ≡ some after)
    × ((x : ℕ) → Ticked 100 (100 ∷ others) x (two_tasks x) (after.tasks x))
    × Circle after.tasks 100 others
    × (after.timer_ticks ≡ (4294967295 + 1) % 2 ^ 32)
timer_handler_main_lem_example =
    timer_handler_main_lem 2 schedule others (omega arith) two_tasks-Circle (omega arith)

wake_task_by_id_lem_example :
    (after : Tasks) × (wake_task_by_id 2 1 schedule ≡ some after)
    × Woken 1 two_tasks (100 ∷ others) after
wake_task_by_id_lem_example =
    wake_task_by_id_lem 2 1 schedule others (omega arith) two_tasks-Circle (omega arith)

link_task-Circle_example : Circle (link_task 100 300 two_tasks) 100 (300 ∷ others)
link_task-Circle_example = link_task-Circle two_tasks 100 300 others two_tasks-Circle refl

abbrev no_gates : Gdt
no_gates i = record {
  limit_low = 0;
  base_low = 0;
  base_middle = 0;
  access = 0;
  granularity = 0;
  base_high = 0;
}

gdt_set_gate_lem_example :
    let after = gdt_set_gate 5 0x12345678 0xFFFFFFFF 0x89 0x40 no_gates in
    (segment_base (after 5) ≡ 0x12345678)
    × (segment_limit (after 5) ≡ 0xFFFFFFFF % 2 ^ 20)
    × (segment_flags (after 5) ≡ 0x40 / 16)
    × ((after 5).access ≡ 0x89)
    × ((i : ℕ) → i ≢ 5 → after i ≡ no_gates i)
gdt_set_gate_lem_example =
    gdt_set_gate_lem 5 0x12345678 0xFFFFFFFF 0x89 0x40 no_gates (omega arith) (omega arith)

abbrev no_handlers : Idt
no_handlers i = record {
  offset_lowerbits = 0;
  selector = 0;
  zero_byte = 0;
  type_attr = 0;
  offset_higherbits = 0;
}

idt_set_gate_lem_example :
    let after = idt_set_gate 33 0x00101234 0x08 0x8E no_handlers in
    (handler_address (after 33) ≡ 0x00101234)
    × ((after 33).selector ≡ 0x08)
    × ((after 33).type_attr ≡ 0x8E)
    × ((after 33).zero_byte ≡ 0)
    × ((i : ℕ) → i ≢ 33 → after i ≡ no_handlers i)
idt_set_gate_lem_example = idt_set_gate_lem 33 0x00101234 0x08 0x8E no_handlers (omega arith)
