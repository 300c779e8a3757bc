-- ===== src/Abi.antt =====
-- The system calls: the router of src/idt.c, syscall_handler_main, and the calls of the services that
-- other parts have.
pub mod Services
pub mod Actions
pub mod Router
pub mod Requests
pub mod Numbers
pub mod Clipboard
pub mod Safety
pub mod Shared
use my_kernel.Base.{
  ℕ, zero, suc, ◌+◌, ◌-◌, ◌*◌, ◌/◌, ◌%◌, ◌^◌, ◌==◌, ltb, leb, if◌then◌else◌, Bool, true, false, not,
  ◌&&◌, ◌||◌, bit_and, Option, none, some, List, [], ◌∷◌, ◌++◌, length, get_or, set, drop, reverse,
}
use my_kernel.Gui.{Kernel}

-- The registers at `int $0x80`: EAX, EBX, ECX, EDX, ESI, EDI.
pub record Call : Type 0 where
  pub sys_num : ℕ
  pub arg1 : ℕ
  pub arg2 : ℕ
  pub arg3 : ℕ
  pub arg4 : ℕ
  pub arg5 : ℕ

-- What the router calls of the drivers, the files, the heap and the tasks, with the arguments.
pub data Service : Type 0 where
  put_pixel : ℕ → ℕ → ℕ → Service
  draw_rect : ℕ → ℕ → ℕ → ℕ → ℕ → Service
  draw_string : ℕ → ℕ → ℕ → ℕ → ℕ → Service
  yield : Service
  ardaos_write_file : ℕ → ℕ → ℕ → ℕ → Service
  vfs_open : ℕ → ℕ → Service
  get_shared_memory : Service
  vfs_read : ℕ → ℕ → ℕ → Service
  vfs_close : ℕ → Service
  vfs_write : ℕ → ℕ → ℕ → Service
  malloc : ℕ → Service
  free : ℕ → Service
  exec_app : ℕ → ℕ → Service
  get_process_list : ℕ → Service
  ardaos_delete_file : ℕ → ℕ → Service
  ardaos_create_dir : ℕ → Service
  ardaos_list_files : ℕ → Service
  beep : Service
  play_sound : ℕ → Service
  sleep : ℕ → Service
  nosound : Service
  send_arp : Service
  send_ping : Service
  sbrk : ℕ → Service
  vfs_list_dir : ℕ → ℕ → Service
  sleep_task : ℕ → Service

-- The result in EAX, and the state behind the call.
abbrev pub Handler : Type 0
Handler = Kernel → ℕ × Kernel

-- The other parts: what each service of theirs does.
abbrev pub Parts : Type 0
Parts = Service → Handler

-- `f(); return 1;`
abbrev pub done : (Kernel → Kernel) → Handler
done f k = (1, f k)

-- The effect of a service whose result the router drops.
abbrev pub effect : Parts → Service → Kernel → Kernel
effect parts s k = (parts s k).1

-- `if (sys_num == n) { ... } else if ...`
unfoldable pub dispatch : ℕ → List (ℕ × Handler) → Handler → Handler
dispatch sys_num [] otherwise = otherwise
dispatch sys_num ((n, handler) ∷ branches) otherwise =
    let rest = dispatch sys_num branches otherwise in if sys_num == n then handler else rest
