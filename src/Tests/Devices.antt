-- ===== src/Tests/Devices.antt =====
-- Runs of the models of the pipes, the keyboard and the mouse.
use my_kernel.Base.{
  ℕ, zero, suc, ◌<◌, ◌≡◌, ◌≢◌, ◌↔◌, refl, true, false, inl, inr, none, some, List, [], ◌∷◌, ◌++◌,
  All, replicate, length-replicate, arith,
}
use my_kernel.Pipe.{Pipe, closed, find_named, open_pipe, create, start, named, name_from}
use my_kernel.Text.{strncmp}
use my_kernel.Pipe.Pool.{IsOther, open_pipe-again, open_pipe-none_iff}
use my_kernel.Pipe.Ring as PipeRing
use my_kernel.Pipe.Ring.{contents, Wrote, write-Wrote, Taken, read-Taken}
use my_kernel.Pipe.Stream.{Op, send, receive, session, session-fifo}
use my_kernel.Keyboard.{Keyboard, keyboard_handler_main}
use my_kernel.Keyboard.Ring as KeyRing
use my_kernel.Keyboard.Ring.{
  waiting, char_at, Handled, keyboard_handler_main_lem, get_keyboard_char_lem,
}
use my_kernel.Mouse.{Mouse, mouse_handler_main}
use my_kernel.Mouse.Screen as Screen
use my_kernel.Mouse.Screen.{move_lem, mouse_handler_main-IsValid}

-- A pipe that wraps: two bytes wait, one at each end of the buffer.
abbrev wrapped : Pipe
wrapped = record closed { active = true; head = 1; tail = 511; count = 2 }

wrapped-IsValid : PipeRing.IsValid wrapped
wrapped-IsValid = record {
  storage = length-replicate {A = ℕ} 512 0;
  tail_in = omega arith;
  count_in = omega arith;
  head_at = refl;
}

abbrev calls : List Op
calls = send (7 ∷ 8 ∷ []) ∷ receive 3 ∷ []

session-fifo_example :
    ((session calls wrapped).received ++ contents (session calls wrapped).final
      ≡ contents wrapped ++ (session calls wrapped).accepted)
    × PipeRing.IsValid (session calls wrapped).final
session-fifo_example = session-fifo calls wrapped wrapped-IsValid

abbrev log_name : List ℕ
log_name = b'L' ∷ b'O' ∷ b'G' ∷ 0 ∷ []

abbrev pool : List Pipe
pool = wrapped ∷ closed ∷ []

open_pipe-again_example :
    open_pipe log_name (wrapped ∷ start log_name closed ∷ [])
    ≡ some (1, wrapped ∷ start log_name closed ∷ [])
unfolding open_pipe find_named create start named name_from strncmp
open_pipe-again_example =
    open_pipe-again log_name pool (inr (inr (inr (inl refl)))) (refl, (refl, tt)) refl

open_pipe-none_iff_example : (open_pipe log_name pool ≡ none) ↔ All (IsOther log_name) pool
open_pipe-none_iff_example = open_pipe-none_iff log_name pool

-- One character waits.
abbrev typed : Keyboard
typed = record {
  buffer = b'a' ∷ replicate 255 0;
  head = 1;
  tail = 0;
  shift_pressed = true;
  ctrl_pressed = false;
}

typed-IsValid : KeyRing.IsValid typed
typed-IsValid = record {
  storage = omega (arith, length-replicate {A = ℕ} 255 0);
  head_in = omega arith;
  tail_in = omega arith;
  chars = chars;
}
  where
    chars : (i : ℕ) → i < waiting typed → char_at typed i ≢ 0
    chars zero lt e = omega arith
    chars (suc i) lt e = omega arith

keyboard_handler_main_lem_example :
    KeyRing.IsValid (keyboard_handler_main 1 0x1E typed)
    × Handled 1 0x1E typed (keyboard_handler_main 1 0x1E typed)
keyboard_handler_main_lem_example = keyboard_handler_main_lem 1 0x1E typed typed-IsValid

-- Two bytes of a packet are in: the left button, and twelve steps to the left.
abbrev moving : Mouse
moving = record {
  mouse_x = 5;
  mouse_y = 384;
  mouse_left_button = 0;
  mouse_cycle = 2;
  mouse_byte = 0x19 ∷ 244 ∷ 0 ∷ [];
}

moving-IsValid : Screen.IsValid moving
moving-IsValid = record {
  x_in = omega arith;
  y_in = omega arith;
  place = omega arith;
  bytes = refl;
}

mouse_handler_main-IsValid_example : Screen.IsValid (mouse_handler_main 0x21 3 moving)
mouse_handler_main-IsValid_example = mouse_handler_main-IsValid 0x21 3 moving moving-IsValid
