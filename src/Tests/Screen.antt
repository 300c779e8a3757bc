-- ===== src/Tests/Screen.antt =====
-- A run of the model of the screen.
use my_kernel.Base.{◌-◌, ◌^◌, true, false, List, [], ◌∷◌, arith}
use my_kernel.Graphics.{Settings, Screen, init_graphics}
use my_kernel.Graphics.Inside.{IsClipped}
use my_kernel.Graphics.Commands.{
  Command, run, Contained, run-Contained, init_graphics-IsClipped, rect, text, clip, swap,
}

abbrev unset : Settings
unset = record {
  framebuffer = false;
  back_buffer = false;
  screen_width = 0;
  screen_height = 0;
  clip_min_x = 0;
  clip_min_y = 0;
  clip_max_x = 0;
  clip_max_y = 0;
  dirty_min_x = 0;
  dirty_min_y = 0;
  dirty_max_x = 0;
  dirty_max_y = 0;
}

abbrev blank : Screen
blank = record { settings = init_graphics true 1024 768 unset; front = λ _. 0; back = λ _. 0 }

blank-IsClipped : IsClipped blank.settings
blank-IsClipped =
    init_graphics-IsClipped true 1024 768 unset (omega arith) (omega arith) (omega arith)
      (omega arith) (omega arith)

-- A rectangle that starts left of the screen, a text that leaves it on the right, and a clipping
-- rectangle that is larger than it.
abbrev drawing : List Command
drawing =
    rect (2 ^ 32 - 5) 10 20 20 7
    ∷ clip 1000 700 500 500
    ∷ text 1020 764 (b'O' ∷ b'K' ∷ []) 7 0
    ∷ swap
    ∷ []

run-Contained_example : Contained blank (run drawing blank)
run-Contained_example = run-Contained drawing blank blank-IsClipped
