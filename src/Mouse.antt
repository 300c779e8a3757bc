-- ===== src/Mouse.antt =====
-- The mouse of src/mouse.c: three bytes of a packet, and the position that a packet moves.
pub mod Screen
use my_kernel.Base.{
  ℕ, zero, suc, ◌+◌, ◌-◌, ◌%◌, ◌==◌, ltb, leb, if◌then◌else◌, Bool, true, false, not, ◌&&◌, ◌||◌,
  bit_and, List, [], ◌∷◌, set, get_or,
}

-- `mouse_x` and `mouse_y` are in the screen between packets.
pub record Mouse : Type 0 where
  pub mouse_x : ℕ
  pub mouse_y : ℕ
  pub mouse_left_button : ℕ
  pub mouse_cycle : ℕ
  pub mouse_byte : List ℕ

-- `d` is `byte`, or `byte - 256` where the sign is set and the byte is not 0: how far up and down.
abbrev pub go_up : ℕ → Bool → ℕ
go_up d negative = if not (d == 0) && negative then 0 else d

abbrev pub go_down : ℕ → Bool → ℕ
go_down d negative = if not (d == 0) && negative then 256 - d else 0

-- `v += up - down; if (v < 0) v = 0; if (v > last) v = last;`
unfoldable pub move : ℕ → ℕ → ℕ → ℕ → ℕ
move last up down v =
    let w = if ltb (v + up) down then 0 else v + up - down in if ltb last w then last else w

-- The last part of the handler, when the third byte is in.
unfoldable pub packet : Mouse → Mouse
unfolding move
packet m =
    let b0 = get_or m.mouse_byte 0 0 in
    let b1 = get_or m.mouse_byte 1 0 in
    let b2 = get_or m.mouse_byte 2 0 in
    if not (bit_and b0 0x80 == 0) || not (bit_and b0 0x40 == 0)
    then record m { mouse_cycle = 0 }
    else record m {
      mouse_cycle = 0;
      mouse_left_button = bit_and b0 0x01;
      mouse_x =
          move 1023 (go_up b1 (not (bit_and b0 0x10 == 0)))
            (go_down b1 (not (bit_and b0 0x10 == 0))) m.mouse_x;
      mouse_y =
          move 767 (go_down b2 (not (bit_and b0 0x20 == 0))) (go_up b2 (not (bit_and b0 0x20 == 0)))
            m.mouse_y;
    }

-- The handler, with the bytes of the ports 0x64 and 0x60.
unfoldable pub mouse_handler_main : ℕ → ℕ → Mouse → Mouse
unfolding packet
mouse_handler_main status byte m =
    if bit_and status 1 == 0
    then m
    else (if bit_and status 0x20 == 0
        then m
        else (let m' = record m {
          mouse_byte = set m.mouse_byte m.mouse_cycle byte;
          mouse_cycle = m.mouse_cycle + 1;
        } in
            if m.mouse_cycle + 1 == 3 then packet m' else m'))
