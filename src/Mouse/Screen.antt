-- ===== src/Mouse/Screen.antt =====
-- The position of src/mouse.c stays on the screen, and the packet's bytes in their array.
use my_kernel.Base.{
  ℕ, ◌+◌, ◌-◌, ◌<◌, ◌≤◌, ◌≡◌, ◌⊎◌, refl, ◌∙◌, ◌==◌, not, ◌||◌, Bool-cases, inl, inr, bit_and,
  length, set, get_or, length-set, arith, ==_iff, ne→not_==, ℕ_discrete, dec_lt, lt→ltb, le→not_ltb,
}
use my_kernel.Mouse.{Mouse, go_up, go_down, move, packet, mouse_handler_main}

-- The pointer is on the screen, and the next byte has its place.
pub record IsValid (m : Mouse) : Type 0 where
  pub x_in : m.mouse_x < 1024
  pub y_in : m.mouse_y < 768
  pub place : m.mouse_cycle < 3
  pub bytes : length m.mouse_byte ≡ 3

-- A moved coordinate is the sum where that is in the range, and else the end of the range that it
-- passed.
pub move_lem :
    (last up down v : ℕ)
    → (move last up down v ≤ last)
      × (((v + up < down) × (move last up down v ≡ 0))
          ⊎ (((down ≤ v + up) × (v + up ≤ last + down) × (move last up down v + down ≡ v + up))
              ⊎ ((last + down < v + up) × (move last up down v ≡ last))))
unfolding move
move_lem last up down v = elim (dec_lt (v + up) down) [
  | yes below ↦
      rw (lt→ltb _ _ below, le→not_ltb last 0 (omega arith)) (omega arith, inl (below, refl))
  | no in_range ↦ elim (dec_lt last (v + up - down)) [
    | yes above ↦
        rw (le→not_ltb (v + up) down (omega arith), lt→ltb _ _ above)
          (omega arith, inr (inr (omega arith, refl)))
    | no inside ↦
        rw (le→not_ltb (v + up) down (omega arith), le→not_ltb last (v + up - down) (omega arith))
          (omega arith, inr (inl (omega arith, omega arith, omega arith)))
  ]
]

packet-IsValid :
    (m : Mouse) → m.mouse_x < 1024 → m.mouse_y < 768 → length m.mouse_byte ≡ 3 → IsValid (packet m)
unfolding packet
packet-IsValid m x_in y_in bytes =
    elim (Bool-cases (
      not (bit_and (get_or m.mouse_byte 0 0) 0x80 == 0)
      || not (bit_and (get_or m.mouse_byte 0 0) 0x40 == 0))) [
        | inl overflow ↦
            rw overflow (record { x_in = x_in; y_in = y_in; place = omega arith; bytes = bytes })
        | inr good ↦
            let b0 = get_or m.mouse_byte 0 0 in
            let b1 = get_or m.mouse_byte 1 0 in
            let b2 = get_or m.mouse_byte 2 0 in
            rw good (record {
              x_in = omega (
                arith,
                (move_lem 1023 (go_up b1 (not (bit_and b0 0x10 == 0)))
                    (go_down b1 (not (bit_and b0 0x10 == 0))) m.mouse_x).0,
              );
              y_in = omega (
                arith,
                (move_lem 767 (go_down b2 (not (bit_and b0 0x20 == 0)))
                    (go_up b2 (not (bit_and b0 0x20 == 0))) m.mouse_y).0,
              );
              place = omega arith;
              bytes = bytes;
            })
      ]

-- Whatever the controller delivers, the pointer stays on the screen of 1024 by 768 and the packet's
-- bytes stay in their array.
pub mouse_handler_main-IsValid :
    (status byte : ℕ) (m : Mouse) → IsValid m → IsValid (mouse_handler_main status byte m)
unfolding mouse_handler_main
mouse_handler_main-IsValid status byte m v = elim (Bool-cases (bit_and status 1 == 0)) [
  | inl empty ↦ rw empty v
  | inr full ↦ elim (Bool-cases (bit_and status 0x20 == 0)) [
    | inl keyboard ↦ rw (full, keyboard) v
    | inr mouse ↦ elim (ℕ_discrete (m.mouse_cycle + 1) 3) [
      | yes last ↦
          rw (full, mouse, (==_iff _ _).1 last)
            (packet-IsValid
              (record m {
                mouse_byte = set m.mouse_byte m.mouse_cycle byte;
                mouse_cycle = m.mouse_cycle + 1;
              })
              v.x_in v.y_in (length-set m.mouse_byte m.mouse_cycle byte ∙ v.bytes))
      | no more ↦
          rw (full, mouse, ne→not_== _ _ more)
            (record {
              x_in = v.x_in;
              y_in = v.y_in;
              place = omega (arith, v.place);
              bytes = length-set m.mouse_byte m.mouse_cycle byte ∙ v.bytes;
            })
    ]
  ]
]
