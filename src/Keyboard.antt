-- ===== src/Keyboard.antt =====
-- The keyboard of src/keyboard.c: the scan code tables, the interrupt handler and its ring.
pub mod Ring
use my_kernel.Base.{
  ℕ, zero, suc, ◌+◌, ◌-◌, ◌%◌, ◌==◌, if◌then◌else◌, Bool, true, false, not, ◌&&◌, ◌||◌, bit_and,
  List, [], ◌∷◌, set, get_or,
}

pub record Keyboard : Type 0 where
  pub buffer : List ℕ
  pub head : ℕ
  pub tail : ℕ
  pub shift_pressed : Bool
  pub ctrl_pressed : Bool

-- `kbd_us`, up to its last entry that is not 0.
abbrev pub kbd_us : List ℕ
kbd_us =
    0 ∷ 27 ∷ b'1' ∷ b'2' ∷ b'3' ∷ b'4' ∷ b'5' ∷ b'6' ∷ b'7' ∷ b'8' ∷ b'9' ∷ b'0' ∷ b'-' ∷ b'=' ∷ 8
    ∷ 9 ∷ b'q' ∷ b'w' ∷ b'e' ∷ b'r' ∷ b't' ∷ b'y' ∷ b'u' ∷ b'i' ∷ b'o' ∷ b'p' ∷ b'[' ∷ b']' ∷ 10 ∷ 0
    ∷ b'a' ∷ b's' ∷ b'd' ∷ b'f' ∷ b'g' ∷ b'h' ∷ b'j' ∷ b'k' ∷ b'l' ∷ b';' ∷ 39 ∷ b'`' ∷ 0 ∷ 92
    ∷ b'z' ∷ b'x' ∷ b'c' ∷ b'v' ∷ b'b' ∷ b'n' ∷ b'm' ∷ b',' ∷ b'.' ∷ b'/' ∷ 0 ∷ b'*' ∷ 0 ∷ b' ' ∷ 0
    ∷ 0 ∷ 0 ∷ 0 ∷ 0 ∷ 0 ∷ 0 ∷ 0 ∷ 0 ∷ 0 ∷ 0 ∷ 0 ∷ 0 ∷ 0 ∷ 0 ∷ 0 ∷ b'-' ∷ 0 ∷ 0 ∷ 0 ∷ b'+' ∷ []

-- `kbd_us_shifted`, up to its last entry that is not 0.
abbrev pub kbd_us_shifted : List ℕ
kbd_us_shifted =
    0 ∷ 27 ∷ b'!' ∷ b'@' ∷ b'#' ∷ b'$' ∷ b'%' ∷ b'^' ∷ b'&' ∷ b'*' ∷ b'(' ∷ b')' ∷ b'_' ∷ b'+' ∷ 8
    ∷ 9 ∷ b'Q' ∷ b'W' ∷ b'E' ∷ b'R' ∷ b'T' ∷ b'Y' ∷ b'U' ∷ b'I' ∷ b'O' ∷ b'P' ∷ b'{' ∷ b'}' ∷ 10 ∷ 0
    ∷ b'A' ∷ b'S' ∷ b'D' ∷ b'F' ∷ b'G' ∷ b'H' ∷ b'J' ∷ b'K' ∷ b'L' ∷ b':' ∷ 34 ∷ b'~' ∷ 0 ∷ b'|'
    ∷ b'Z' ∷ b'X' ∷ b'C' ∷ b'V' ∷ b'B' ∷ b'N' ∷ b'M' ∷ b'<' ∷ b'>' ∷ b'?' ∷ 0 ∷ b'*' ∷ 0 ∷ b' ' ∷ 0
    ∷ 0 ∷ 0 ∷ 0 ∷ 0 ∷ 0 ∷ 0 ∷ 0 ∷ 0 ∷ 0 ∷ 0 ∷ 0 ∷ 0 ∷ 0 ∷ 0 ∷ 0 ∷ b'-' ∷ 0 ∷ 0 ∷ 0 ∷ b'+' ∷ []

-- The arrow keys, which the tests on codes of released keys leave alone.
abbrev pub is_arrow : ℕ → Bool
is_arrow scancode = scancode == 0x48 || scancode == 0x50

-- The character of a key; the entries behind a table's list are 0.
unfoldable pub char_of : ℕ → Keyboard → ℕ
char_of scancode k =
    if scancode == 0x48
    then 17
    else (if scancode == 0x50
        then 18
        else (if k.ctrl_pressed && scancode == 0x2E
            then 3
            else (if k.ctrl_pressed && scancode == 0x2F
                then 22
                else (if k.shift_pressed
                    then get_or kbd_us_shifted scancode 0
                    else get_or kbd_us scancode 0))))

-- `if (c != 0) { int next_head = (kbd_head + 1) % BUFFER_SIZE; ... }`
unfoldable pub push : ℕ → Keyboard → Keyboard
push c k =
    if c == 0
    then k
    else (if (k.head + 1) % 256 == k.tail
        then k
        else record k { buffer = set k.buffer k.head c; head = (k.head + 1) % 256 })

-- The handler, with the bytes of the ports 0x64 and 0x60.
unfoldable pub keyboard_handler_main : ℕ → ℕ → Keyboard → Keyboard
keyboard_handler_main status scancode k =
    if bit_and status 0x01 == 0
    then k
    else (if not (is_arrow scancode) && (scancode == 0xAA || scancode == 0xB6)
        then record k { shift_pressed = false }
        else (if not (is_arrow scancode) && scancode == 0x9D
            then record k { ctrl_pressed = false }
            else (if scancode == 0x2A || scancode == 0x36
                then record k { shift_pressed = true }
                else (if scancode == 0x1D
                    then record k { ctrl_pressed = true }
                    else (if not (is_arrow scancode) && not (bit_and scancode 0x80 == 0)
                        then k
                        else push (char_of scancode k) k)))))

unfoldable pub get_keyboard_char : Keyboard → ℕ × Keyboard
get_keyboard_char k =
    if k.head == k.tail
    then (0, k)
    else (get_or k.buffer k.tail 0, record k { tail = (k.tail + 1) % 256 })
