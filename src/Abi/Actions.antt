-- ===== src/Abi/Actions.antt =====
-- API 29 of src/idt.c: beeps and a melody, the network, the background, and three texts.
use my_kernel.Base.{
  ℕ, ◌/◌, ◌==◌, if◌then◌else◌, true, not, none, some, List, [], ◌∷◌, ◌++◌, ◌+◌, length, reverse,
}
use my_kernel.Text.{itoa_digits}
use my_kernel.Gui.{Kernel, real, store_bytes}
use my_kernel.Abi.{Service, Parts, effect, play_sound, sleep, nosound, beep, send_arp, send_ping}
use my_kernel.Abi.Services.{bcd_to_bin, hour}

-- `play_sound(pitch); sleep(long); nosound(); sleep(rest);`
abbrev pub tone : ℕ → ℕ → ℕ → List Service
tone pitch long rest = play_sound pitch ∷ sleep long ∷ nosound ∷ sleep rest ∷ []

abbrev pub melody : List Service
melody =
    tone 659 150 50
    ++ tone 659 150 150
    ++ tone 659 150 150
    ++ tone 523 150 50
    ++ tone 659 150 150
    ++ tone 784 300 300
    ++ tone 392 300 300

unfoldable pub perform : Parts → List Service → Kernel → Kernel
perform parts [] k = k
perform parts (s ∷ ss) k = perform parts ss (effect parts s k)

-- The text of `itoa` without its terminator, for a number below 2^31.
abbrev pub decimal : ℕ → List ℕ
decimal n = elim (itoa_digits 10 n) [ none ↦ [] | some ds ↦ reverse ds ]

abbrev pub clock_text : (ℕ → ℕ) → List ℕ
clock_text rtc =
    (b'G' ∷ b'e' ∷ b'r' ∷ b'c' ∷ b'e' ∷ b'k' ∷ b' ' ∷ b'D' ∷ b'o' ∷ b'n' ∷ b'a' ∷ b'n' ∷ b'i' ∷ b'm'
      ∷ b' ' ∷ b'S' ∷ b'a' ∷ b'a' ∷ b't' ∷ b'i' ∷ b':' ∷ b' ' ∷ [])
    ++ decimal (hour rtc)
    ++ b':' ∷ decimal (bcd_to_bin (rtc 0x02))
    ++ b':' ∷ decimal (bcd_to_bin (rtc 0x00))

abbrev pub uptime_text : ℕ → List ℕ
uptime_text timer_ticks =
    (b'S' ∷ b'i' ∷ b's' ∷ b't' ∷ b'e' ∷ b'm' ∷ b' ' ∷ b'C' ∷ b'a' ∷ b'l' ∷ b'i' ∷ b's' ∷ b'm' ∷ b'a'
      ∷ b' ' ∷ b'S' ∷ b'u' ∷ b'r' ∷ b'e' ∷ b's' ∷ b'i' ∷ b':' ∷ b' ' ∷ [])
    ++ decimal (timer_ticks / 100)
    ++ b' ' ∷ b's' ∷ b'a' ∷ b'n' ∷ b'i' ∷ b'y' ∷ b'e' ∷ []

abbrev pub ram_text : ℕ → List ℕ
ram_text total_used_memory =
    (b'K' ∷ b'u' ∷ b'l' ∷ b'l' ∷ b'a' ∷ b'n' ∷ b'i' ∷ b'l' ∷ b'a' ∷ b'n' ∷ b' ' ∷ b'R' ∷ b'A' ∷ b'M'
      ∷ b':' ∷ b' ' ∷ [])
    ++ decimal total_used_memory
    ++ b' ' ∷ b'/' ∷ b' ' ∷ b'4' ∷ b'1' ∷ b'9' ∷ b'4' ∷ b'3' ∷ b'0' ∷ b'4' ∷ b' ' ∷ b'B' ∷ b'a'
      ∷ b'y' ∷ b't' ∷ b' ' ∷ b'(' ∷ b'4' ∷ b' ' ∷ b'M' ∷ b'B' ∷ b')' ∷ []

-- The text and its terminator go to the buffer of the program.
abbrev pub answer : ℕ → List ℕ → Kernel → Kernel
answer buffer text k = record k {
  memory = store_bytes (real buffer k) (text ++ 0 ∷ []) k.memory;
  stores = (real buffer k, length text + 1) ∷ k.stores;
}

-- `if (arg1 == n) { ... } else if ...`; another number does nothing.
unfoldable pub choose : ℕ → List (ℕ × (Kernel → Kernel)) → Kernel → Kernel
choose action [] k = k
choose action ((n, f) ∷ branches) k =
    let rest = choose action branches k in if action == n then f k else rest

-- The network's branch: the router's address is asked for first.
abbrev pub ping_or_arp : Parts → Kernel → Kernel
ping_or_arp parts k = effect parts (if not k.arp_resolved then send_arp else send_ping) k

abbrev pub background : ℕ → Kernel → Kernel
background color k = record k { current_bg_color = color; force_redraw = true }

abbrev pub actions : Parts → ℕ → List (ℕ × (Kernel → Kernel))
actions parts buffer =
    (1, effect parts beep)
    ∷ (2, perform parts melody)
    ∷ (3, ping_or_arp parts)
    ∷ (4, background 0x000000AA)
    ∷ (5, background 0x00AA0000)
    ∷ (6, λ k. answer buffer (clock_text k.rtc) k)
    ∷ (7, λ k. answer buffer (uptime_text k.timer_ticks) k)
    ∷ (8, λ k. answer buffer (ram_text k.total_used_memory) k)
    ∷ []

unfoldable pub system_action : Parts → ℕ → ℕ → Kernel → Kernel
system_action parts action buffer k = choose action (actions parts buffer) k
