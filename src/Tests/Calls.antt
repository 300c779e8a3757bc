-- ===== src/Tests/Calls.antt =====
-- Runs of the models of the screen, the network, the shared windows and the system calls.
use my_kernel.Base.{
  All, ◌⊎◌, ◌==◌, ℕ, ◌≡◌, refl, true, false, inl, inr, ltb, if◌then◌else◌, none, List, [], ◌∷◌,
  ◌++◌, take, replicate, arith,
}
use my_kernel.Gui.{Kernel, Window, no_window, minus_one, find_window, window_at, real, store_word}
use my_kernel.Gui.Bounds.{IsWindow, IsGui, no_window-IsWindow}
use my_kernel.Gui.Buttons.{poll_event}
use my_kernel.Gui.Events.{queue, poll_event-queue}
use my_kernel.Abi.{Call, Parts}
use my_kernel.Abi.Services.{set_clipboard}
use my_kernel.Abi.Router.{syscall_handler_main}
use my_kernel.Abi.Requests.{
  encode, meant, sys_create_button, sys_poll_event, syscall_handler_main-encode,
}
use my_kernel.Abi.Numbers.{syscall_handler_main-unknown}
use my_kernel.Network.{
  Socket, no_socket, Net, fresh, net_socket_create, append_rx, rtl8139_handler_main,
}
use my_kernel.Network.Frames.{net_checksum, ip_header}
use my_kernel.Network.Checksum.{net_checksum-ip_header}
use my_kernel.Network.Sockets.{
  IsSocket, IsNet, no_socket-IsSocket, received, Created, net_socket_create_lem, append_rx-received,
}
use my_kernel.Network.Receive.{Returns, rtl8139_handler_main-IsNet}

-- The other parts, where each service answers 0 and changes nothing.
abbrev quiet : Parts
quiet service k = (0, k)

-- Two windows of the kernel, and one of task 5 with two events.
abbrev own : Window
own = record no_window {
  is_open = true;
  owner_task_id = 5;
  button_count = 3;
  event_count = 2;
  event_type = 1 ∷ 1 ∷ replicate 18 0;
  event_id = 2 ∷ 0 ∷ replicate 18 0;
}

abbrev machine : Kernel
machine = record {
  windows = no_window ∷ no_window ∷ own ∷ [];
  focused_window = 0;
  force_redraw = false;
  terminal_lines = replicate 16 (replicate 80 0);
  terminal_line_count = 0;
  current_bg_color = 0;
  task_id = 5;
  task_state = 0;
  app_base = 0x500000;
  last_game_key = 0;
  task_to_kill = minus_one;
  pending_command = 0 ∷ [];
  command_ready = false;
  system_clipboard = replicate 4096 0;
  arp_resolved = false;
  timer_ticks = 0;
  total_used_memory = 0;
  vesa_framebuffer = 0;
  mouse_x = 0;
  mouse_y = 0;
  mouse_left_button = 0;
  rtc = λ _. 0;
  memory = λ a. if ltb a 0x500002 then b'A' else 0;
  stores = [];
}

own-IsWindow : IsWindow own
own-IsWindow = ground arith

machine-IsGui : IsGui machine
machine-IsGui = (no_window-IsWindow, (no_window-IsWindow, (own-IsWindow, tt)))

abbrev registers : Call
registers = record { sys_num = 42; arg1 = 1; arg2 = 2; arg3 = 3; arg4 = 4; arg5 = 5 }

syscall_handler_main-encode_example :
    syscall_handler_main quiet (encode (sys_create_button 1 2 30 40 0) registers) machine
    ≡ meant quiet (sys_create_button 1 2 30 40 0) machine
syscall_handler_main-encode_example =
    syscall_handler_main-encode quiet (sys_create_button 1 2 30 40 0) registers machine

syscall_handler_main-unknown_example :
    syscall_handler_main quiet registers machine ≡ (minus_one, machine)
syscall_handler_main-unknown_example =
    syscall_handler_main-unknown quiet registers machine (inr (inl refl))

-- Task 6, which stands elsewhere in another memory, after the copy.
abbrev other_program : Kernel
other_program = record (set_clipboard 0 machine) { task_id = 6; app_base = 0x4000; memory = λ a. 1 }

-- A program asks for its next event.
abbrev next_event : Call
next_event = encode (sys_poll_event 0x200) registers

poll_event-queue_example :
    ((poll_event 0x200 machine).0 ≡ 1)
    × (queue (window_at (poll_event 0x200 machine).1 2) ≡ (1, 0) ∷ [])
    × ((poll_event 0x200 machine).1.memory ≡ store_word (real 0x200 machine) 2 machine.memory)
unfolding find_window
poll_event-queue_example =
    poll_event-queue 0x200 machine 2 1 2 ((1, 0) ∷ []) machine-IsGui refl (omega arith) refl

net_checksum-ip_header_example : net_checksum (ip_header 60 0xAB 0xCD 0 1 (10 ∷ 0 ∷ 2 ∷ 2 ∷ [])) ≡ 0
net_checksum-ip_header_example =
    net_checksum-ip_header 60 0xAB 0xCD 0 1 10 0 2 2 (omega arith) (omega arith) (omega arith)
      (omega arith) (omega arith) (omega arith) (omega arith) (omega arith) (omega arith)

-- A pool with one socket in use and one that is free.
abbrev sockets : List Socket
sockets = fresh 0 49152 no_socket ∷ no_socket ∷ []

abbrev card : Net
card = record {
  tcp_sockets = sockets;
  next_local_port = 49153;
  mac_address = replicate 6 0;
  router_mac = replicate 6 0;
  arp_resolved = true;
  udp_inbox = replicate 2048 0;
  udp_inbox_size = 0;
  udp_inbox_ready = false;
  tx_descriptor = 0;
  rx_offset = 0;
  sent = [];
}

net_socket_create_lem_example :
    ((net_socket_create card ≡ none) × All (λ s. s.active ≡ true) sockets) ⊎ Created card
net_socket_create_lem_example = net_socket_create_lem card

append_rx-received_example :
    (received (append_rx (7 ∷ 8 ∷ []) no_socket) ≡ received no_socket ++ take 8190 (7 ∷ 8 ∷ []))
    × IsSocket (append_rx (7 ∷ 8 ∷ []) no_socket)
append_rx-received_example = append_rx-received (7 ∷ 8 ∷ []) no_socket no_socket-IsSocket

-- A frame behind the four bytes of the card: IPv4, UDP, a datagram of ten bytes.
abbrev ring : ℕ → ℕ
ring k = if k == 16 then 8 else (if k == 27 then 0x11 else (if k == 43 then 10 else 0))

rtl8139_handler_main-IsNet_example : Returns IsNet (rtl8139_handler_main 1 ring card)
rtl8139_handler_main-IsNet_example =
    rtl8139_handler_main-IsNet 1 ring card (λ ip udp. (omega arith, omega arith))
      (no_socket-IsSocket, (no_socket-IsSocket, tt))
