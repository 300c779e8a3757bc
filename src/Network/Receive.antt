-- ===== src/Network/Receive.antt =====
-- The handler of a frame that arrives, in src/rtl8139.c, returns and keeps the sockets in order.
use my_kernel.Base.{
  ℕ, ◌+◌, ◌-◌, ◌*◌, ◌/◌, ◌%◌, ◌^◌, ◌==◌, ◌≤◌, ◌≡◌, refl, ◌∙◌, ltb, if◌then◌else◌, Bool, true, false,
  not, ◌&&◌, ◌||◌, Option, some, ◌>>=◌, List, [], length, set, arith, All-set, All-get_or,
  length-set, le→not_ltb, Bool-cases, Option-cases, ==_iff, inl, inr, bit_and, bit_or,
}
use my_kernel.Base.Signed.{slt}
use my_kernel.Network.{
  Socket, no_socket, Net, socket_at, put_socket, net_tcp_send, word16, word32, packet_bytes,
  append_rx, find_socket, receive_syn_ack, receive_data, receive_fin, receive_tcp, receive_udp,
  receive, rtl8139_handler_main, tcp_established, tcp_closed,
}
use my_kernel.Network.Sockets.{IsSocket, IsNet, no_socket-IsSocket, append_rx-received}

-- A result that is there, and has a property.
abbrev pub Returns {ℓ} : {A : Type ℓ} → (A → Type 0) → Option A → Type ℓ
Returns {A = A} holds o = (a : A) × (o ≡ some a) × holds a

module _ (n : Net) (ok : IsNet n) where
  socket_at-IsSocket : (i : ℕ) → IsSocket (socket_at n i)
  socket_at-IsSocket i = All-get_or IsSocket n.tcp_sockets i no_socket ok no_socket-IsSocket

  put_socket-IsNet : (i : ℕ) (s : Socket) → IsSocket s → IsNet (put_socket i s n)
  put_socket-IsNet i s p = All-set IsSocket n.tcp_sockets i s ok p

-- A segment without data is always sent or refused.
net_tcp_send-empty :
    (i flags : ℕ) (n : Net)
    → IsNet n
    → Returns (λ (r : ℕ × Net). IsNet r.1) (net_tcp_send i flags [] n)
unfolding net_tcp_send
net_tcp_send-empty i flags n ok =
    elim (Bool-cases (not (ltb i 16) || not (socket_at n i).active || not n.arp_resolved)) [
      | inl refused ↦ rw (net_tcp_send, refused) ((_, refl, ok))
      | inr sent ↦
          rw (net_tcp_send, sent) ((_, refl, put_socket-IsNet n ok i _ (socket_at-IsSocket n ok i)))
    ]

-- A result that is passed on has the property of the next step.
then_next {ℓ} :
    {A : Type ℓ} {P : A → Type 0} (Q : Net → Type 0) (o : Option A) (next : A → Option Net)
    → Returns P o
    → ((a : A) → P a → Returns Q (next a))
    → Returns Q (o >>= next)
then_next Q o next (a, e, p) step = rw e (step a p)

receive_syn_ack-IsNet : (i seq : ℕ) (n : Net) → IsNet n → Returns IsNet (receive_syn_ack i seq n)
unfolding receive_syn_ack
receive_syn_ack-IsNet i seq n ok =
    let s = record (socket_at n i) { ack = (seq + 1) % 2 ^ 32; state = tcp_established } in
    then_next IsNet _ (λ r. some r.1)
      (net_tcp_send-empty i 0x10 (put_socket i s n)
        (put_socket-IsNet n ok i s (socket_at-IsSocket n ok i)))
      (λ r p. (r.1, refl, p))

receive_data-IsNet :
    (i seq : ℕ) (bytes : List ℕ) (n : Net) → IsNet n → Returns IsNet (receive_data i seq bytes n)
unfolding receive_data
receive_data-IsNet i seq bytes n ok =
    let s = record (socket_at n i) { ack = (seq + length bytes) % 2 ^ 32 } in
    let t = append_rx bytes s in
    let t_ok : IsSocket t = (append_rx-received bytes s (socket_at-IsSocket n ok i)).1 in
    let u = record t { rx_buf = set t.rx_buf t.rx_size 0; rx_ready = true } in
    let u_ok : IsSocket u = (length-set t.rx_buf t.rx_size 0 ∙ t_ok.0, t_ok.1) in
    then_next IsNet _ (λ r. some r.1)
      (net_tcp_send-empty i 0x10 (put_socket i u n) (put_socket-IsNet n ok i u u_ok))
      (λ r p. (r.1, refl, p))

receive_fin-IsNet : (i seq : ℕ) (n : Net) → IsNet n → Returns IsNet (receive_fin i seq n)
unfolding receive_fin
receive_fin-IsNet i seq n ok =
    let s = record (socket_at n i) { ack = (seq + 1) % 2 ^ 32 } in
    then_next IsNet _
      (λ r. some (put_socket i (record (socket_at r.1 i) { state = tcp_closed }) r.1))
      (net_tcp_send-empty i 0x11 (put_socket i s n)
        (put_socket-IsNet n ok i s (socket_at-IsSocket n ok i)))
      (λ r p. (_, refl, put_socket-IsNet r.1 p i _ (socket_at-IsSocket r.1 p i)))

unchanged : (n : Net) → IsNet n → Returns IsNet (some n)
unchanged n ok = (n, refl, ok)

-- One of two results, by a test.
either :
    (b : Bool) (x y : Option Net)
    → Returns IsNet x
    → Returns IsNet y
    → Returns IsNet (if b then x else y)
either true x y p q = p
either false x y p q = q

receive_tcp-IsNet : (packet : ℕ → ℕ) (n : Net) → IsNet n → Returns IsNet (receive_tcp packet n)
unfolding receive_tcp
receive_tcp-IsNet packet n ok =
    let ip_hdr_len = bit_and (packet 14) 0x0F * 4 in
    let start = 14 + ip_hdr_len in
    let flags = packet (start + 13) in
    let tcp_hdr_len = packet (start + 12) / 2 ^ 4 * 4 in
    let data_len = (word16 packet 16 + 2 ^ 32 - ip_hdr_len - tcp_hdr_len) % 2 ^ 32 in
    let seq = word32 packet (start + 4) in
    let bytes = packet_bytes packet (start + tcp_hdr_len) data_len in
    elim (Option-cases (find_socket (word16 packet (start + 2)) 0 n.tcp_sockets)) [
      | inl e ↦ rw (receive_tcp, e) (unchanged n ok)
      | inr (i, e) ↦
          rw (receive_tcp, e)
            (either (not (bit_and flags 0x02 == 0) && not (bit_and flags 0x10 == 0)) _ _
              (receive_syn_ack-IsNet i seq n ok)
              (either (slt 0 data_len) _ _ (receive_data-IsNet i seq bytes n ok) (
                either (not (bit_and flags 0x01 == 0)) _ _ (receive_fin-IsNet i seq n ok)
                  (unchanged n ok))))
    ]

-- If the frame is a datagram, its length has room for its header, and its data for the inbox.
abbrev pub FitsInbox : (ℕ → ℕ) → Type 0
FitsInbox packet =
    word16 packet 12 ≡ 0x0800
    → packet 23 ≡ 0x11
    → (8 ≤ word16 packet 38) × (word16 packet 38 ≤ 2055)

receive_udp-IsNet :
    (packet : ℕ → ℕ) (n : Net)
    → 8 ≤ word16 packet 38
    → word16 packet 38 ≤ 2055
    → IsNet n
    → Returns IsNet (receive_udp packet n)
unfolding receive_udp
receive_udp-IsNet packet n low high ok =
    rw
      (
        receive_udp,
        le→not_ltb (word16 packet 38) 8 low,
        le→not_ltb 2047 (word16 packet 38 - 8) (omega (arith, high)),
      )
      (_, refl, ok)

-- One of two results, by a test for a number, which the first may rely on.
equal :
    (m n : ℕ) (x y : Option Net)
    → (m ≡ n → Returns IsNet x)
    → Returns IsNet y
    → Returns IsNet (if m == n then x else y)
equal m n x y p q = elim (Bool-cases (m == n)) [
  | inl e ↦ rw e (p ((==_iff m n).0 e))
  | inr e ↦ rw e q
]

receive-IsNet :
    (packet : ℕ → ℕ) (n : Net) → FitsInbox packet → IsNet n → Returns IsNet (receive packet n)
unfolding receive
receive-IsNet packet n fits ok =
    let found = record n { router_mac = packet_bytes packet 22 6; arp_resolved = true } in
    either (word16 packet 12 == 0x0806) _ _
      (either (word16 packet 20 == 2) (some found) (some n) (found, refl, ok) (unchanged n ok))
      (equal (word16 packet 12) 0x0800 _ (some n)
        (λ ip. either (packet 23 == 0x01) (some n) _ (unchanged n ok) (
          equal (packet 23) 0x11 _ _
            (λ udp. let both = fits ip udp in receive_udp-IsNet packet n both.0 both.1 ok)
            (either (packet 23 == 0x06) _ (some n) (receive_tcp-IsNet packet n ok)
              (unchanged n ok))))
        (unchanged n ok))

-- The handler returns on every frame, whatever it holds, and keeps the receive buffer of each socket
-- and its terminator in bounds; of a frame that is a UDP datagram, and of no other, it is asked that
-- its length has room for its header and that its data fit the inbox.
pub rtl8139_handler_main-IsNet :
    (status : ℕ) (rx_buffer : ℕ → ℕ) (n : Net)
    → FitsInbox (λ k. rx_buffer (n.rx_offset + 4 + k))
    → IsNet n
    → Returns IsNet (rtl8139_handler_main status rx_buffer n)
unfolding rtl8139_handler_main
rtl8139_handler_main-IsNet status rx_buffer n fits ok =
    let rx_length = bit_or (rx_buffer (n.rx_offset + 2)) (rx_buffer (n.rx_offset + 3) * 2 ^ 8) in
    let offset = bit_and ((n.rx_offset + rx_length + 4 + 3) % 2 ^ 32) (2 ^ 32 - 4) in
    either (bit_and status 0x01 == 0) (some n) _ (unchanged n ok) (
      then_next IsNet (receive (λ k. rx_buffer (n.rx_offset + 4 + k)) n)
        (λ m. some (record m { rx_offset = offset }))
        (receive-IsNet (λ k. rx_buffer (n.rx_offset + 4 + k)) n fits ok)
        (λ m p. (record m { rx_offset = offset }, refl, p)))
