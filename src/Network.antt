-- ===== src/Network.antt =====
-- The network of src/rtl8139.c: the pool of sockets, the frames that are sent, and the handler of a
-- frame that arrives. The card is the list of the frames handed to it, and the bytes that it stores.
pub mod Frames
pub mod Checksum
pub mod Sockets
pub mod Receive
use my_kernel.Base.{
  ℕ, zero, suc, ◌+◌, ◌-◌, ◌*◌, ◌/◌, ◌%◌, ◌^◌, ◌==◌, ltb, leb, if◌then◌else◌, Bool, true, false, not,
  ◌&&◌, ◌||◌, bit_and, bit_or, Option, none, some, ◌>>=◌, List, [], ◌∷◌, ◌++◌, length, get_or, set,
  take, drop, replicate,
}
use my_kernel.Base.Signed.{slt}
use my_kernel.Network.Frames.{ping_frame, ip_header, tcp_segment, udp_datagram, ethernet, framed}

abbrev pub tcp_closed : ℕ
tcp_closed = 0

abbrev pub tcp_syn_sent : ℕ
tcp_syn_sent = 1

abbrev pub tcp_established : ℕ
tcp_established = 2

-- `tcp_socket_t`
pub record Socket : Type 0 where
  pub active : Bool
  pub state : ℕ
  pub remote_ip : List ℕ
  pub remote_port : ℕ
  pub local_port : ℕ
  pub seq : ℕ
  pub ack : ℕ
  pub rx_buf : List ℕ
  pub rx_size : ℕ
  pub rx_ready : Bool

-- One entry of `tcp_sockets[16] = {0}`.
abbrev pub no_socket : Socket
no_socket = record {
  active = false;
  state = 0;
  remote_ip = replicate 4 0;
  remote_port = 0;
  local_port = 0;
  seq = 0;
  ack = 0;
  rx_buf = replicate 8192 0;
  rx_size = 0;
  rx_ready = false;
}

-- The variables of the file, and the frames handed to the card, the newest first.
pub record Net : Type 0 where
  pub tcp_sockets : List Socket
  pub next_local_port : ℕ
  pub mac_address : List ℕ
  pub router_mac : List ℕ
  pub arp_resolved : Bool
  pub udp_inbox : List ℕ
  pub udp_inbox_size : ℕ
  pub udp_inbox_ready : Bool
  pub tx_descriptor : ℕ
  pub rx_offset : ℕ
  pub sent : List (List ℕ)

-- A fresh socket, as net_socket_create leaves slot `i`.
abbrev pub fresh : ℕ → ℕ → Socket → Socket
fresh i port s = record s {
  active = true;
  state = tcp_closed;
  local_port = port;
  seq = (0x11223344 + i) % 2 ^ 32;
  ack = 0;
  rx_size = 0;
  rx_ready = false;
}

-- `for (i = 0; i < 16; i++)`, from slot `i` on.
unfoldable pub create_from : ℕ → ℕ → List Socket → Option (ℕ × List Socket)
create_from i port [] = none
create_from i port (s ∷ ss) = elim s.active [
  | false ↦ some (i, fresh i port s ∷ ss)
  | true ↦ elim (create_from (i + 1) port ss) [ none ↦ none | some (j, ts) ↦ some (j, s ∷ ts) ]
]

-- The number of the socket; `none` is -1.
unfoldable pub net_socket_create : Net → Option (ℕ × Net)
net_socket_create n = elim (create_from 0 n.next_local_port n.tcp_sockets) [
  | none ↦ none
  | some (i, ss) ↦
      some (i, record n { tcp_sockets = ss; next_local_port = (n.next_local_port + 1) % 2 ^ 16 })
]

-- The frame goes to the card: `outl(...); tx_descriptor = (tx_descriptor + 1) % 4;`
abbrev pub transmit : List ℕ → Net → Net
transmit frame n = record n { sent = frame ∷ n.sent; tx_descriptor = (n.tx_descriptor + 1) % 4 }

-- The ARP request of 64 bytes.
unfoldable pub rtl8139_send_arp : Net → Net
rtl8139_send_arp n =
    transmit
      (take 64 (
        replicate 6 0xFF
        ++ n.mac_address
        ++ (0x08 ∷ 0x06 ∷ 0x00 ∷ 0x01 ∷ 0x08 ∷ 0x00 ∷ 0x06 ∷ 0x04 ∷ 0x00 ∷ 0x01 ∷ [])
        ++ n.mac_address
        ++ (10 ∷ 0 ∷ 2 ∷ 15 ∷ 0 ∷ 0 ∷ 0 ∷ 0 ∷ 0 ∷ 0 ∷ 10 ∷ 0 ∷ 2 ∷ 2 ∷ [])
        ++ replicate 22 0))
      n

unfoldable pub rtl8139_send_ping : Net → Net
rtl8139_send_ping n = transmit (ping_frame n.router_mac n.mac_address) n

-- The socket of a number, where the number is one of the pool's.
abbrev pub socket_at : Net → ℕ → Socket
socket_at n i = get_or n.tcp_sockets i no_socket

abbrev pub put_socket : ℕ → Socket → Net → Net
put_socket i s n = record n { tcp_sockets = set n.tcp_sockets i s }

-- `if (data_len > 0) seq += data_len; else if (flags & 0x02 || flags & 0x01) seq += 1;`
abbrev pub next_seq : ℕ → ℕ → ℕ → ℕ
next_seq flags data_len seq =
    if ltb 0 data_len
    then (seq + data_len) % 2 ^ 32
    else (if not (bit_and flags 0x02 == 0) || not (bit_and flags 0x01 == 0)
        then (seq + 1) % 2 ^ 32
        else seq)

-- The result, -1 as a word; `none` is a write behind the frame's 2048 bytes.
unfoldable pub net_tcp_send : ℕ → ℕ → List ℕ → Net → Option (ℕ × Net)
net_tcp_send sock_id flags data_bytes n =
    let s = socket_at n sock_id in
    let refused = not (ltb sock_id 16) || not s.active in
    if refused || not n.arp_resolved
    then some (2 ^ 32 - 1, n)
    else (if ltb 2048 (54 + length data_bytes)
        then none
        else some (
          length data_bytes,
          put_socket sock_id (record s { seq = next_seq flags (length data_bytes) s.seq })
              (transmit
                (framed (
                  ethernet n.router_mac n.mac_address
                  ++ ip_header (40 + length data_bytes) 0x12 0x34 0x40 0x06 s.remote_ip
                  ++ tcp_segment s.local_port s.remote_port s.seq s.ack flags s.remote_ip
                      data_bytes))
                n),
        ))

unfoldable pub net_tcp_connect : ℕ → List ℕ → ℕ → Net → Option (ℕ × Net)
net_tcp_connect sock_id ip port n =
    if not (ltb sock_id 16) || not (socket_at n sock_id).active
    then some (2 ^ 32 - 1, n)
    else (let n' = if n.arp_resolved then n else rtl8139_send_arp n in
        let s = record (socket_at n' sock_id) {
          remote_ip = ip;
          remote_port = port;
          state = tcp_syn_sent;
        } in
        net_tcp_send sock_id 0x02 [] (put_socket sock_id s n') >>= λ r. some (0, r.1))

unfoldable pub rtl8139_send_udp : List ℕ → ℕ → ℕ → List ℕ → Net → Option Net
rtl8139_send_udp dest_ip dest_port src_port data_bytes n =
    if not n.arp_resolved
    then some n
    else (if ltb 2048 (42 + length data_bytes)
        then none
        else some (
            transmit
              (framed (
                ethernet n.router_mac n.mac_address
                ++ ip_header (28 + length data_bytes) 0x00 0x00 0x00 0x11 dest_ip
                ++ udp_datagram src_port dest_port data_bytes))
              n))

-- Two and four bytes of a packet, the high byte first.
abbrev pub word16 : (ℕ → ℕ) → ℕ → ℕ
word16 packet i = bit_or (packet i * 2 ^ 8) (packet (i + 1))

abbrev pub word32 : (ℕ → ℕ) → ℕ → ℕ
word32 packet i =
    bit_or
      (bit_or (bit_or (packet i * 2 ^ 24 % 2 ^ 32) (packet (i + 1) * 2 ^ 16))
        (packet (i + 2) * 2 ^ 8))
      (packet (i + 3))

-- `n` bytes of a packet from `i` on.
abbrev pub packet_bytes : (ℕ → ℕ) → ℕ → ℕ → List ℕ
packet_bytes packet i zero = []
packet_bytes packet i (suc n) = packet i ∷ packet_bytes packet (i + 1) n

-- `for (i = 0; i < data_len; i++) if (rx_size < 8190) rx_buf[rx_size++] = ...;`
unfoldable pub append_rx : List ℕ → Socket → Socket
append_rx [] s = s
append_rx (b ∷ bs) s = append_rx bs (
    if ltb s.rx_size 8190
    then record s { rx_buf = set s.rx_buf s.rx_size b; rx_size = s.rx_size + 1 }
    else s)

-- `for (s = 0; s < 16; s++)`: the first active socket with the port.
unfoldable pub find_socket : ℕ → ℕ → List Socket → Option ℕ
find_socket port i [] = none
find_socket port i (s ∷ ss) =
    if s.active && (s.local_port == port) then some i else find_socket port (i + 1) ss

-- The three answers to a TCP packet for socket `i`: to a SYN-ACK, to data, and to a FIN.
unfoldable pub receive_syn_ack : ℕ → ℕ → Net → Option Net
receive_syn_ack i incoming_seq n =
    let s = record (socket_at n i) { ack = (incoming_seq + 1) % 2 ^ 32; state = tcp_established } in
    net_tcp_send i 0x10 [] (put_socket i s n) >>= λ r. some r.1

unfoldable pub receive_data : ℕ → ℕ → List ℕ → Net → Option Net
receive_data i incoming_seq bytes n =
    let t =
      append_rx bytes (record (socket_at n i) { ack = (incoming_seq + length bytes) % 2 ^ 32 }) in
    let s = record t { rx_buf = set t.rx_buf t.rx_size 0; rx_ready = true } in
    net_tcp_send i 0x10 [] (put_socket i s n) >>= λ r. some r.1

unfoldable pub receive_fin : ℕ → ℕ → Net → Option Net
receive_fin i incoming_seq n =
    let s = record (socket_at n i) { ack = (incoming_seq + 1) % 2 ^ 32 } in
    net_tcp_send i 0x11 [] (put_socket i s n) >>= λ r.
    some (put_socket i (record (socket_at r.1 i) { state = tcp_closed }) r.1)

-- The branch of a TCP packet.
unfoldable pub receive_tcp : (ℕ → ℕ) → Net → Option Net
receive_tcp packet n =
    let ip_hdr_len = bit_and (packet 14) 0x0F * 4 in
    let tcp_hdr_start = 14 + ip_hdr_len in
    let flags = packet (tcp_hdr_start + 13) in
    let dest_port = word16 packet (tcp_hdr_start + 2) in
    let incoming_seq = word32 packet (tcp_hdr_start + 4) in
    let tcp_hdr_len = packet (tcp_hdr_start + 12) / 2 ^ 4 * 4 in
    let data_start = tcp_hdr_start + tcp_hdr_len in
    let total_len = word16 packet 16 in
    let data_len = (total_len + 2 ^ 32 - ip_hdr_len - tcp_hdr_len) % 2 ^ 32 in
    elim (find_socket dest_port 0 n.tcp_sockets) [
      | none ↦ some n
      | some i ↦
          if not (bit_and flags 0x02 == 0) && not (bit_and flags 0x10 == 0)
          then receive_syn_ack i incoming_seq n
          else (if slt 0 data_len
              then receive_data i incoming_seq (packet_bytes packet data_start data_len) n
              else (if not (bit_and flags 0x01 == 0) then receive_fin i incoming_seq n else some n))
    ]

-- The branch of a UDP packet; `none` is a write outside the inbox of 2048 bytes.
unfoldable pub receive_udp : (ℕ → ℕ) → Net → Option Net
receive_udp packet n =
    let udp_len = word16 packet 38 in
    if ltb udp_len 8 || ltb 2047 (udp_len - 8)
    then none
    else some (record n {
      udp_inbox_size = udp_len - 8;
      udp_inbox = packet_bytes packet 42 (udp_len - 8) ++ 0 ∷ drop (udp_len - 8 + 1) n.udp_inbox;
      udp_inbox_ready = true;
    })

-- What a frame does, by its Ethernet type: an ARP answer brings the router's address, and of IPv4
-- packets UDP and TCP have a branch.
unfoldable pub receive : (ℕ → ℕ) → Net → Option Net
receive packet n =
    let ether_type = word16 packet 12 in
    if ether_type == 0x0806
    then (if word16 packet 20 == 2
        then some (record n { router_mac = packet_bytes packet 22 6; arp_resolved = true })
        else some n)
    else (if ether_type == 0x0800
        then (if packet 23 == 0x01
            then some n
            else (if packet 23 == 0x11
                then receive_udp packet n
                else (if packet 23 == 0x06 then receive_tcp packet n else some n)))
        else some n)

-- The handler, with the status word of the card and its receive buffer.
unfoldable pub rtl8139_handler_main : ℕ → (ℕ → ℕ) → Net → Option Net
rtl8139_handler_main status rx_buffer n =
    let rx_length = bit_or (rx_buffer (n.rx_offset + 2)) (rx_buffer (n.rx_offset + 3) * 2 ^ 8) in
    if bit_and status 0x01 == 0
    then some n
    else receive (λ k. rx_buffer (n.rx_offset + 4 + k)) n >>= λ m.
        some (record m {
          rx_offset = bit_and ((n.rx_offset + rx_length + 4 + 3) % 2 ^ 32) (2 ^ 32 - 4);
        })
