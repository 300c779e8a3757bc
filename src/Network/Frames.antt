-- ===== src/Network/Frames.antt =====
-- The frames that src/rtl8139.c builds, byte by byte, and their checksums.
use my_kernel.Base.{
  ℕ, zero, suc, ◌+◌, ◌-◌, ◌*◌, ◌/◌, ◌%◌, ◌^◌, ◌==◌, ltb, if◌then◌else◌, bit_and, bit_or, List, [],
  ◌∷◌, ◌++◌, length, replicate,
}

-- `for (i = 0; i < len; i += 2) sum += (data[i] << 8) | data[i+1];`, for an even length. A byte that
-- is left over counts as the high one, as the loop of net_tcp_send has it.
unfoldable pub sum_words : List ℕ → ℕ
sum_words [] = 0
sum_words (a ∷ []) = a * 2 ^ 8
sum_words (a ∷ b ∷ bs) = bit_or (a * 2 ^ 8) b + sum_words bs

-- `while (sum >> 16) sum = (sum & 0xFFFF) + (sum >> 16);`, with rounds of fuel.
unfoldable pub fold_sum : ℕ → ℕ → ℕ
fold_sum zero sum = sum
fold_sum (suc fuel) sum =
    let rest = fold_sum fuel (bit_and sum 0xFFFF + sum / 2 ^ 16) in
    if sum / 2 ^ 16 == 0 then sum else rest

-- `return ~sum;` to 16 bits. Four rounds are enough for a sum of 32 bits.
abbrev pub complement : ℕ → ℕ
complement sum = (2 ^ 32 - 1 - sum) % 2 ^ 16

unfoldable pub net_checksum : List ℕ → ℕ
net_checksum bytes = complement (fold_sum 4 (sum_words bytes % 2 ^ 32))

-- A word as two bytes, and as four, the high one first.
abbrev pub two : ℕ → List ℕ
two w = bit_and (w / 2 ^ 8) 0xFF ∷ bit_and w 0xFF ∷ []

abbrev pub four : ℕ → List ℕ
four w =
    bit_and (w / 2 ^ 24) 0xFF
    ∷ bit_and (w / 2 ^ 16) 0xFF
    ∷ bit_and (w / 2 ^ 8) 0xFF
    ∷ bit_and w 0xFF
    ∷ []

-- Bytes 0 to 13.
abbrev pub ethernet : List ℕ → List ℕ → List ℕ
ethernet router_mac mac_address = router_mac ++ mac_address ++ 0x08 ∷ 0x00 ∷ []

-- The header of 20 bytes with a given checksum, from 10.0.2.15.
abbrev pub ip_fields : List ℕ → ℕ → ℕ → ℕ → ℕ → ℕ → List ℕ → List ℕ
ip_fields csum ip_len id_high id_low fragment protocol dest_ip =
    (0x45 ∷ 0x00 ∷ [])
    ++ two ip_len
    ++ (id_high ∷ id_low ∷ fragment ∷ 0x00 ∷ 0x40 ∷ protocol ∷ [])
    ++ csum
    ++ (10 ∷ 0 ∷ 2 ∷ 15 ∷ [])
    ++ dest_ip

-- Bytes 14 to 33: the checksum is that of the header with 0 in its place.
unfoldable pub ip_header : ℕ → ℕ → ℕ → ℕ → ℕ → List ℕ → List ℕ
ip_header ip_len id_high id_low fragment protocol dest_ip =
    ip_fields
      (two (net_checksum (ip_fields (0 ∷ 0 ∷ []) ip_len id_high id_low fragment protocol dest_ip)))
      ip_len id_high id_low fragment protocol dest_ip

-- The TCP header and data with a given checksum.
abbrev pub tcp_fields : List ℕ → ℕ → ℕ → ℕ → ℕ → ℕ → List ℕ → List ℕ
tcp_fields csum local_port remote_port seq ack flags data_bytes =
    two local_port
    ++ two remote_port
    ++ four seq
    ++ four ack
    ++ (0x50 ∷ flags ∷ 0xFA ∷ 0xF0 ∷ [])
    ++ csum
    ++ (0 ∷ 0 ∷ [])
    ++ data_bytes

-- The addresses, the protocol and the length, which count for the checksum with the segment.
abbrev pub pseudo_sum : List ℕ → ℕ → ℕ
pseudo_sum remote_ip tcp_len =
    sum_words (10 ∷ 0 ∷ 2 ∷ 15 ∷ []) + sum_words remote_ip + 0x0006 + tcp_len

-- From byte 34 on.
unfoldable pub tcp_segment : ℕ → ℕ → ℕ → ℕ → ℕ → List ℕ → List ℕ → List ℕ
tcp_segment local_port remote_port seq ack flags remote_ip data_bytes =
    let plain = tcp_fields (0 ∷ 0 ∷ []) local_port remote_port seq ack flags data_bytes in
    let csum =
      complement
        (fold_sum 4 ((pseudo_sum remote_ip (20 + length data_bytes) + sum_words plain) % 2 ^ 32)) in
    tcp_fields (two csum) local_port remote_port seq ack flags data_bytes

unfoldable pub udp_datagram : ℕ → ℕ → List ℕ → List ℕ
udp_datagram src_port dest_port data_bytes =
    two src_port ++ two dest_port ++ two (8 + length data_bytes) ++ (0 ∷ 0 ∷ []) ++ data_bytes

-- A frame has at least 60 bytes; zeros fill it up.
abbrev pub framed : List ℕ → List ℕ
framed bytes = if ltb (length bytes) 60 then bytes ++ replicate (60 - length bytes) 0 else bytes

-- The 31 characters of the ping's text, and its terminator.
abbrev pub ping_text : List ℕ
ping_text =
    b'A' ∷ b'r' ∷ b'd' ∷ b'a' ∷ b'O' ∷ b'S' ∷ b' ' ∷ b'I' ∷ b'C' ∷ b'M' ∷ b'P' ∷ b' ' ∷ b'P' ∷ b'i'
    ∷ b'n' ∷ b'g' ∷ b' ' ∷ b'T' ∷ b'e' ∷ b's' ∷ b't' ∷ b' ' ∷ b'P' ∷ b'a' ∷ b'k' ∷ b'e' ∷ b't'
    ∷ b'i' ∷ b'!' ∷ b'!' ∷ b'!' ∷ 0 ∷ []

abbrev pub icmp_fields : List ℕ → List ℕ
icmp_fields csum = (8 ∷ 0 ∷ []) ++ csum ++ (0 ∷ 1 ∷ 0 ∷ 1 ∷ []) ++ ping_text

-- The 74 bytes of a ping to 10.0.2.2.
unfoldable pub ping_frame : List ℕ → List ℕ → List ℕ
ping_frame router_mac mac_address =
    ethernet router_mac mac_address
    ++ ip_header 0x3C 0xAB 0xCD 0x00 0x01 (10 ∷ 0 ∷ 2 ∷ 2 ∷ [])
    ++ icmp_fields (two (net_checksum (icmp_fields (0 ∷ 0 ∷ []))))
