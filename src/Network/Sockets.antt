-- ===== src/Network/Sockets.antt =====
-- The pool of sockets of src/rtl8139.c: a new socket, and the bytes that arrive for one.
use my_kernel.Base.{
  ℕ, zero, suc, ◌+◌, ◌-◌, ◌%◌, ◌<◌, ◌≤◌, ◌≡◌, refl, ap, sym, ◌∙◌, ltb, Bool, true, false, Option,
  none, some, List, [], ◌∷◌, ◌++◌, length, set, take, arith, All, length-set, ltb→lt, not_ltb→le,
  Bool-cases, ◌⊎◌, inl, inr, append-nil, take-nil, append_assoc,
}
use my_kernel.Network.{Socket, no_socket, Net, fresh, create_from, net_socket_create, append_rx}

-- The receive buffer has its 8192 bytes, and room for a terminator behind those received.
abbrev pub IsSocket : Socket → Type 0
IsSocket s = (length s.rx_buf ≡ 8192) × (s.rx_size ≤ 8190)

-- Every socket of the pool is in order.
abbrev pub IsNet : Net → Type 0
IsNet n = All IsSocket n.tcp_sockets

pub no_socket-IsSocket : IsSocket no_socket
no_socket-IsSocket = (refl, omega arith)

-- The pool has a socket that is not active, and only active ones before it; this one is active,
-- closed and empty now, has the next local port and a number of its own to begin with, and is the
-- result. No other field of it, no other socket and nothing else has changed, but the next local
-- port.
abbrev pub Created : Net → Type 0
Created n =
    (before : List Socket) × (s : Socket) × (after : List Socket) × (n.tcp_sockets
      ≡ before ++ s ∷ after)
    × All (λ t. t.active ≡ true) before
    × (s.active ≡ false)
    × (net_socket_create n
        ≡ some (
          length before,
          record n {
            tcp_sockets =
                before
                ++ record s {
                  active = true;
                  state = 0;
                  local_port = n.next_local_port;
                  seq = (287454020 + length before) % 4294967296;
                  ack = 0;
                  rx_size = 0;
                  rx_ready = false;
                }
                  ∷ after;
            next_local_port = (n.next_local_port + 1) % 65536;
          },
        ))

-- The scan from slot `i` on: all sockets are active and there is none, or one is fresh now.
abbrev Scan : ℕ → ℕ → List Socket → Type 0
Scan i port ss =
    ((create_from i port ss ≡ none) × All (λ t. t.active ≡ true) ss)
    ⊎ ((before : List Socket) × (s : Socket) × (after : List Socket) × (ss ≡ before ++ s ∷ after)
        × All (λ t. t.active ≡ true) before
        × (s.active ≡ false)
        × (create_from i port ss
            ≡ some (i + length before, before ++ fresh (i + length before) port s ∷ after)))

create_from-used :
    (i port : ℕ) (s : Socket) (ss : List Socket) {j : ℕ} {ts : List Socket}
    → s.active ≡ true
    → create_from (i + 1) port ss ≡ some (j, ts)
    → create_from i port (s ∷ ss) ≡ some (j, s ∷ ts)
unfolding create_from
create_from-used i port s ss {j} {ts} used made = go s.active used
  where
    go :
        (b : Bool)
        → b ≡ true
        → elim b as (λ _. Option (ℕ × List Socket)) [
          | false ↦ some (i, fresh i port s ∷ ss)
          | true ↦ elim (create_from (i + 1) port ss) as (λ _. Option (ℕ × List Socket)) [
            | none ↦ none
            | some (j, ts) ↦ some (j, s ∷ ts)
          ]
        ]
          ≡ some (j, s ∷ ts)
    go true e = rw made refl
    go false e = absurd (cc)

create_from-Scan : (i port : ℕ) (ss : List Socket) → Scan i port ss
unfolding create_from
create_from-Scan i port [] = inl (refl, tt)
create_from-Scan i port (s ∷ ss) = elim (Bool-cases s.active) [
  | inr free ↦
      let e : i ≡ i + 0 = omega arith in
      inr (
        [],
        s,
        ss,
        refl,
        tt,
        free,
        rw (create_from, free) (ap (λ j. some (j, fresh j port s ∷ ss)) e),
      )
  | inl used ↦ elim (create_from-Scan (i + 1) port ss) [
    | inl (missed, all) ↦ inl (rw (create_from, used, missed) refl, (used, all))
    | inr (before, t, after, parts, all, free, made) ↦
        let e : i + 1 + length before ≡ i + length (s ∷ before) = omega arith in
        inr (
          s ∷ before,
          t,
          after,
          ap (λ (ts : List Socket). s ∷ ts) parts,
          (used, all),
          free,
          create_from-used i port s ss used made
              ∙ ap (λ j. some (j, s ∷ before ++ fresh j port t ∷ after)) e,
        )
  ]
]

-- Either all sockets of the pool are active, and there is no new one; or the first one that is not
-- active is the new one, closed, empty, with the next local port and its own initial number, and
-- everything else is as it was, but the next local port, which counts on modulo 2^16.
pub net_socket_create_lem :
    (n : Net)
    → ((net_socket_create n ≡ none) × All (λ s. s.active ≡ true) n.tcp_sockets) ⊎ Created n
unfolding net_socket_create
net_socket_create_lem n = elim (create_from-Scan 0 n.next_local_port n.tcp_sockets) [
  | inl (missed, all) ↦ inl (rw (net_socket_create, missed) refl, all)
  | inr (before, s, after, parts, all, free, made) ↦
      let e : 0 + length before ≡ length before = omega arith in
      inr (before, s, after, parts, all, free, rw (net_socket_create, made, e) refl)
]

-- The bytes that a socket has received.
abbrev pub received : Socket → List ℕ
received s = take s.rx_size s.rx_buf

take-set :
    (n : ℕ) (xs : List ℕ) (v : ℕ) → n < length xs → take (n + 1) (set xs n v) ≡ take n xs ++ v ∷ []
take-set n [] v lt = absurd (omega arith)
take-set zero (x ∷ xs) v lt = refl
take-set (suc n) (x ∷ xs) v lt =
    let e : suc n + 1 ≡ suc (n + 1) = omega arith in
    rw e (ap (λ (t : List ℕ). x ∷ t) (take-set n xs v (omega arith)))

-- Data that arrives goes behind what is there, in its order, as far as there is room for it: 8190
-- bytes in all. The rest is lost.
pub append_rx-received :
    (bytes : List ℕ) (s : Socket)
    → IsSocket s
    → (received (append_rx bytes s) ≡ received s ++ take (8190 - s.rx_size) bytes)
      × IsSocket (append_rx bytes s)
unfolding append_rx
append_rx-received [] s ok =
    (sym (ap (λ (t : List ℕ). received s ++ t) (take-nil _) ∙ append-nil (received s)), ok)
append_rx-received (b ∷ bs) s ok = elim (Bool-cases (ltb s.rx_size 8190)) [
  | inl room ↦
      let lt = ltb→lt s.rx_size 8190 room in
      let t = record s { rx_buf = set s.rx_buf s.rx_size b; rx_size = s.rx_size + 1 } in
      let t_ok : IsSocket t = (length-set s.rx_buf s.rx_size b ∙ ok.0, omega (arith, lt)) in
      let rest = append_rx-received bs t t_ok in
      let left : 8190 - s.rx_size ≡ suc (8190 - (s.rx_size + 1)) = omega (arith, lt) in
      let now = take-set s.rx_size s.rx_buf b (omega (arith, ok.0, lt)) in
      rw (append_rx, room, left)
        (
          rest.0
              ∙ ap (λ (l : List ℕ). l ++ take (8190 - (s.rx_size + 1)) bs) now
              ∙ append_assoc (received s) (b ∷ []) (take (8190 - (s.rx_size + 1)) bs),
          rest.1,
        )
  | inr full ↦
      let le = not_ltb→le s.rx_size 8190 full in
      let z : 8190 - s.rx_size ≡ 0 = omega (arith, le) in
      let rest = append_rx-received bs s ok in
      let stop : take (8190 - s.rx_size) bs ≡ take (8190 - s.rx_size) (b ∷ bs) =
        ap (λ n. take n bs) z ∙ sym (ap (λ n. take n (b ∷ bs)) z) in
      rw (append_rx, full) (rest.0 ∙ ap (λ (l : List ℕ). received s ++ l) stop, rest.1)
]
