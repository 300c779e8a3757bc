-- ===== src/Network/Checksum.antt =====
-- The checksum of src/rtl8139.c is the one's complement sum, and a receiver's test of it succeeds.
use my_kernel.Base.{
  ℕ, zero, suc, ◌+◌, ◌-◌, ◌*◌, ◌/◌, ◌%◌, ◌^◌, ◌<◌, ◌≤◌, ◌≡◌, refl, ap, sym, ◌∙◌, ◌==◌,
  if◌then◌else◌, bit_and, List, [], ◌∷◌, arith, ==_iff, ne→not_==, ℕ_discrete,
}
use my_kernel.Base.Bits.{bit_and-mask, bit_or-fields}
use my_kernel.Network.Frames.{
  sum_words, fold_sum, complement, net_checksum, two, ip_fields, ip_header,
}

-- The one's complement sum: the remainder by 2^16 - 1, where a sum that is not 0 does not get 0.
abbrev pub ones_sum : ℕ → ℕ
ones_sum sum = if sum == 0 then 0 else (sum + 65534) % 65535 + 1

ones_sum-small : (sum : ℕ) → sum < 2 ^ 16 → ones_sum sum ≡ sum
ones_sum-small sum fits = elim (ℕ_discrete sum 0) [
  | yes e ↦ rw ((==_iff sum 0).1 e) (sym e)
  | no ne ↦ rw (ne→not_== sum 0 ne) (omega arith)
]

ones_sum-step : (sum : ℕ) → ones_sum (sum % 2 ^ 16 + sum / 2 ^ 16) ≡ ones_sum sum
ones_sum-step sum = elim (ℕ_discrete sum 0) [
  | yes e ↦ let f : sum % 2 ^ 16 + sum / 2 ^ 16 ≡ sum = omega arith in ap ones_sum f
  | no ne ↦
      rw (ne→not_== sum 0 ne, ne→not_== (sum % 2 ^ 16 + sum / 2 ^ 16) 0 (omega arith)) (omega arith)
]

-- A bound on a sum, that four rounds bring below 2^16.
abbrev bound : ℕ → ℕ
bound zero = 2 ^ 16
bound (suc zero) = 2 ^ 16
bound (suc (suc zero)) = 2 ^ 16 + 1
bound (suc (suc (suc zero))) = 2 ^ 17
bound (suc (suc (suc (suc n)))) = 2 ^ 32

bound-step : (n sum : ℕ) → sum < bound (suc n) → n < 4 → sum % 2 ^ 16 + sum / 2 ^ 16 < bound n
bound-step zero sum lt le = omega arith
bound-step (suc zero) sum lt le = omega arith
bound-step (suc (suc zero)) sum lt le = omega arith
bound-step (suc (suc (suc zero))) sum lt le = omega arith
bound-step (suc (suc (suc (suc n)))) sum lt le = absurd (omega arith)

fold_sum-ones_sum : (fuel sum : ℕ) → fuel ≤ 4 → sum < bound fuel → fold_sum fuel sum ≡ ones_sum sum
unfolding fold_sum
fold_sum-ones_sum zero sum le lt = sym (ones_sum-small sum lt)
fold_sum-ones_sum (suc fuel) sum le lt =
    let low : bit_and sum 0xFFFF ≡ sum % 2 ^ 16 = bit_and-mask 16 sum in
    elim (ℕ_discrete (sum / 2 ^ 16) 0) [
      | yes small ↦ rw ((==_iff _ 0).1 small) (sym (ones_sum-small sum (omega arith)))
      | no large ↦
          rw (ne→not_== _ 0 large, low)
            (fold_sum-ones_sum fuel (sum % 2 ^ 16 + sum / 2 ^ 16) (omega arith)
                (bound-step fuel sum lt (omega arith))
              ∙ ones_sum-step sum)
    ]

-- Folding a sum of 32 bits gives its one's complement sum: four rounds are enough.
pub fold_sum_lem : (sum : ℕ) → sum < 2 ^ 32 → fold_sum 4 sum ≡ ones_sum sum
fold_sum_lem sum fits = fold_sum-ones_sum 4 sum (omega arith) fits

-- The complement of a sum makes the sum up to 2^16 - 1.
complement-sum :
    (sum : ℕ) → sum + 2 ^ 16 < 2 ^ 32 → ones_sum (sum + complement (ones_sum sum)) ≡ 65535
complement-sum sum fits = elim (ℕ_discrete sum 0) [
  | yes e ↦
      let f : ones_sum (sum + complement (ones_sum sum)) ≡ ones_sum (0 + complement (ones_sum 0)) =
        ap (λ (t : ℕ). ones_sum (t + complement (ones_sum t))) e in
      f
  | no ne ↦
      let c : complement ((sum + 65534) % 65535 + 1) ≡ 65535 - ((sum + 65534) % 65535 + 1) =
        omega arith in
      rw
        (
          ne→not_== sum 0 ne,
          c,
          ne→not_== (sum + (65535 - ((sum + 65534) % 65535 + 1))) 0 (omega arith),
        )
        (omega arith)
]

-- The words of two lists, where the first has an even length.
pub sum_words-pair :
    (a b : ℕ) (bs : List ℕ)
    → a < 256
    → b < 256
    → sum_words (a ∷ b ∷ bs) ≡ a * 256 + b + sum_words bs
unfolding sum_words
sum_words-pair a b bs fa fb = rw (bit_or-fields 8 a b fb) refl

high_byte : (w : ℕ) → w < 2 ^ 16 → bit_and (w / 2 ^ 8) 0xFF ≡ w / 256
high_byte w fits = bit_and-mask 8 (w / 2 ^ 8) ∙ omega arith

low_byte : (w : ℕ) → bit_and w 0xFF ≡ w % 256
low_byte w = bit_and-mask 8 w

two_lem : (w : ℕ) → w < 2 ^ 16 → two w ≡ w / 256 ∷ w % 256 ∷ []
two_lem w fits = rw (high_byte w fits, low_byte w) refl

-- The sum of the other words of a header.
abbrev header_rest : ℕ → ℕ → ℕ → ℕ → ℕ → ℕ → ℕ → ℕ → ℕ → ℕ
header_rest ip_len id_high id_low fragment protocol a b c d =
    0x4500
    + ip_len
    + (id_high * 256 + id_low)
    + fragment * 256
    + (0x4000 + protocol)
    + 2560
    + 527
    + (a * 256 + b)
    + (c * 256 + d)

header_sum :
    (x y ip_len id_high id_low fragment protocol a b c d : ℕ)
    → x < 256
    → y < 256
    → ip_len < 2 ^ 16
    → id_low < 256
    → protocol < 256
    → b < 256
    → d < 256
    → sum_words
        (ip_fields (x ∷ y ∷ []) ip_len id_high id_low fragment protocol (a ∷ b ∷ c ∷ d ∷ []))
      ≡ x * 256 + y + header_rest ip_len id_high id_low fragment protocol a b c d
unfolding sum_words
header_sum x y ip_len id_high id_low fragment protocol a b c d fx fy fl fi fp fb fd =
    rw
      (
        high_byte ip_len fl,
        low_byte ip_len,
        bit_or-fields 8 (ip_len / 256) (ip_len % 256) (omega arith),
        bit_or-fields 8 id_high id_low fi,
        bit_or-fields 8 fragment 0 (omega arith),
        bit_or-fields 8 0x40 protocol fp,
        bit_or-fields 8 x y fy,
        bit_or-fields 8 a b fb,
        bit_or-fields 8 c d fd,
      )
      (omega arith)

-- A receiver that sums an IPv4 header of the driver, its checksum included, gets 0, whatever the
-- length, the identification, the protocol and the address of the receiver are; the fields are
-- bytes, and the length has 16 bits.
pub net_checksum-ip_header :
    (ip_len id_high id_low fragment protocol a b c d : ℕ)
    → ip_len < 2 ^ 16
    → id_high < 256
    → id_low < 256
    → fragment < 256
    → protocol < 256
    → a < 256
    → b < 256
    → c < 256
    → d < 256
    → net_checksum (ip_header ip_len id_high id_low fragment protocol (a ∷ b ∷ c ∷ d ∷ [])) ≡ 0
unfolding net_checksum ip_header
net_checksum-ip_header ip_len id_high id_low fragment protocol a b c d fl fh fi ff fp fa fb fc fd =
    let rest = header_rest ip_len id_high id_low fragment protocol a b c d in
    let plain : sum_words
            (ip_fields (0 ∷ 0 ∷ []) ip_len id_high id_low fragment protocol (a ∷ b ∷ c ∷ d ∷ []))
          % 2 ^ 32
        ≡ rest =
      omega (
        arith,
        header_sum 0 0 ip_len id_high id_low fragment protocol a b c d (omega arith) (omega arith)
            fl fi fp fb fd,
      ) in
    let k = complement (ones_sum rest) in
    let small : k < 2 ^ 16 = omega arith in
    let csum : net_checksum
          (ip_fields (0 ∷ 0 ∷ []) ip_len id_high id_low fragment protocol (a ∷ b ∷ c ∷ d ∷ []))
        ≡ k =
      ap (λ t. complement (fold_sum 4 t)) plain ∙ ap complement (fold_sum_lem rest (omega arith)) in
    let total : sum_words (
            ip_fields (k / 256 ∷ k % 256 ∷ []) ip_len id_high id_low fragment protocol
              (a ∷ b ∷ c ∷ d ∷ []))
          % 2 ^ 32
        ≡ rest + k =
      omega (
        arith,
        header_sum (k / 256) (k % 256) ip_len id_high id_low fragment protocol a b c d (omega arith)
            (omega arith) fl fi fp fb fd,
      ) in
    let receiver : List ℕ → ℕ = λ t.
      net_checksum (ip_fields t ip_len id_high id_low fragment protocol (a ∷ b ∷ c ∷ d ∷ [])) in
    ap receiver (ap two csum ∙ two_lem k small)
    ∙ ap (λ t. complement (fold_sum 4 t)) total
    ∙ ap complement (fold_sum_lem (rest + k) (omega arith) ∙ complement-sum rest (omega arith))
