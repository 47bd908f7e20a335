-- ===== src/Wire/Length/Encode.antt =====
-- `encLen` against the reference, and against `decLen`.
use mathlib.Core.List.{reverse}
use native.Mathlib.Decide.{dec_lt}
use k_mqttd.Base.{ℕ, ◌/◌, ◌%◌, ◌^◌, ◌<◌, ◌≤◌, ◌≡◌, none, some, List, ◌∷◌, arith, ret, ◌⊎◌, inl, inr}
use k_mqttd.Base.Bits.{bit_or_top_bit, bit_and_seven_bits}
use k_mqttd.Wire.Length.{enc_len, len_groups, dec_len}
use k_mqttd.Wire.Length.Varint.{varint}

len_groups-varint :
    (n : ℕ)
    → n < 2 ^ 28
    → len_groups (n % 128) (n / 2 ^ 7 % 128) (n / 2 ^ 14 % 128) (n / 2 ^ 21 % 128)
      ≡ reverse (varint n)
unfolding len_groups varint
len_groups-varint n h = ground (
  arith,
  bit_or_top_bit (n % 128),
  bit_or_top_bit (n / 2 ^ 7 % 128),
  bit_or_top_bit (n / 2 ^ 14 % 128),
)

-- `encLen` refuses exactly the lengths past 268,435,455, and writes any other as one zero byte
-- followed by the bytes of the standard in reverse order.
pub enc_len_lem :
    (n : ℕ)
    → ((0x0fffffff < n) × (enc_len n ≡ none))
      ⊎ ((n ≤ 0x0fffffff) × (enc_len n ≡ some (0 ∷ reverse (varint n))))
unfolding enc_len
enc_len_lem n = elim (dec_lt 0x0fffffff n) [
  | yes h ↦ inl (h, ground arith)
  | no h ↦ inr (
    omega arith,
    ground (
      arith,
      bit_and_seven_bits n,
      bit_and_seven_bits (n / 2 ^ 7),
      bit_and_seven_bits (n / 2 ^ 14),
      bit_and_seven_bits (n / 2 ^ 21),
      len_groups-varint n,
    ),
  )
]

-- What `encLen` writes, `decLen` reads as 0.
dec_len-enc_len : (n : ℕ) (bytes : List ℕ) → enc_len n ≡ some bytes → dec_len bytes ≡ ret 0
unfolding enc_len dec_len
dec_len-enc_len n bytes e = ground arith
