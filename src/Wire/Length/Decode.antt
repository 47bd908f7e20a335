-- ===== src/Wire/Length/Decode.antt =====
-- `decLen` against the reference.
use native.Mathlib.Nat.{div-add-mod}
use native.Mathlib.Numerals.{towards_suc}
use k_mqttd.Base.{
  ℕ, zero, suc, ◌+◌, ◌*◌, ◌/◌, ◌%◌, ◌^◌, ◌<◌, ◌≤◌, ◌≡◌, ap, List, [], ◌∷◌, arith, ret,
}
use k_mqttd.Base.Bits.{bit_or-shifted, bit_and_seven_bits}
use k_mqttd.Wire.Length.{dec_len_loop, dec_len}
use k_mqttd.Wire.Length.Varint.{varint_upto, varint}

pow_seven : (i : ℕ) → 2 ^ ((i + 1) * 7) ≡ 128 * 2 ^ (i * 7)
pow_seven i = let e : (i + 1) * 7 ≡ i * 7 + 7 = omega arith in rw e (simp towards_suc (omega arith))

-- One round on a last byte.
last_byte :
    (w i len : ℕ)
    → i ≤ 3
    → w < 128
    → len < 2 ^ (i * 7)
    → len + w * 2 ^ (i * 7) < 2 ^ 28
    → dec_len_loop i len (w ∷ []) ≡ ret (len + w * 2 ^ (i * 7))
unfolding dec_len_loop
last_byte w i len hi hw hl fits = ground (arith, bit_and_seven_bits w, bit_or-shifted (i * 7) len w)

pub inner_byte :
    (g i len : ℕ) (rest : List ℕ)
    → i ≤ 3
    → g < 128
    → len < 2 ^ (i * 7)
    → len + g * 2 ^ (i * 7) < 2 ^ 28
    → dec_len_loop i len ((g + 128) ∷ rest) ≡ dec_len_loop (i + 1) (len + g * 2 ^ (i * 7)) rest
unfolding dec_len_loop
inner_byte g i len rest hi hg hl fits =
    ground (arith, bit_and_seven_bits (g + 128), bit_or-shifted (i * 7) len g)

-- The lowest group of `n` and the rest, both from bit `7 * i` on.
split_group : (n i : ℕ) → n * 2 ^ (i * 7) ≡ n % 128 * 2 ^ (i * 7) + n / 128 * 2 ^ ((i + 1) * 7)
split_group n i = omega (
  arith,
  ap (λ (t : ℕ). t * 2 ^ (i * 7)) (div-add-mod n 128),
  ap (λ (t : ℕ). n / 128 * t) (pow_seven i),
)

group_fits : (g i len : ℕ) → g < 128 → len < 2 ^ (i * 7) → len + g * 2 ^ (i * 7) < 2 ^ ((i + 1) * 7)
group_fits g i len hg hl = grind (arith, pow_seven i)

dec_len_loop-varint_upto :
    (k i len n : ℕ)
    → i + k ≤ 3
    → n < 128 ^ suc k
    → len < 2 ^ (i * 7)
    → len + n * 2 ^ (i * 7) < 2 ^ 28
    → dec_len_loop i len (varint_upto k n) ≡ ret (len + n * 2 ^ (i * 7))
unfolding varint_upto
dec_len_loop-varint_upto zero i len n hi hn hl fits = last_byte n i len (omega arith) hn hl fits
dec_len_loop-varint_upto (suc k) i len n hi hn hl fits = ground (
  arith,
  last_byte n i len,
  split_group n i,
  group_fits (n % 128) i len,
  inner_byte (n % 128) i len (varint_upto k (n / 128)),
  dec_len_loop-varint_upto k (i + 1) (len + n % 128 * 2 ^ (i * 7)) (n / 128) (omega arith)
      (omega arith),
)

-- `decLen` reads every remaining length that MQTT allows, at most 268,435,455, from the bytes that
-- the standard prescribes for it.
pub dec_len-varint : (n : ℕ) → n < 2 ^ 28 → dec_len (varint n) ≡ ret n
unfolding dec_len varint
dec_len-varint n h = ground (arith, dec_len_loop-varint_upto 3 0 0 n)
