-- ===== src/Wire/Length/Varint.antt =====
-- The remaining length field of MQTT 3.1.1 (section 2.2.3), as the reference for `encLen` and
-- `decLen`: groups of seven bits, lowest first, the top bit set on every byte but the last.
use k_mqttd.Base.{
  ℕ, zero, suc, ◌+◌, ◌/◌, ◌%◌, ◌≤◌, List, [], ◌∷◌, ltb, if◌then◌else◌, length, arith,
}

-- At most `k + 1` bytes.
unfoldable pub varint_upto : ℕ → ℕ → List ℕ
varint_upto zero n = n ∷ []
varint_upto (suc k) n =
    let rest = varint_upto k (n / 128) in if ltb n 128 then n ∷ [] else (n % 128 + 128) ∷ rest

unfoldable pub varint : ℕ → List ℕ
unfolding varint_upto
varint n = varint_upto 3 n

pub length-varint_upto :
    (k n : ℕ) → (1 ≤ length (varint_upto k n)) × (length (varint_upto k n) ≤ suc k)
unfolding varint_upto
length-varint_upto zero n = omega arith
length-varint_upto (suc k) n = ground (arith, length-varint_upto k (n / 128))
