-- ===== src/Base/Int.antt =====
-- Signed results. `negsuc n` is -(n + 1).
use Prim.Native.Nat.{ℕ, ◌-◌, ◌%◌, ◌^◌}
use k_mqttd.Base.Tests.{ltb, if◌then◌else◌}

pub data ℤ : Type 0 where
  pos : ℕ → ℤ
  negsuc : ℕ → ℤ

-- `(Int) n` for a `size_t`: the low 32 bits, read with their sign.
unfoldable pub int_of_size : ℕ → ℤ
int_of_size n =
    let low = n % 2 ^ 32 in if ltb low (2 ^ 31) then pos low else negsuc (2 ^ 32 - low - 1)
