-- ===== src/Tests/Read.antt =====
-- Runs of `do_read_len` of src/MqttSession.hpp.
use k_mqttd.Base.{ℕ, ◌≤◌, ◌≡◌, refl, [], ◌∷◌, ◌++◌, some, map, take, arith, ret, ◌>>=◌}
use k_mqttd.Wire.Length.{dec_len}
use k_mqttd.Session.Read.{done, read_len}
use k_mqttd.Session.Read.Pieces.{concat, read_len-field}

-- The length 321, whose second byte comes later.
read_len-field_example :
    (b : ℕ) × (read_len 4 (0xc1 ∷ []) (map some ((0x02 ∷ []) ∷ []))
      ≡ (do v ← dec_len (take 2 ((0xc1 ∷ []) ++ concat ((0x02 ∷ []) ∷ []))); ret (done v 2 b)))
    × (2 ≤ b)
    × (b ≤ 4)
read_len-field_example = read_len-field 4 (0xc1 ∷ []) ((0x02 ∷ []) ∷ []) 2 refl (omega arith) refl
