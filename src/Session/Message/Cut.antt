-- ===== src/Session/Message/Cut.antt =====
-- A message whose first read ends in its length field.
use k_mqttd.Base.{ℕ, ◌+◌, ◌<◌, ◌≡◌, ap, ◌∙◌, some, [], ◌∷◌, ◌++◌, arith, ret}
use k_mqttd.Wire.Length.{dec_len_loop, dec_len}
use k_mqttd.Wire.Length.Decode.{inner_byte}
use k_mqttd.Protocol.Header.{Stale, header_of_byte}
use k_mqttd.Session.State.{MqttSession, reading_rest}
use k_mqttd.Session.Message.{zeros, on_head}
use k_mqttd.Session.Message.Whole.{on_head-found}

zero_behind : (g : ℕ) → g < 128 → dec_len ((g + 128) ∷ 0 ∷ []) ≡ ret g
unfolding dec_len dec_len_loop
zero_behind g h =
    inner_byte g 0 0 (0 ∷ []) (omega arith) h (omega arith) (omega arith) ∙ ap ret (omega arith)

-- A length of more than 127 whose first byte is the last one of the first read: the zero behind it is
-- taken for the end of the field.
on_head-cut :
    (st : Stale) (now first g : ℕ) (s : MqttSession)
    → 0 < g
    → g < 128
    → on_head st now (some (first ∷ (g + 128) ∷ [])) s
      ≡ ret (record s {
        phase = reading_rest ((first ∷ (g + 128) ∷ []) ++ zeros g) 2 (header_of_byte first) g;
      })
on_head-cut st now first g s more small =
    on_head-found st now first (g + 128) [] 2 g s (omega arith) (ground arith) (zero_behind g small)
      more
