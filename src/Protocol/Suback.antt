-- ===== src/Protocol/Suback.antt =====
-- `MqttSuback` of src/mqtt/Protocol.hpp and src/mqtt/Protocol.cpp. The constructor leaves the size unset.
use k_mqttd.Base.{
  ℕ, ◌+◌, ◌-◌, ◌%◌, ◌^◌, List, [], ◌++◌, length, Exec, ret, ◌>>=◌, false, ℤ, int_of_size,
}
use k_mqttd.Wire.Words.{htons, memory16}
use k_mqttd.Protocol.Header.{MqttHeader, Stale, suback, qos0, make_header}
use k_mqttd.Protocol.Frame.{Encoded, frame, copy_range, copy_into16, read_header, read_length}

pub record MqttSuback : Type 0 where
  pub size : ℕ
  pub header : MqttHeader
  pub seq : ℕ
  pub results : List ℕ

abbrev pub blank : Stale → MqttSuback
blank s = record { size = s.size; header = s.header; seq = s.word; results = [] }

unfoldable pub make : ℕ → List ℕ → Stale → MqttSuback
make seq rets s = record {
  size = s.size;
  header = make_header false qos0 false suback;
  seq = seq;
  results = rets;
}

unfoldable pub encode : MqttSuback → List ℕ → Encoded MqttSuback
encode m buf = frame m m.header m.size (memory16 (htons m.seq) ++ m.results) buf

-- `size + 1 - step` is computed in `Uint` and cut to 16 bits.
unfoldable pub remainder : ℕ → ℕ → ℕ
remainder size step = (size + 1 + 2 ^ 32 - step) % 2 ^ 16

unfoldable pub decode : MqttSuback → List ℕ → Exec (MqttSuback × ℤ)
unfolding remainder
decode m buf = do
  header ← read_header buf
  (size, step) ← read_length buf
  t ← copy_into16 0 buf step 2
  results ← copy_range buf (step + 2) (remainder size (step + 2))
  ret (
    record m { header = header; size = size; seq = htons t; results = m.results ++ results },
    int_of_size (length buf),
  )
