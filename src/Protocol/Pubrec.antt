-- ===== src/Protocol/Pubrec.antt =====
-- `MqttPubrec` of src/mqtt/Protocol.hpp and src/mqtt/Protocol.cpp. QoS 2: the first answer to PUBLISH.
use k_mqttd.Base.{ℕ, List, length, Exec, ret, ◌>>=◌, false, ℤ, int_of_size}
use k_mqttd.Wire.Words.{htons, memory16}
use k_mqttd.Protocol.Header.{MqttHeader, Stale, pubrec, qos0, make_header}
use k_mqttd.Protocol.Frame.{Encoded, frame, copy_into16, read_header, read_length}

pub record MqttPubrec : Type 0 where
  pub size : ℕ
  pub header : MqttHeader
  pub seq : ℕ

-- The constructor with no argument assigns nothing.
abbrev pub blank : Stale → MqttPubrec
blank s = record { size = s.size; header = s.header; seq = s.word }

unfoldable pub make : ℕ → MqttPubrec
make seq = record { size = 2; header = make_header false qos0 false pubrec; seq = seq }

unfoldable pub encode : MqttPubrec → List ℕ → Encoded MqttPubrec
encode m buf = frame m m.header m.size (memory16 (htons m.seq)) buf

unfoldable pub decode : MqttPubrec → List ℕ → Exec (MqttPubrec × ℤ)
decode m buf = do
  header ← read_header buf
  (size, step) ← read_length buf
  t ← copy_into16 0 buf step 2
  ret (record m { header = header; size = size; seq = htons t }, int_of_size (length buf))
