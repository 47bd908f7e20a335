-- ===== src/Protocol/Pubrel.antt =====
-- `MqttPubrel` of src/mqtt/Protocol.hpp and src/mqtt/Protocol.cpp. QoS 2: the answer to PUBREC.
use k_mqttd.Base.{ℕ, List, length, Exec, ret, ◌>>=◌, false, ℤ, int_of_size}
use k_mqttd.Wire.Words.{htons, memory16}
use k_mqttd.Protocol.Header.{MqttHeader, Stale, pubrel, qos1, make_header}
use k_mqttd.Protocol.Frame.{Encoded, frame, copy_into16, read_header, read_length}

pub record MqttPubrel : Type 0 where
  pub size : ℕ
  pub header : MqttHeader
  pub seq : ℕ

-- The constructor with no argument assigns nothing.
abbrev pub blank : Stale → MqttPubrel
blank s = record { size = s.size; header = s.header; seq = s.word }

unfoldable pub make : ℕ → MqttPubrel
make seq = record { size = 2; header = make_header false qos1 false pubrel; seq = seq }

unfoldable pub encode : MqttPubrel → List ℕ → Encoded MqttPubrel
encode m buf = frame m m.header m.size (memory16 (htons m.seq)) buf

unfoldable pub decode : MqttPubrel → List ℕ → Exec (MqttPubrel × ℤ)
decode m buf = do
  header ← read_header buf
  (size, step) ← read_length buf
  t ← copy_into16 0 buf step 2
  ret (record m { header = header; size = size; seq = htons t }, int_of_size (length buf))
