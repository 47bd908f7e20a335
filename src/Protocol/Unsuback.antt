-- ===== src/Protocol/Unsuback.antt =====
-- `MqttUnsuback` of src/mqtt/Protocol.hpp and src/mqtt/Protocol.cpp. The constructor leaves the size unset.
use k_mqttd.Base.{ℕ, List, length, Exec, ret, ◌>>=◌, false, ℤ, int_of_size}
use k_mqttd.Wire.Words.{htons, memory16}
use k_mqttd.Protocol.Header.{MqttHeader, Stale, unsuback, qos0, make_header}
use k_mqttd.Protocol.Frame.{Encoded, frame, copy_into16, read_header, read_length}

pub record MqttUnsuback : Type 0 where
  pub size : ℕ
  pub header : MqttHeader
  pub seq : ℕ

-- The constructor with no argument assigns nothing.
abbrev pub blank : Stale → MqttUnsuback
blank s = record { size = s.size; header = s.header; seq = s.word }

unfoldable pub make : ℕ → Stale → MqttUnsuback
make seq s = record { size = s.size; header = make_header false qos0 false unsuback; seq = seq }

unfoldable pub encode : MqttUnsuback → List ℕ → Encoded MqttUnsuback
encode m buf = frame m m.header m.size (memory16 (htons m.seq)) buf

unfoldable pub decode : MqttUnsuback → List ℕ → Exec (MqttUnsuback × ℤ)
decode m buf = do
  header ← read_header buf
  (size, step) ← read_length buf
  t ← copy_into16 0 buf step 2
  ret (record m { header = header; size = size; seq = htons t }, int_of_size (length buf))
