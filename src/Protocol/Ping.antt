-- ===== src/Protocol/Ping.antt =====
-- `MqttPing` of src/mqtt/Protocol.hpp and src/mqtt/Protocol.cpp. The constructor leaves the size unset.
use k_mqttd.Base.{ℕ, List, [], length, Exec, ret, ◌>>=◌, false, ℤ, int_of_size}
use k_mqttd.Protocol.Header.{MqttHeader, Stale, pingreq, qos0, make_header}
use k_mqttd.Protocol.Frame.{Encoded, frame, read_header, read_length}

pub record MqttPing : Type 0 where
  pub size : ℕ
  pub header : MqttHeader

unfoldable pub make : Stale → MqttPing
make s = record { size = s.size; header = make_header false qos0 false pingreq }

unfoldable pub encode : MqttPing → List ℕ → Encoded MqttPing
encode m buf = frame m m.header m.size [] buf

unfoldable pub decode : MqttPing → List ℕ → Exec (MqttPing × ℤ)
decode m buf = do
  header ← read_header buf
  (size, step) ← read_length buf
  ret (record m { header = header; size = size }, int_of_size (length buf))
