-- ===== src/Protocol/Pong.antt =====
-- `MqttPong` of src/mqtt/Protocol.hpp and src/mqtt/Protocol.cpp. The constructor leaves the size unset.
use k_mqttd.Base.{ℕ, List, [], length, Exec, ret, ◌>>=◌, false, ℤ, int_of_size}
use k_mqttd.Protocol.Header.{MqttHeader, Stale, pingresp, qos0, make_header}
use k_mqttd.Protocol.Frame.{Encoded, frame, read_header, read_length}

pub record MqttPong : Type 0 where
  pub size : ℕ
  pub header : MqttHeader

unfoldable pub make : Stale → MqttPong
make s = record { size = s.size; header = make_header false qos0 false pingresp }

unfoldable pub encode : MqttPong → List ℕ → Encoded MqttPong
encode m buf = frame m m.header m.size [] buf

unfoldable pub decode : MqttPong → List ℕ → Exec (MqttPong × ℤ)
decode m buf = do
  header ← read_header buf
  (size, step) ← read_length buf
  ret (record m { header = header; size = size }, int_of_size (length buf))
