-- ===== src/Protocol/ConnectAck.antt =====
-- `MqttConnectAck` of src/mqtt/Protocol.hpp and src/mqtt/Protocol.cpp.
use k_mqttd.Base.{
  ℕ, ◌+◌, ◌*◌, ◌%◌, ◌^◌, List, [], ◌∷◌, length, Exec, ret, ◌>>=◌, false, ℤ, int_of_size,
}
use k_mqttd.Protocol.Header.{MqttHeader, Stale, connack, qos0, make_header}
use k_mqttd.Protocol.Frame.{Encoded, frame, at, read_header, read_length}

-- `CONNECTSTATUS`.
pub data ConnectStatus : Type 0 where
  finish nosupport_ver client_id_error service_forbidden user_or_passwd_error : ConnectStatus
  auth_fault : ConnectStatus

abbrev status_code : ConnectStatus → ℕ
status_code finish = 0
status_code nosupport_ver = 1
status_code client_id_error = 2
status_code service_forbidden = 3
status_code user_or_passwd_error = 4
status_code auth_fault = 5

-- `result` is the four bytes of the enumeration, which `decode` copies from the buffer.
pub record MqttConnectAck : Type 0 where
  pub size : ℕ
  pub header : MqttHeader
  pub sp : ℕ
  pub result : ℕ

abbrev pub blank : Stale → MqttConnectAck
blank s = record { size = s.size; header = s.header; sp = s.byte; result = s.word }

unfoldable pub make : ℕ → ConnectStatus → MqttConnectAck
make status code = record {
  size = 2;
  header = make_header false qos0 false connack;
  sp = status;
  result = status_code code;
}

unfoldable pub encode : MqttConnectAck → List ℕ → Encoded MqttConnectAck
encode m buf = frame m m.header m.size (m.sp ∷ (m.result % 256) ∷ []) buf

-- `* ( (CONNECTSTATUS*) (&buf[i]) )`: four bytes, lowest first.
unfoldable pub load_status : List ℕ → ℕ → Exec ℕ
load_status buf i = do
  b0 ← at buf i
  b1 ← at buf (i + 1)
  b2 ← at buf (i + 2)
  b3 ← at buf (i + 3)
  ret (b0 + b1 * 2 ^ 8 + b2 * 2 ^ 16 + b3 * 2 ^ 24)

unfoldable pub decode : MqttConnectAck → List ℕ → Exec (MqttConnectAck × ℤ)
decode m buf = do
  header ← read_header buf
  (size, step) ← read_length buf
  sp ← at buf step
  result ← load_status buf (step + 1)
  ret (
    record m { header = header; size = size; sp = sp; result = result },
    int_of_size (length buf),
  )
