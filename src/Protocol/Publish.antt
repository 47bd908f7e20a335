-- ===== src/Protocol/Publish.antt =====
-- `MqttPublish` of src/mqtt/Protocol.hpp and src/mqtt/Protocol.cpp.
pub mod Wire
use k_mqttd.Base.{
  ℕ, ◌+◌, ◌-◌, ◌%◌, ◌^◌, List, [], ◌++◌, length, Exec, ret, ◌>>=◌, Bool, ℤ, int_of_size, ltb,
  if◌then◌else◌,
}
use k_mqttd.Wire.Words.{htons, htonl, memory16, sign_extend16}
use k_mqttd.Protocol.Header.{MqttHeader, Stale, publish, qos0, make_header}
use k_mqttd.Protocol.Frame.{
  Encoded, frame, copy_range, copy_into16, read_header, read_length, read_text,
}

pub record MqttPublish : Type 0 where
  pub size : ℕ
  pub header : MqttHeader
  pub topic : List ℕ
  pub seq : ℕ
  pub payload : List ℕ

abbrev pub blank : Stale → MqttPublish
blank s = record { size = s.size; header = s.header; topic = []; seq = s.word; payload = [] }

-- The two constructors pass their flags in the order `dup`, `qos`, `retain`.
unfoldable pub make_qos0 : Bool → Bool → List ℕ → List ℕ → Stale → MqttPublish
make_qos0 dup retain topic payload s = record {
  size = s.size;
  header = make_header dup qos0 retain publish;
  topic = topic;
  seq = 0;
  payload = payload;
}

unfoldable pub make : Bool → ℕ → Bool → ℕ → List ℕ → List ℕ → Stale → MqttPublish
make dup qos retain seq topic payload s = record {
  size = s.size;
  header = make_header dup qos retain publish;
  topic = topic;
  seq = seq;
  payload = payload;
}

unfoldable pub packet_size : MqttPublish → ℕ
packet_size m =
    ((2 + length m.topic + length m.payload) % 2 ^ 32 + (if ltb 0 m.header.qos then 2 else 0))
    % 2 ^ 32

-- The identifier goes through `htonl` and is then cut to 16 bits.
unfoldable pub packet_id : MqttPublish → List ℕ
packet_id m = if ltb 0 m.header.qos then memory16 (htonl (sign_extend16 m.seq) % 2 ^ 16) else []

-- The length of the topic goes through `htons` twice.
unfoldable pub packet_body : MqttPublish → List ℕ
packet_body m = memory16 (htons (htons (length m.topic))) ++ (m.topic ++ (packet_id m ++ m.payload))

unfoldable pub encode : MqttPublish → List ℕ → Encoded MqttPublish
encode m buf =
    frame (record m { size = packet_size m }) m.header (packet_size m) (packet_body m) buf

-- Where the quality of service is 0 there is no identifier: `seq`, `step` and `t` stay.
read_id : MqttHeader → ℕ → ℕ → List ℕ → ℕ → Exec (ℕ × ℕ)
read_id header seq t buf step =
    if ltb 0 header.qos
    then (do t' ← copy_into16 t buf step 2; ret (htons t', step + 2))
    else ret (seq, step)

unfoldable pub decode : MqttPublish → List ℕ → Exec (MqttPublish × ℤ)
unfolding read_id
decode m buf = do
  header ← read_header buf
  (size, step) ← read_length buf
  (topic, step1, t) ← read_text 0 buf step
  (seq, step2) ← read_id header m.seq t buf step1
  payload ← copy_range buf step2 ((size + 2 ^ 64 - (step2 - 1)) % 2 ^ 16)
  ret (
    record m {
      header = header;
      size = size;
      topic = m.topic ++ topic;
      seq = seq;
      payload = m.payload ++ payload;
    },
    int_of_size (length buf),
  )
