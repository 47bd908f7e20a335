-- ===== src/Protocol/Subscribe.antt =====
-- `MqttSubscribe` of src/mqtt/Protocol.hpp and src/mqtt/Protocol.cpp.
use k_mqttd.Base.{
  ℕ, zero, suc, ◌+◌, ◌%◌, ◌^◌, List, [], ◌∷◌, ◌++◌, length, Exec, ret, ◌>>=◌, false, ℤ, int_of_size,
  ltb, ◌==◌, if◌then◌else◌,
}
use k_mqttd.Wire.Words.{htons, memory16}
use k_mqttd.Protocol.Header.{MqttHeader, Stale, subscribe, qos1, make_header}
use k_mqttd.Protocol.Frame.{
  Encoded, frame, refuse, text_field, at, copy_range, copy_into16, read_header, read_length,
}

-- Each topic with the highest quality of service that is asked for.
pub record MqttSubscribe : Type 0 where
  pub size : ℕ
  pub header : MqttHeader
  pub seq : ℕ
  pub topics : List (List ℕ × ℕ)

abbrev pub blank : Stale → MqttSubscribe
blank s = record { size = s.size; header = s.header; seq = s.word; topics = [] }

unfoldable pub make : ℕ → Stale → MqttSubscribe
make seq s = record {
  size = s.size;
  header = make_header false qos1 false subscribe;
  seq = seq;
  topics = [];
}

unfoldable pub add_topic : MqttSubscribe → List ℕ → ℕ → MqttSubscribe
add_topic m topic qos = record m { topics = m.topics ++ ((topic, qos % 256) ∷ []) }

unfoldable pub payload_len : List (List ℕ × ℕ) → ℕ
payload_len [] = 0
payload_len ((topic, qos) ∷ ts) = ((length topic + 2) % 2 ^ 32 + payload_len ts) % 2 ^ 32

unfoldable pub packet_size : MqttSubscribe → ℕ
unfolding payload_len
packet_size m = (payload_len m.topics + 2) % 2 ^ 32

unfoldable pub topic_fields : List (List ℕ × ℕ) → List ℕ
topic_fields [] = []
topic_fields ((topic, qos) ∷ ts) = text_field topic ++ ((qos % 256) ∷ topic_fields ts)

-- `seq` goes through `htons` twice.
unfoldable pub packet_body : MqttSubscribe → List ℕ
unfolding topic_fields
packet_body m = memory16 (htons (htons m.seq)) ++ topic_fields m.topics

unfoldable pub encode : MqttSubscribe → List ℕ → Encoded MqttSubscribe
encode m buf =
    if length m.topics == 0
    then refuse m 0 buf
    else frame (record m { size = packet_size m }) m.header (packet_size m) (packet_body m) buf

-- `while (this->size + 1 > step)`, by the rounds left; each moves `step` on by five.
unfoldable pub decode_topics : ℕ → MqttSubscribe → List ℕ → ℕ → ℕ → Exec MqttSubscribe
decode_topics zero m buf step t = ret m
decode_topics (suc rounds) m buf step t =
    if ltb step ((m.size + 1) % 2 ^ 32)
    then (do
      t' ← copy_into16 t buf step 2
      topic ← copy_range buf (step + 2) (htons t')
      qos ← at buf (step + 4)
      decode_topics rounds (add_topic m topic qos) buf (step + 5) t')
    else ret m

unfoldable pub decode : MqttSubscribe → List ℕ → Exec (MqttSubscribe × ℤ)
unfolding decode_topics
decode m buf = do
  header ← read_header buf
  (size, step) ← read_length buf
  t ← copy_into16 0 buf step 2
  m' ←
      decode_topics (size + 1) (record m { header = header; size = size; seq = htons t }) buf
        (step + 2) t
  ret (m', int_of_size (length buf))
