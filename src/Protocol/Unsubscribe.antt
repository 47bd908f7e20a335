-- ===== src/Protocol/Unsubscribe.antt =====
-- `MqttUnsubscribe` of src/mqtt/Protocol.hpp and src/mqtt/Protocol.cpp.
use k_mqttd.Base.{
  ℕ, zero, suc, ◌+◌, ◌%◌, ◌^◌, List, [], ◌∷◌, ◌++◌, length, Exec, ret, ◌>>=◌, false, ℤ, int_of_size,
  ltb, ◌==◌, if◌then◌else◌,
}
use k_mqttd.Wire.Words.{htons, memory16}
use k_mqttd.Protocol.Header.{MqttHeader, Stale, unsubscribe, qos1, make_header}
use k_mqttd.Protocol.Frame.{
  Encoded, frame, refuse, text_field, copy_range, copy_into16, read_header, read_length,
}

pub record MqttUnsubscribe : Type 0 where
  pub size : ℕ
  pub header : MqttHeader
  pub seq : ℕ
  pub topics : List (List ℕ)

abbrev pub blank : Stale → MqttUnsubscribe
blank s = record { size = s.size; header = s.header; seq = s.word; topics = [] }

unfoldable pub make : ℕ → Stale → MqttUnsubscribe
make seq s = record {
  size = s.size;
  header = make_header false qos1 false unsubscribe;
  seq = seq;
  topics = [];
}

-- Adds the topic to those that the message asks to leave.
unfoldable pub del_topic : MqttUnsubscribe → List ℕ → MqttUnsubscribe
del_topic m topic = record m { topics = m.topics ++ (topic ∷ []) }

unfoldable pub payload_len : List (List ℕ) → ℕ
payload_len [] = 0
payload_len (topic ∷ ts) = (length topic % 2 ^ 32 + payload_len ts) % 2 ^ 32

unfoldable pub packet_size : MqttUnsubscribe → ℕ
unfolding payload_len
packet_size m = (payload_len m.topics + 2) % 2 ^ 32

unfoldable pub topic_fields : List (List ℕ) → List ℕ
topic_fields [] = []
topic_fields (topic ∷ ts) = text_field topic ++ topic_fields ts

-- `seq` goes through `htons` twice.
unfoldable pub packet_body : MqttUnsubscribe → List ℕ
unfolding topic_fields
packet_body m = memory16 (htons (htons m.seq)) ++ topic_fields m.topics

unfoldable pub encode : MqttUnsubscribe → List ℕ → Encoded MqttUnsubscribe
encode m buf =
    if length m.topics == 0
    then refuse m 0 buf
    else frame (record m { size = packet_size m }) m.header (packet_size m) (packet_body m) buf

-- `while (this->size + 1 > step)`, by the rounds left; each moves `step` on by four.
unfoldable pub decode_topics : ℕ → MqttUnsubscribe → List ℕ → ℕ → ℕ → Exec MqttUnsubscribe
decode_topics zero m buf step t = ret m
decode_topics (suc rounds) m buf step t =
    if ltb step ((m.size + 1) % 2 ^ 32)
    then (do
      t' ← copy_into16 t buf step 2
      topic ← copy_range buf (step + 2) (htons t')
      decode_topics rounds (del_topic m topic) buf (step + 4) t')
    else ret m

unfoldable pub decode : MqttUnsubscribe → List ℕ → Exec (MqttUnsubscribe × ℤ)
unfolding decode_topics
decode m buf = do
  header ← read_header buf
  (size, step) ← read_length buf
  t ← copy_into16 0 buf step 2
  m' ←
      decode_topics (size + 1) (record m { header = header; size = size; seq = htons t }) buf
        (step + 2) t
  ret (m', int_of_size (length buf))
