-- ===== src/Protocol/Undercount.antt =====
-- The sizes that SUBSCRIBE and UNSUBSCRIBE declare.
use k_mqttd.Base.{ℕ, ◌+◌, ◌*◌, ◌%◌, ◌^◌, ◌≡◌, List, [], ◌∷◌, length, length-append, arith}
use k_mqttd.Protocol.Connect
use k_mqttd.Protocol.Connect.{MqttConnect}
use k_mqttd.Protocol.Connect.Accept.{packet_size-length}
use k_mqttd.Protocol.Publish
use k_mqttd.Protocol.Publish.{MqttPublish}
use k_mqttd.Protocol.Publish.Wire.{packet_size-body}
use k_mqttd.Protocol.Frame.Write.{length-text_field}
use k_mqttd.Protocol.Frame.{text_field}
use k_mqttd.Wire.Words.{memory16}
use k_mqttd.Protocol.Subscribe
use k_mqttd.Protocol.Subscribe.{MqttSubscribe}
use k_mqttd.Protocol.Unsubscribe
use k_mqttd.Protocol.Unsubscribe.{MqttUnsubscribe}

subscribe_topics :
    (ts : List (List ℕ × ℕ))
    → (Subscribe.payload_len ts + length ts) % 2 ^ 32 ≡ length (Subscribe.topic_fields ts) % 2 ^ 32
unfolding Subscribe.payload_len Subscribe.topic_fields
subscribe_topics [] = omega arith
subscribe_topics ((topic, qos) ∷ ts) = omega (
  arith,
  subscribe_topics ts,
  length-text_field topic,
  length-append (text_field topic) ((qos % 256) ∷ Subscribe.topic_fields ts),
)

unsubscribe_topics :
    (ts : List (List ℕ))
    → (Unsubscribe.payload_len ts + 2 * length ts) % 2 ^ 32
      ≡ length (Unsubscribe.topic_fields ts) % 2 ^ 32
unfolding Unsubscribe.payload_len Unsubscribe.topic_fields
unsubscribe_topics [] = omega arith
unsubscribe_topics (topic ∷ ts) = omega (
  arith,
  unsubscribe_topics ts,
  length-text_field topic,
  length-append (text_field topic) (Unsubscribe.topic_fields ts),
)

-- Modulo the width of `Uint`, the size that SUBSCRIBE declares is too small by one byte for each
-- topic.
subscribe_size :
    (m : MqttSubscribe)
    → (Subscribe.packet_size m + length m.topics) % 2 ^ 32
      ≡ length (Subscribe.packet_body m) % 2 ^ 32
unfolding Subscribe.packet_size Subscribe.packet_body memory16
subscribe_size m = omega (arith, subscribe_topics m.topics)

-- Modulo the width of `Uint`, the size that UNSUBSCRIBE declares is too small by two bytes for each
-- topic.
unsubscribe_size :
    (m : MqttUnsubscribe)
    → (Unsubscribe.packet_size m + 2 * length m.topics) % 2 ^ 32
      ≡ length (Unsubscribe.packet_body m) % 2 ^ 32
unfolding Unsubscribe.packet_size Unsubscribe.packet_body memory16
unsubscribe_size m = omega (arith, unsubscribe_topics m.topics)

-- The size that an `encode` declares, against the bytes of the variable header and payload that it
-- writes, modulo the width of `Uint`: they agree for CONNECT and PUBLISH, and the size is too small by
-- one byte for each topic of a SUBSCRIBE, and by two for each topic of an UNSUBSCRIBE.
pub declared_sizes :
    (c : MqttConnect) (p : MqttPublish) (s : MqttSubscribe) (u : MqttUnsubscribe)
    → (Connect.packet_size c ≡ length (Connect.packet_body c) % 2 ^ 32)
      × (Publish.packet_size p ≡ length (Publish.packet_body p) % 2 ^ 32)
      × ((Subscribe.packet_size s + length s.topics) % 2 ^ 32
          ≡ length (Subscribe.packet_body s) % 2 ^ 32)
      × ((Unsubscribe.packet_size u + 2 * length u.topics) % 2 ^ 32
          ≡ length (Unsubscribe.packet_body u) % 2 ^ 32)
declared_sizes c p s u =
    (packet_size-length c, packet_size-body p, subscribe_size s, unsubscribe_size u)
