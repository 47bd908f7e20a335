-- ===== src/Protocol/Typed/Bodies.antt =====
-- The bodies of CONNECT, PUBLISH, SUBSCRIBE and UNSUBSCRIBE (src/mqtt/Protocol.cpp) whose members are within their types.
use k_mqttd.Base.{ℕ, ◌%◌, ◌^◌, List, [], ◌∷◌, length, arith, ltb, Bool-cases, inl, inr}
use k_mqttd.Wire.Words.{htons, htonl, memory16, sign_extend16}
use k_mqttd.Protocol.Frame.{text_field}
use k_mqttd.Protocol.Connect
use k_mqttd.Protocol.Connect.{MqttConnect}
use k_mqttd.Protocol.Publish
use k_mqttd.Protocol.Publish.{MqttPublish}
use k_mqttd.Protocol.Subscribe
use k_mqttd.Protocol.Subscribe.{MqttSubscribe}
use k_mqttd.Protocol.Unsubscribe
use k_mqttd.Protocol.Unsubscribe.{MqttUnsubscribe}
use k_mqttd.Protocol.Message.{Message}
use k_mqttd.Protocol.Typed.{AllBytes, AllTexts, AllTopics, HasBytes}
use k_mqttd.Protocol.Typed.Bytes.{
  AllBytes-append, memory16-AllBytes, text_field-AllBytes, byte_of_flag-lt,
}

pub connect-AllBytes :
    (m : MqttConnect) → HasBytes (Message.connect m) → AllBytes (Connect.packet_body m)
unfolding Connect.packet_body
connect-AllBytes m (protocol, level, qos, cid, will_topic, will_msg, user, passwd) =
    AllBytes-append (memory16 (htons (htons (length m.protocol)))) _
      (memory16-AllBytes (htons (htons (length m.protocol))))
      (AllBytes-append m.protocol _ protocol (
        level,
        (
          byte_of_flag-lt m.flag qos,
          AllBytes-append (memory16 (htons m.keep_time)) _ (memory16-AllBytes (htons m.keep_time)) (
              AllBytes-append (text_field m.cid) _ (text_field-AllBytes m.cid cid) (
                AllBytes-append (text_field m.will_topic) _
                  (text_field-AllBytes m.will_topic will_topic)
                  (AllBytes-append (text_field m.will_msg) _
                    (text_field-AllBytes m.will_msg will_msg)
                    (AllBytes-append (text_field m.user) _ (text_field-AllBytes m.user user)
                      (text_field-AllBytes m.passwd passwd))))),
        ),
      ))

packet_id-AllBytes : (m : MqttPublish) → AllBytes (Publish.packet_id m)
unfolding Publish.packet_id
packet_id-AllBytes m = elim (Bool-cases (ltb 0 m.header.qos)) [
  | inl some_id ↦ rw some_id (memory16-AllBytes (htonl (sign_extend16 m.seq) % 2 ^ 16))
  | inr no_id ↦ rw no_id tt
]

pub publish-AllBytes :
    (m : MqttPublish) → HasBytes (Message.publish m) → AllBytes (Publish.packet_body m)
unfolding Publish.packet_body
publish-AllBytes m (topic, payload) =
    AllBytes-append (memory16 (htons (htons (length m.topic)))) _
      (memory16-AllBytes (htons (htons (length m.topic))))
      (AllBytes-append m.topic _ topic
        (AllBytes-append (Publish.packet_id m) _ (packet_id-AllBytes m) payload))

subscribe_topics-AllBytes :
    (ts : List (List ℕ × ℕ)) → AllTopics ts → AllBytes (Subscribe.topic_fields ts)
unfolding Subscribe.topic_fields
subscribe_topics-AllBytes [] h = tt
subscribe_topics-AllBytes ((t, qos) ∷ ts) (h, hs) =
    AllBytes-append (text_field t) _ (text_field-AllBytes t h)
      (omega arith, subscribe_topics-AllBytes ts hs)

unsubscribe_topics-AllBytes :
    (ts : List (List ℕ)) → AllTexts ts → AllBytes (Unsubscribe.topic_fields ts)
unfolding Unsubscribe.topic_fields
unsubscribe_topics-AllBytes [] h = tt
unsubscribe_topics-AllBytes (t ∷ ts) (h, hs) =
    AllBytes-append (text_field t) _ (text_field-AllBytes t h) (unsubscribe_topics-AllBytes ts hs)

pub subscribe-AllBytes :
    (m : MqttSubscribe) → AllTopics m.topics → AllBytes (Subscribe.packet_body m)
unfolding Subscribe.packet_body
subscribe-AllBytes m h =
    AllBytes-append (memory16 (htons (htons m.seq))) _ (memory16-AllBytes (htons (htons m.seq)))
      (subscribe_topics-AllBytes m.topics h)

pub unsubscribe-AllBytes :
    (m : MqttUnsubscribe) → AllTexts m.topics → AllBytes (Unsubscribe.packet_body m)
unfolding Unsubscribe.packet_body
unsubscribe-AllBytes m h =
    AllBytes-append (memory16 (htons (htons m.seq))) _ (memory16-AllBytes (htons (htons m.seq)))
      (unsubscribe_topics-AllBytes m.topics h)
