-- ===== src/Protocol/Typed/Encoders.antt =====
-- The encoders of src/mqtt/Protocol.cpp on messages whose members are within their types.
use k_mqttd.Base.{
  ℕ, ◌%◌, ◌≡◌, ◌==◌, refl, ap, ◌∙◌, List, [], ◌∷◌, ◌++◌, length, arith, Bool-cases, inl, inr,
}
use k_mqttd.Wire.Words.{htons, memory16}
use k_mqttd.Protocol.Header.{IsHeader, MqttHeader}
use k_mqttd.Protocol.Frame.{Encoded, frame}
use k_mqttd.Protocol.Connect
use k_mqttd.Protocol.Connect.{MqttConnect}
use k_mqttd.Protocol.Connect.Accept.{encode_cases}
use k_mqttd.Protocol.ConnectAck
use k_mqttd.Protocol.Publish
use k_mqttd.Protocol.Publish.{MqttPublish}
use k_mqttd.Protocol.Puback
use k_mqttd.Protocol.Pubrec
use k_mqttd.Protocol.Pubrel
use k_mqttd.Protocol.Pubcomp
use k_mqttd.Protocol.Subscribe
use k_mqttd.Protocol.Subscribe.{MqttSubscribe}
use k_mqttd.Protocol.Suback
use k_mqttd.Protocol.Unsubscribe
use k_mqttd.Protocol.Unsubscribe.{MqttUnsubscribe}
use k_mqttd.Protocol.Unsuback
use k_mqttd.Protocol.Ping
use k_mqttd.Protocol.Pong
use k_mqttd.Protocol.Disconnect
use k_mqttd.Protocol.Message
use k_mqttd.Protocol.Message.{Message}
use k_mqttd.Protocol.Typed.{AllBytes, HasBytes, IsEncoding}
use k_mqttd.Protocol.Typed.Bytes.{
  AllBytes-append, memory16-AllBytes, refuse-IsEncoding, frame-IsEncoding, frame-message,
}
use k_mqttd.Protocol.Typed.Bodies.{
  connect-AllBytes, publish-AllBytes, subscribe-AllBytes, unsubscribe-AllBytes,
}

-- What every class keeps to: the bytes and the result, the class and the header.
abbrev Keeps : Message → List ℕ → Encoded Message → Type 0
Keeps m buf e =
    IsEncoding buf e.buf e.result
    × (Message.class e.message ≡ Message.class m)
    × (Message.header e.message ≡ Message.header m)

-- A class `f` whose packet is framed, from the message `m` with its size set or not.
frame-Keeps :
    {M : Type 0} (was : Message) (f : M → Message) (m : M) (header : MqttHeader) (size : ℕ)
    (body buf : List ℕ)
    → Message.class (f m) ≡ Message.class was
    → Message.header (f m) ≡ Message.header was
    → IsHeader header
    → AllBytes body
    → IsEncoding buf (frame m header size body buf).buf (frame m header size body buf).result
      × (Message.class (f (frame m header size body buf).message) ≡ Message.class was)
      × (Message.header (f (frame m header size body buf).message) ≡ Message.header was)
frame-Keeps was f m header size body buf class_is header_is fits typed =
    let same = ap f (frame-message m header size body buf) in
    (
      frame-IsEncoding m header size body buf fits typed,
      ap Message.class same ∙ class_is,
      ap Message.header same ∙ header_is,
    )

connect-Keeps :
    (m : MqttConnect) (buf : List ℕ)
    → IsHeader m.header
    → HasBytes (Message.connect m)
    → Keeps (Message.connect m) buf (Message.encode (Message.connect m) buf)
unfolding Message.encode
connect-Keeps m buf fits has = elim (encode_cases m buf) [
  | inl (_, e) ↦ rw e (
      frame-Keeps (Message.connect m) Message.connect (record m { size = Connect.packet_size m })
        m.header (Connect.packet_size m) (Connect.packet_body m) buf refl refl fits
        (connect-AllBytes m has))
  | inr (_, (n, _, e)) ↦ rw e (refuse-IsEncoding m n buf, refl, refl)
]

publish-Keeps :
    (m : MqttPublish) (buf : List ℕ)
    → IsHeader m.header
    → HasBytes (Message.publish m)
    → Keeps (Message.publish m) buf (Message.encode (Message.publish m) buf)
unfolding Message.encode Publish.encode
publish-Keeps m buf fits has =
    (frame-Keeps (Message.publish m) Message.publish (record m { size = Publish.packet_size m })
      m.header (Publish.packet_size m) (Publish.packet_body m) buf refl refl fits
      (publish-AllBytes m has))

subscribe-Keeps :
    (m : MqttSubscribe) (buf : List ℕ)
    → IsHeader m.header
    → HasBytes (Message.subscribe m)
    → Keeps (Message.subscribe m) buf (Message.encode (Message.subscribe m) buf)
unfolding Message.encode Subscribe.encode
subscribe-Keeps m buf fits has = elim (Bool-cases (length m.topics == 0)) [
  | inl no_topic ↦ rw no_topic (refuse-IsEncoding m 0 buf, refl, refl)
  | inr some_topic ↦ rw some_topic (
      frame-Keeps (Message.subscribe m) Message.subscribe
        (record m { size = Subscribe.packet_size m }) m.header (Subscribe.packet_size m)
        (Subscribe.packet_body m) buf refl refl fits (subscribe-AllBytes m has))
]

unsubscribe-Keeps :
    (m : MqttUnsubscribe) (buf : List ℕ)
    → IsHeader m.header
    → HasBytes (Message.unsubscribe m)
    → Keeps (Message.unsubscribe m) buf (Message.encode (Message.unsubscribe m) buf)
unfolding Message.encode Unsubscribe.encode
unsubscribe-Keeps m buf fits has = elim (Bool-cases (length m.topics == 0)) [
  | inl no_topic ↦ rw no_topic (refuse-IsEncoding m 0 buf, refl, refl)
  | inr some_topic ↦ rw some_topic (
      frame-Keeps (Message.unsubscribe m) Message.unsubscribe
        (record m { size = Unsubscribe.packet_size m }) m.header (Unsubscribe.packet_size m)
        (Unsubscribe.packet_body m) buf refl refl fits (unsubscribe-AllBytes m has))
]

-- Whatever the class of a message: where its members are within their types, `encode` leaves the bytes
-- that are in the buffer and only adds bytes behind them; its result is negative or the length of the
-- buffer; and the message has the class and the header that it had.
pub encode-Keeps :
    (m : Message) (buf : List ℕ)
    → IsHeader (Message.header m)
    → HasBytes m
    → IsEncoding buf (Message.encode m buf).buf (Message.encode m buf).result
      × (Message.class (Message.encode m buf).message ≡ Message.class m)
      × (Message.header (Message.encode m buf).message ≡ Message.header m)
unfolding Message.encode ConnectAck.encode Puback.encode Pubrec.encode Pubrel.encode Pubcomp.encode
    Suback.encode Unsuback.encode Ping.encode Pong.encode Disconnect.encode
encode-Keeps (Message.connect m) buf fits has = connect-Keeps m buf fits has
encode-Keeps (Message.publish m) buf fits has = publish-Keeps m buf fits has
encode-Keeps (Message.subscribe m) buf fits has = subscribe-Keeps m buf fits has
encode-Keeps (Message.unsubscribe m) buf fits has = unsubscribe-Keeps m buf fits has
encode-Keeps (Message.connack m) buf fits has =
    frame-Keeps (Message.connack m) Message.connack m m.header m.size (m.sp ∷ (m.result % 256) ∷ [])
      buf refl refl fits (has, (omega arith, tt))
encode-Keeps (Message.puback m) buf fits has =
    frame-Keeps (Message.puback m) Message.puback m m.header m.size (memory16 (htons m.seq)) buf
      refl refl fits (memory16-AllBytes (htons m.seq))
encode-Keeps (Message.pubrec m) buf fits has =
    frame-Keeps (Message.pubrec m) Message.pubrec m m.header m.size (memory16 (htons m.seq)) buf
      refl refl fits (memory16-AllBytes (htons m.seq))
encode-Keeps (Message.pubrel m) buf fits has =
    frame-Keeps (Message.pubrel m) Message.pubrel m m.header m.size (memory16 (htons m.seq)) buf
      refl refl fits (memory16-AllBytes (htons m.seq))
encode-Keeps (Message.pubcomp m) buf fits has =
    frame-Keeps (Message.pubcomp m) Message.pubcomp m m.header m.size (memory16 (htons m.seq)) buf
      refl refl fits (memory16-AllBytes (htons m.seq))
encode-Keeps (Message.suback m) buf fits has =
    frame-Keeps (Message.suback m) Message.suback m m.header m.size
      (memory16 (htons m.seq) ++ m.results) buf refl refl fits
      (AllBytes-append (memory16 (htons m.seq)) m.results (memory16-AllBytes (htons m.seq)) has)
encode-Keeps (Message.unsuback m) buf fits has =
    frame-Keeps (Message.unsuback m) Message.unsuback m m.header m.size (memory16 (htons m.seq)) buf
      refl refl fits (memory16-AllBytes (htons m.seq))
encode-Keeps (Message.ping m) buf fits has =
    frame-Keeps (Message.ping m) Message.ping m m.header m.size [] buf refl refl fits tt
encode-Keeps (Message.pong m) buf fits has =
    frame-Keeps (Message.pong m) Message.pong m m.header m.size [] buf refl refl fits tt
encode-Keeps (Message.disconnect m) buf fits has =
    frame-Keeps (Message.disconnect m) Message.disconnect m m.header m.size [] buf refl refl fits tt
