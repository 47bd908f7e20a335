-- ===== src/Protocol/Publish/Wire.antt =====
-- What `MqttPublish::encode` puts on the wire.
use native.Mathlib.Decide.{dec_lt}
use k_mqttd.Base.{
  ℕ, ◌%◌, ◌^◌, ◌<◌, ◌≡◌, List, [], ◌∷◌, ◌++◌, length, arith, ltb, if◌then◌else◌, ap, ◌∙◌,
}
use k_mqttd.Wire.Words.{IsUint16, htons, htonl, memory16, sign_extend16}
use k_mqttd.Protocol.Frame.{frame}
use k_mqttd.Protocol.Frame.Write.{wire_lengths, frame_buf}
use k_mqttd.Protocol.Publish.{MqttPublish, packet_size, packet_id, packet_body, encode}

-- The identifier is lost on its way through `htonl` and the cut to 16 bits: zeros are written for a
-- non-negative identifier and ones for a negative one.
packet_id_lem :
    (m : MqttPublish)
    → IsUint16 m.seq
    → 0 < m.header.qos
    → packet_id m ≡ (if ltb m.seq (2 ^ 15) then 0 ∷ 0 ∷ [] else 255 ∷ 255 ∷ [])
unfolding packet_id htonl memory16 sign_extend16
packet_id_lem m h q = ground arith

packet_id_none : (m : MqttPublish) → ¬ (0 < m.header.qos) → packet_id m ≡ []
unfolding packet_id
packet_id_none m q = ground arith

packet_size-body_lem :
    (m : MqttPublish) → length (packet_id m) ≡ (if ltb 0 m.header.qos then 2 else 0)
unfolding packet_id memory16
packet_size-body_lem m = ground arith

-- The size that PUBLISH declares is the number of bytes of its variable header and payload, modulo
-- the width of `Uint`.
pub packet_size-body : (m : MqttPublish) → packet_size m ≡ length (packet_body m) % 2 ^ 32
unfolding packet_body packet_size
packet_size-body m = simp (wire_lengths, packet_size-body_lem) (omega arith)

packet_id_same :
    (m : MqttPublish) (seq : ℕ)
    → IsUint16 m.seq
    → IsUint16 seq
    → ltb m.seq (2 ^ 15) ≡ ltb seq (2 ^ 15)
    → packet_id (record m { seq = seq }) ≡ packet_id m
packet_id_same m seq h h' sign = elim (dec_lt 0 m.header.qos) [
  | yes q ↦ rw (packet_id_lem m h q, packet_id_lem (record m { seq = seq }) h' q, sign)
  | no q ↦ rw (packet_id_none m q, packet_id_none (record m { seq = seq }) q)
]

-- Two PUBLISH messages that differ in their identifiers only, and whose identifiers have one sign,
-- are the same bytes on the wire.
encode_drops_id :
    (m : MqttPublish) (seq : ℕ) (buf : List ℕ)
    → IsUint16 m.seq
    → IsUint16 seq
    → ltb m.seq (2 ^ 15) ≡ ltb seq (2 ^ 15)
    → (encode (record m { seq = seq }) buf).buf ≡ (encode m buf).buf
unfolding encode packet_size packet_body
encode_drops_id m seq buf h h' sign =
    frame_buf (record m { size = packet_size m; seq = seq }) (record m { size = packet_size m })
      m.header (packet_size m) (packet_body (record m { seq = seq })) buf
    ∙ ap
        (λ (ids : List ℕ).
          (frame (record m { size = packet_size m }) m.header (packet_size m)
            (memory16 (htons (htons (length m.topic))) ++ (m.topic ++ (ids ++ m.payload))) buf).buf)
        (packet_id_same m seq h h' sign)
