-- ===== src/Protocol/Acks.antt =====
-- The acknowledgements, encoded and decoded again.
use k_mqttd.Base.{ℕ, ◌/◌, ◌%◌, ◌≡◌, refl, List, [], ◌∷◌, ret, pos, int_of_size, arith}
use k_mqttd.Wire.Words.{IsUint16, htons, htonl, memory16}
use k_mqttd.Wire.Length.{enc_len, dec_len}
use k_mqttd.Protocol.Header.{byte_of_header, header_of_byte, make_header}
use k_mqttd.Protocol.Frame.{frame, read_header, read_length, copy_into16}
use k_mqttd.Protocol.Puback
use k_mqttd.Protocol.Puback.{MqttPuback}
use k_mqttd.Protocol.Pubrec
use k_mqttd.Protocol.Pubrec.{MqttPubrec}
use k_mqttd.Protocol.Pubrel
use k_mqttd.Protocol.Pubrel.{MqttPubrel}
use k_mqttd.Protocol.Pubcomp
use k_mqttd.Protocol.Pubcomp.{MqttPubcomp}

-- The bytes of an acknowledgement: the header, the length 2 as `htonl` and `encLen` make it, and the
-- identifier.
abbrev pub ack_bytes : ℕ → ℕ → List ℕ
ack_bytes first seq = first ∷ 0 ∷ 16 ∷ 128 ∷ 128 ∷ 128 ∷ (seq / 256) ∷ (seq % 256) ∷ []

puback_bytes :
    (seq : ℕ) → IsUint16 seq → (Puback.encode (Puback.make seq) []).buf ≡ ack_bytes 0x40 seq
unfolding Puback.encode Puback.make frame enc_len htonl htons memory16 make_header byte_of_header
puback_bytes seq h = ground arith

puback_back :
    (seq : ℕ) (m : MqttPuback)
    → Puback.decode m (Puback.encode (Puback.make seq) []).buf
      ≡ ret (record (Puback.make seq) { size = 0; seq = 0 }, pos 8)
unfolding Puback.encode Puback.decode Puback.make frame enc_len dec_len htonl htons memory16
    make_header byte_of_header header_of_byte read_header read_length copy_into16 int_of_size
puback_back seq m = refl

pubrec_bytes :
    (seq : ℕ) → IsUint16 seq → (Pubrec.encode (Pubrec.make seq) []).buf ≡ ack_bytes 0x50 seq
unfolding Pubrec.encode Pubrec.make frame enc_len htonl htons memory16 make_header byte_of_header
pubrec_bytes seq h = ground arith

pubrec_back :
    (seq : ℕ) (m : MqttPubrec)
    → Pubrec.decode m (Pubrec.encode (Pubrec.make seq) []).buf
      ≡ ret (record (Pubrec.make seq) { size = 0; seq = 0 }, pos 8)
unfolding Pubrec.encode Pubrec.decode Pubrec.make frame enc_len dec_len htonl htons memory16
    make_header byte_of_header header_of_byte read_header read_length copy_into16 int_of_size
pubrec_back seq m = refl

pubrel_bytes :
    (seq : ℕ) → IsUint16 seq → (Pubrel.encode (Pubrel.make seq) []).buf ≡ ack_bytes 0x62 seq
unfolding Pubrel.encode Pubrel.make frame enc_len htonl htons memory16 make_header byte_of_header
pubrel_bytes seq h = ground arith

pubrel_back :
    (seq : ℕ) (m : MqttPubrel)
    → Pubrel.decode m (Pubrel.encode (Pubrel.make seq) []).buf
      ≡ ret (record (Pubrel.make seq) { size = 0; seq = 0 }, pos 8)
unfolding Pubrel.encode Pubrel.decode Pubrel.make frame enc_len dec_len htonl htons memory16
    make_header byte_of_header header_of_byte read_header read_length copy_into16 int_of_size
pubrel_back seq m = refl

pubcomp_bytes :
    (seq : ℕ) → IsUint16 seq → (Pubcomp.encode (Pubcomp.make seq) []).buf ≡ ack_bytes 0x70 seq
unfolding Pubcomp.encode Pubcomp.make frame enc_len htonl htons memory16 make_header byte_of_header
pubcomp_bytes seq h = ground arith

pubcomp_back :
    (seq : ℕ) (m : MqttPubcomp)
    → Pubcomp.decode m (Pubcomp.encode (Pubcomp.make seq) []).buf
      ≡ ret (record (Pubcomp.make seq) { size = 0; seq = 0 }, pos 8)
unfolding Pubcomp.encode Pubcomp.decode Pubcomp.make frame enc_len dec_len htonl htons memory16
    make_header byte_of_header header_of_byte read_header read_length copy_into16 int_of_size
pubcomp_back seq m = refl

-- The four acknowledgements of identifier `seq`, made by their constructors, are eight bytes each:
-- the header, the five bytes that stand for the length 2, and the identifier, high byte first.
acks_bytes :
    (seq : ℕ)
    → IsUint16 seq
    → ((Puback.encode (Puback.make seq) []).buf ≡ ack_bytes 0x40 seq)
      × ((Pubrec.encode (Pubrec.make seq) []).buf ≡ ack_bytes 0x50 seq)
      × ((Pubrel.encode (Pubrel.make seq) []).buf ≡ ack_bytes 0x62 seq)
      × ((Pubcomp.encode (Pubcomp.make seq) []).buf ≡ ack_bytes 0x70 seq)
acks_bytes seq h = (puback_bytes seq h, pubrec_bytes seq h, pubrel_bytes seq h, pubcomp_bytes seq h)

-- Encoding one of the four acknowledgements and decoding the bytes always returns, with the whole
-- length as the result, and gives back the header; the identifier and the size come back as 0.
acks_back :
    (seq : ℕ) (a : MqttPuback) (b : MqttPubrec) (c : MqttPubrel) (d : MqttPubcomp)
    → (Puback.decode a (Puback.encode (Puback.make seq) []).buf
        ≡ ret (record (Puback.make seq) { size = 0; seq = 0 }, pos 8))
      × (Pubrec.decode b (Pubrec.encode (Pubrec.make seq) []).buf
          ≡ ret (record (Pubrec.make seq) { size = 0; seq = 0 }, pos 8))
      × (Pubrel.decode c (Pubrel.encode (Pubrel.make seq) []).buf
          ≡ ret (record (Pubrel.make seq) { size = 0; seq = 0 }, pos 8))
      × (Pubcomp.decode d (Pubcomp.encode (Pubcomp.make seq) []).buf
          ≡ ret (record (Pubcomp.make seq) { size = 0; seq = 0 }, pos 8))
acks_back seq a b c d =
    (puback_back seq a, pubrec_back seq b, pubrel_back seq c, pubcomp_back seq d)

-- For every 16-bit identifier: the four acknowledgements, made by their constructors, are encoded to
-- eight bytes each, the header, the five bytes that stand for the length 2, and the identifier with its
-- high byte first; and decoding these bytes always returns, with the whole length as the result, the
-- header, and 0 for the size and the identifier.
pub acks_lem :
    (seq : ℕ) (a : MqttPuback) (b : MqttPubrec) (c : MqttPubrel) (d : MqttPubcomp)
    → IsUint16 seq
    → (((Puback.encode (Puback.make seq) []).buf ≡ ack_bytes 0x40 seq)
        × ((Pubrec.encode (Pubrec.make seq) []).buf ≡ ack_bytes 0x50 seq)
        × ((Pubrel.encode (Pubrel.make seq) []).buf ≡ ack_bytes 0x62 seq)
        × ((Pubcomp.encode (Pubcomp.make seq) []).buf ≡ ack_bytes 0x70 seq))
      × ((Puback.decode a (Puback.encode (Puback.make seq) []).buf
            ≡ ret (record (Puback.make seq) { size = 0; seq = 0 }, pos 8))
          × (Pubrec.decode b (Pubrec.encode (Pubrec.make seq) []).buf
              ≡ ret (record (Pubrec.make seq) { size = 0; seq = 0 }, pos 8))
          × (Pubrel.decode c (Pubrel.encode (Pubrel.make seq) []).buf
              ≡ ret (record (Pubrel.make seq) { size = 0; seq = 0 }, pos 8))
          × (Pubcomp.decode d (Pubcomp.encode (Pubcomp.make seq) []).buf
              ≡ ret (record (Pubcomp.make seq) { size = 0; seq = 0 }, pos 8)))
acks_lem seq a b c d small = (acks_bytes seq small, acks_back seq a b c d)
