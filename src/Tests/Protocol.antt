-- ===== src/Tests/Protocol.antt =====
-- Runs of the packets of src/mqtt/Protocol.cpp.
use k_mqttd.Base.{
  ℕ, ◌+◌, ◌*◌, ◌%◌, ◌^◌, ◌≡◌, ◌<◌, ◌≤◌, ◌⊎◌, inl, refl, [], ◌∷◌, ◌++◌, false, ret, arith, bytes,
  length, int_of_size, pos,
}
use k_mqttd.Protocol.Header.{Stale, header_of_byte, byte_of_header, make_header}
use k_mqttd.Protocol.Frame.{frame, refuse}
use k_mqttd.Protocol.Frame.Write.{frame_lem, swapped_length}
use k_mqttd.Protocol.Connect
use k_mqttd.Protocol.Connect.{MqttConnect}
use k_mqttd.Protocol.Connect.Accept
use k_mqttd.Protocol.Connect.Accept.{IsAcceptable}
use k_mqttd.Protocol.Publish
use k_mqttd.Protocol.Publish.{MqttPublish}
use k_mqttd.Protocol.Subscribe
use k_mqttd.Protocol.Subscribe.{MqttSubscribe}
use k_mqttd.Protocol.Unsubscribe
use k_mqttd.Protocol.Unsubscribe.{MqttUnsubscribe}
use k_mqttd.Protocol.Message
use k_mqttd.Protocol.Typed.{IsEncoding}
use k_mqttd.Protocol.Typed.Encoders.{encode-Keeps}
use k_mqttd.Protocol.Undercount.{declared_sizes}
use k_mqttd.Protocol.Acks.{ack_bytes, acks_lem}
use k_mqttd.Protocol.Puback
use k_mqttd.Protocol.Pubrec
use k_mqttd.Protocol.Pubrel
use k_mqttd.Protocol.Pubcomp

abbrev stale : Stale
stale = record {
  size = 7;
  header = header_of_byte 0;
  byte = 9;
  word = 11;
  flag = record {
    reserved_bit = false;
    clean_session = false;
    will_flag = false;
    will_qos = 0;
    will_retain = false;
    passwd_flag = false;
    name_flag = false;
  };
}

abbrev hello : MqttConnect
hello = Connect.make 4 60 (bytes "cid1") (bytes "bye") (bytes "gone") (bytes "ann") (bytes "pw")

hello-IsAcceptable : IsAcceptable hello
unfolding Connect.make Connect.c_str Connect.is_cid_byte
hello-IsAcceptable = record {
  named = refl;
  cid_short = omega arith;
  cid_bytes = (refl, (refl, (refl, (refl, tt))));
  cid_or_clean = inl (omega arith);
  flags_agree = refl;
  user_given = ground arith;
  passwd_given = ground arith;
}

encode_cases_example :
    (IsAcceptable hello
      × (Connect.encode hello []
          ≡ frame
              (record hello { size = Connect.packet_size hello })
              hello.header
              (Connect.packet_size hello)
              (Connect.packet_body hello)
              []))
    ⊎ ((¬ IsAcceptable hello) × ((n : ℕ) × (n ≤ 5) × (Connect.encode hello [] ≡ refuse hello n [])))
encode_cases_example = Accept.encode_cases hello []

frame_lem_example :
    ((16 ≤ 2 % 256)
      × (frame {M = ℕ} 0 (header_of_byte 64) 2 (0 ∷ 5 ∷ []) []
          ≡ refuse {M = ℕ} 0 6 (byte_of_header (header_of_byte 64) ∷ [])))
    ⊎ ((2 % 256 < 16)
        × ((frame {M = ℕ} 0 (header_of_byte 64) 2 (0 ∷ 5 ∷ []) []).buf
            ≡ byte_of_header (header_of_byte 64) ∷ (swapped_length 2 ++ (0 ∷ 5 ∷ [])))
        × ((frame {M = ℕ} 0 (header_of_byte 64) 2 (0 ∷ 5 ∷ []) []).message ≡ 0)
        × ((frame {M = ℕ} 0 (header_of_byte 64) 2 (0 ∷ 5 ∷ []) []).result
            ≡ int_of_size (length (frame {M = ℕ} 0 (header_of_byte 64) 2 (0 ∷ 5 ∷ []) []).buf)))
frame_lem_example = frame_lem {M = ℕ} 0 (header_of_byte 64) 2 (0 ∷ 5 ∷ []) [] (omega arith)

abbrev news : MqttPublish
news = Publish.make false 1 false 7 (bytes "a/b") (bytes "hi") stale

abbrev wishes : MqttSubscribe
wishes = Subscribe.add_topic (Subscribe.make 7 stale) (bytes "a/b") 1

abbrev regrets : MqttUnsubscribe
regrets = Unsubscribe.del_topic (Unsubscribe.make 7 stale) (bytes "a/b")

declared_sizes_example :
    (Connect.packet_size hello ≡ length (Connect.packet_body hello) % 2 ^ 32)
    × (Publish.packet_size news ≡ length (Publish.packet_body news) % 2 ^ 32)
    × ((Subscribe.packet_size wishes + length wishes.topics) % 2 ^ 32
        ≡ length (Subscribe.packet_body wishes) % 2 ^ 32)
    × ((Unsubscribe.packet_size regrets + 2 * length regrets.topics) % 2 ^ 32
        ≡ length (Unsubscribe.packet_body regrets) % 2 ^ 32)
declared_sizes_example = declared_sizes hello news wishes regrets

acks_lem_example :
    (((Puback.encode (Puback.make 258) []).buf ≡ ack_bytes 0x40 258)
      × ((Pubrec.encode (Pubrec.make 258) []).buf ≡ ack_bytes 0x50 258)
      × ((Pubrel.encode (Pubrel.make 258) []).buf ≡ ack_bytes 0x62 258)
      × ((Pubcomp.encode (Pubcomp.make 258) []).buf ≡ ack_bytes 0x70 258))
    × ((Puback.decode (Puback.blank stale) (Puback.encode (Puback.make 258) []).buf
          ≡ ret (record (Puback.make 258) { size = 0; seq = 0 }, pos 8))
        × (Pubrec.decode (Pubrec.blank stale) (Pubrec.encode (Pubrec.make 258) []).buf
            ≡ ret (record (Pubrec.make 258) { size = 0; seq = 0 }, pos 8))
        × (Pubrel.decode (Pubrel.blank stale) (Pubrel.encode (Pubrel.make 258) []).buf
            ≡ ret (record (Pubrel.make 258) { size = 0; seq = 0 }, pos 8))
        × (Pubcomp.decode (Pubcomp.blank stale) (Pubcomp.encode (Pubcomp.make 258) []).buf
            ≡ ret (record (Pubcomp.make 258) { size = 0; seq = 0 }, pos 8)))
acks_lem_example =
    acks_lem 258 (Puback.blank stale) (Pubrec.blank stale) (Pubrel.blank stale)
      (Pubcomp.blank stale) (omega arith)

encode-Keeps_example :
    IsEncoding
      (9 ∷ [])
      (Message.encode (Message.subscribe wishes) (9 ∷ [])).buf
      (Message.encode (Message.subscribe wishes) (9 ∷ [])).result
    × (Message.class (Message.encode (Message.subscribe wishes) (9 ∷ [])).message
        ≡ Message.class (Message.subscribe wishes))
    × (Message.header (Message.encode (Message.subscribe wishes) (9 ∷ [])).message
        ≡ Message.header (Message.subscribe wishes))
unfolding Subscribe.make Subscribe.add_topic make_header
encode-Keeps_example =
    encode-Keeps (Message.subscribe wishes) (9 ∷ [])
      (record { qos_bits = omega arith; command_bits = ground arith })
      ((omega arith, (omega arith, (omega arith, tt))), tt)
