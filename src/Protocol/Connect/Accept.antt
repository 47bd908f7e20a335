-- ===== src/Protocol/Connect/Accept.antt =====
-- Which CONNECT messages `MqttConnect::encode` takes, and what becomes of them.
use k_mqttd.Base.{
  ◌∙◌, Option-cases, none, some, ℕ, ◌+◌, ◌%◌, ◌^◌, ◌<◌, ◌≤◌, ◌≡◌, ◌↔◌, ◌⊎◌, inl, inr, List, [], ◌∷◌,
  ◌++◌, true, All, length, arith, bytes_eq_iff,
}
use k_mqttd.Protocol.Header.{byte_of_header}
use k_mqttd.Protocol.Frame.{refuse, frame}
use k_mqttd.Protocol.Frame.Write.{frame_refused, wire_lengths}
use k_mqttd.Protocol.Connect.{
  MqttConnect, protocol_name, is_cid_byte, all_cid_bytes, c_str, matches_expression, packet_size,
  packet_body, first_failed, encode,
}

-- What the six tests at the head of `encode` ask for.
pub record IsAcceptable (m : MqttConnect) : Type 0 where
  pub named : m.protocol ≡ protocol_name
  pub cid_short : length (c_str m.cid) ≤ 23
  pub cid_bytes : All (λ c. is_cid_byte c ≡ true) (c_str m.cid)
  pub cid_or_clean : (0 < length m.cid) ⊎ (m.flag.clean_session ≡ true)
  pub flags_agree : m.flag.name_flag ≡ m.flag.passwd_flag
  pub user_given : (m.flag.name_flag ≡ true) ↔ (0 < length m.user)
  pub passwd_given : (m.flag.passwd_flag ≡ true) ↔ (0 < length m.passwd)

all_cid_bytes_iff : (cs : List ℕ) → (all_cid_bytes cs ≡ true) ↔ All (λ c. is_cid_byte c ≡ true) cs
unfolding all_cid_bytes
all_cid_bytes_iff [] = ground arith
all_cid_bytes_iff (c ∷ cs) = ground (arith, all_cid_bytes_iff cs)

matches_expression_iff :
    (cid : List ℕ)
    → (matches_expression cid ≡ true)
      ↔ ((length (c_str cid) ≤ 23) × All (λ c. is_cid_byte c ≡ true) (c_str cid))
unfolding matches_expression
matches_expression_iff cid = ground (arith, all_cid_bytes_iff (c_str cid))

IsAcceptable-of_none : (m : MqttConnect) → first_failed m ≡ none → IsAcceptable m
unfolding first_failed
IsAcceptable-of_none m e = record {
  named = ground (arith, bytes_eq_iff m.protocol protocol_name);
  cid_short = ground (arith, matches_expression_iff m.cid);
  cid_bytes = ground (arith, matches_expression_iff m.cid);
  cid_or_clean = ground arith;
  flags_agree = ground arith;
  user_given = ground arith;
  passwd_given = ground arith;
}

none-of_IsAcceptable : (m : MqttConnect) → IsAcceptable m → first_failed m ≡ none
unfolding first_failed
none-of_IsAcceptable m v =
    ground (arith, bytes_eq_iff m.protocol protocol_name, matches_expression_iff m.cid)

first_failed-le : (m : MqttConnect) (n : ℕ) → first_failed m ≡ some n → n ≤ 5
unfolding first_failed
first_failed-le m n e = ground arith

-- `encode` writes a CONNECT packet exactly for the acceptable messages. Any other is refused with a
-- result from -1 to -6, and neither the message nor the buffer changes.
pub encode_cases :
    (m : MqttConnect) (buf : List ℕ)
    → (IsAcceptable m
        × (encode m buf
            ≡ frame
                (record m { size = packet_size m })
                m.header
                (packet_size m)
                (packet_body m)
                buf))
      ⊎ ((¬ IsAcceptable m) × ((n : ℕ) × (n ≤ 5) × (encode m buf ≡ refuse m n buf)))
unfolding encode
encode_cases m buf = elim (Option-cases (first_failed m)) [
  | inl e ↦ inl (IsAcceptable-of_none m e, rw (e, encode))
  | inr (n, e) ↦
      inr (λ v. cc (none-of_IsAcceptable m v, e), (n, first_failed-le m n e, rw (e, encode)))
]

-- The size that CONNECT declares is the number of bytes of its variable header and payload, modulo
-- the width of `Uint`.
pub packet_size-length : (m : MqttConnect) → packet_size m ≡ length (packet_body m) % 2 ^ 32
unfolding packet_body packet_size
packet_size-length m = simp wire_lengths (omega arith)

abbrev text_total : MqttConnect → ℕ
text_total m =
    length m.cid + length m.will_topic + length m.will_msg + length m.user + length m.passwd

packet_size-small :
    (m : MqttConnect)
    → m.protocol ≡ protocol_name
    → text_total m ≤ 235
    → packet_size m ≡ 20 + text_total m
unfolding packet_size
packet_size-small m n h = rw n (omega arith)

-- An acceptable CONNECT whose texts have at most 235 bytes together is never sent: the length
-- field refuses its size, and the result is -7.
encode_small :
    (m : MqttConnect) (buf : List ℕ)
    → IsAcceptable m
    → text_total m ≤ 235
    → encode m buf
      ≡ refuse (record m { size = packet_size m }) 6 (buf ++ (byte_of_header m.header ∷ []))
encode_small m buf v h = elim (encode_cases m buf) [
  | inl (_, e) ↦
      let size : packet_size m ≡ 20 + text_total m = packet_size-small m v.named h in
      e ∙ frame_refused _ m.header (packet_size m) (packet_body m) buf (omega arith) (omega arith)
  | inr (refused, _) ↦ absurd (refused v)
]
