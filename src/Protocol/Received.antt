-- ===== src/Protocol/Received.antt =====
-- What the `decode` functions of src/mqtt/Protocol.cpp make of a buffer.
use k_mqttd.Base.{
  ◌∙◌, ◌++◌, undef_of_not_ret, ℕ, ◌+◌, ◌≡◌, ap, List, length, Exec, ret, undef, ◌>>=◌, ℤ,
  int_of_size, >>=-elim,
}
use k_mqttd.Wire.Words.{htons}
use k_mqttd.Protocol.Header.{MqttHeader}
use k_mqttd.Protocol.Frame.{read_header, read_length, copy_into16, copy_range, at}
use k_mqttd.Protocol.Frame.Read.{read_prefix, read_id_prefix, read_text_undef}
use k_mqttd.Protocol.Connect
use k_mqttd.Protocol.Connect.{MqttConnect}
use k_mqttd.Protocol.Publish
use k_mqttd.Protocol.Publish.{MqttPublish}
use k_mqttd.Protocol.Subscribe
use k_mqttd.Protocol.Unsubscribe
use k_mqttd.Protocol.Unsubscribe.{MqttUnsubscribe}
use k_mqttd.Protocol.Suback
use k_mqttd.Protocol.Suback.{MqttSuback}
use k_mqttd.Protocol.ConnectAck
use k_mqttd.Protocol.ConnectAck.{MqttConnectAck}
use k_mqttd.Protocol.Subscribe.{MqttSubscribe}

-- The steps of a packet that is an identifier and no more.
abbrev pub read_ack {ℓ} : {M : Type ℓ} → List ℕ → (MqttHeader → ℕ → ℕ → M) → Exec (M × ℤ)
read_ack buf make = do
  header ← read_header buf
  (size, step) ← read_length buf
  t ← copy_into16 0 buf step 2
  ret (make header size (htons t), int_of_size (length buf))

pub read_ack_lem {ℓ} :
    {M : Type ℓ} (buf : List ℕ) (make : MqttHeader → ℕ → ℕ → M) (m : M) (r : ℤ)
    → read_ack buf make ≡ ret (m, r)
    → (header : MqttHeader) × (read_header buf ≡ ret header) × (m ≡ make header 0 0)
unfolding htons
read_ack_lem buf make m r e = read_id_prefix buf _ e λ header e1 rest. (header, e1, cc rest)

-- The steps of a packet that is a fixed header only.
abbrev pub read_empty {ℓ} : {M : Type ℓ} → List ℕ → (MqttHeader → ℕ → M) → Exec (M × ℤ)
read_empty buf make = do
  header ← read_header buf
  (size, step) ← read_length buf
  ret (make header size, int_of_size (length buf))

pub read_empty_lem {ℓ} :
    {M : Type ℓ} (buf : List ℕ) (make : MqttHeader → ℕ → M) (m : M) (r : ℤ)
    → read_empty buf make ≡ ret (m, r)
    → (header : MqttHeader) × (read_header buf ≡ ret header) × (m ≡ make header 0)
read_empty_lem buf make m r e = read_prefix buf _ e λ header step e1 far rest. (header, e1, cc rest)

-- On every buffer the decoder of CONNECT leaves the bounds of a range: its first text begins at
-- step 4 or later and ends at the start of the buffer.
pub decode_connect : (m : MqttConnect) (buf : List ℕ) → Connect.decode m buf ≡ undef
unfolding Connect.decode
decode_connect m buf =
    undef_of_not_ret _
      λ x e. read_prefix buf _ e λ header step e1 far rest. cc (read_text_undef buf step far, rest)

-- So does the decoder of PUBLISH, at the topic.
pub decode_publish : (m : MqttPublish) (buf : List ℕ) → Publish.decode m buf ≡ undef
unfolding Publish.decode
decode_publish m buf =
    undef_of_not_ret _
      λ x e. read_prefix buf _ e λ header step e1 far rest. cc (read_text_undef buf step far, rest)

-- SUBSCRIBE is read with identifier 0 and no topic.
pub decode_subscribe :
    (m : MqttSubscribe) (buf : List ℕ) (m' : MqttSubscribe) (r : ℤ)
    → Subscribe.decode m buf ≡ ret (m', r)
    → (header : MqttHeader) × (read_header buf ≡ ret header)
      × (m' ≡ record m { header = header; size = 0; seq = 0 })
unfolding Subscribe.decode htons
decode_subscribe m buf m' r e = read_id_prefix buf _ e λ header e1 rest. (header, e1, cc rest)

-- UNSUBSCRIBE is read with identifier 0 and no topic.
pub decode_unsubscribe :
    (m : MqttUnsubscribe) (buf : List ℕ) (m' : MqttUnsubscribe) (r : ℤ)
    → Unsubscribe.decode m buf ≡ ret (m', r)
    → (header : MqttHeader) × (read_header buf ≡ ret header)
      × (m' ≡ record m { header = header; size = 0; seq = 0 })
unfolding Unsubscribe.decode htons
decode_unsubscribe m buf m' r e = read_id_prefix buf _ e λ header e1 rest. (header, e1, cc rest)

pub decode_suback :
    (m : MqttSuback) (buf : List ℕ) (m' : MqttSuback) (r : ℤ)
    → Suback.decode m buf ≡ ret (m', r)
    → (header : MqttHeader) × (bs : List ℕ) × (read_header buf ≡ ret header)
      × (m' ≡ record m { header = header; size = 0; seq = 0; results = m.results ++ bs })
unfolding Suback.decode htons
decode_suback m buf m' r e = read_id_prefix buf _ e λ header e1 rest.
    >>=-elim (copy_range buf 4 (Suback.remainder 0 4)) _ rest
      λ bs e2 rest'. (header, bs, e1, cc rest')

pub decode_connack :
    (m : MqttConnectAck) (buf : List ℕ) (m' : MqttConnectAck) (r : ℤ)
    → ConnectAck.decode m buf ≡ ret (m', r)
    → (read_header buf ≡ ret m'.header) × (m'.size ≡ 0)
unfolding ConnectAck.decode
decode_connack m buf m' r e = read_prefix buf _ e λ header step e1 far rest.
    >>=-elim (at buf step) _ rest λ sp e2 rest'.
      >>=-elim (ConnectAck.load_status buf (step + 1)) _ rest'
        λ result e3 rest''. (e1 ∙ ap ret (cc rest''), cc rest'')

-- The decoders of CONNECT and PUBLISH leave the bounds of a range on every buffer.
decode_undefined :
    (m : MqttConnect) (m' : MqttPublish) (buf : List ℕ)
    → (Connect.decode m buf ≡ undef) × (Publish.decode m' buf ≡ undef)
decode_undefined m m' buf = (decode_connect m buf, decode_publish m' buf)
