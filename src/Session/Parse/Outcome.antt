-- ===== src/Session/Parse/Outcome.antt =====
-- What `parseMqtt` returns on any buffer.
use k_mqttd.Base.{
  ◌↔◌, sym, subst, ℕ, ◌≡◌, refl, ◌∙◌, ◌⊎◌, inl, inr, List, Exec, ret, undef, ℤ, none, some,
  >>=-elim,
}
use k_mqttd.Protocol.Header.{
  MqttHeader, Stale, Command, command_of, no_command, connect, connack, publish, puback, pubrec,
  pubrel, pubcomp, subscribe, suback, unsubscribe, unsuback, pingreq, pingresp, disconnect,
  reserved,
}
use k_mqttd.Protocol.Frame.{read_header}
use k_mqttd.Protocol.Message
use k_mqttd.Protocol.Message.{Message}
use k_mqttd.Protocol.Received.{
  read_ack, read_empty, read_ack_lem, read_empty_lem, decode_connect, decode_publish,
  decode_subscribe, decode_unsubscribe, decode_suback, decode_connack,
}
use k_mqttd.Session.Parse.{received, parse_command, parse_mqtt}
use k_mqttd.Protocol.Connect
use k_mqttd.Protocol.ConnectAck
use k_mqttd.Protocol.Publish
use k_mqttd.Protocol.Puback
use k_mqttd.Protocol.Pubrec
use k_mqttd.Protocol.Pubrel
use k_mqttd.Protocol.Pubcomp
use k_mqttd.Protocol.Subscribe
use k_mqttd.Protocol.Suback
use k_mqttd.Protocol.Unsubscribe
use k_mqttd.Protocol.Unsuback
use k_mqttd.Protocol.Ping
use k_mqttd.Protocol.Pong
use k_mqttd.Protocol.Disconnect

-- A message of the class `c` that has the first byte of the buffer for its header, size 0, and
-- identifier 0 if its class has an identifier.
pub record IsRead (c : Command) (buf : List ℕ) (m : Message) : Type 0 where
  pub class_is : Message.class m ≡ c
  pub header_is : read_header buf ≡ ret (Message.header m)
  size_zero : Message.size m ≡ 0
  id_zero : (Message.seq m ≡ none) ⊎ (Message.seq m ≡ some 0)

received_elim {κ} :
    {M : Type 0} (P : Message → Type κ) (f : M → Message) (run : Exec (M × ℤ)) {m : Message}
    → received f run ≡ ret (some m)
    → ((x : M) (r : ℤ) → run ≡ ret (x, r) → P (f x))
    → P m
received_elim P f run e use_it = >>=-elim run _ e λ p e1 rest. subst P (cc rest) (use_it p.0 p.1 e1)

module _ {M : Type 0} (c : Command) (f : M → Message) (buf : List ℕ) (x : M) (r : ℤ) where
  ack-IsRead :
      (make : MqttHeader → ℕ → ℕ → M)
      → read_ack buf make ≡ ret (x, r)
      → ((h : MqttHeader) → read_header buf ≡ ret h → IsRead c buf (f (make h 0 0)))
      → IsRead c buf (f x)
  ack-IsRead make run use_it =
      let (h, e1, is) = read_ack_lem buf make x r run in
      subst (λ y. IsRead c buf (f y)) (sym is) (use_it h e1)

  empty-IsRead :
      (make : MqttHeader → ℕ → M)
      → read_empty buf make ≡ ret (x, r)
      → ((h : MqttHeader) → read_header buf ≡ ret h → IsRead c buf (f (make h 0)))
      → IsRead c buf (f x)
  empty-IsRead make run use_it =
      let (h, e1, is) = read_empty_lem buf make x r run in
      subst (λ y. IsRead c buf (f y)) (sym is) (use_it h e1)

parse_command_lem :
    (c : Command) (s : Stale) (buf : List ℕ) (m : Message)
    → parse_command c s buf ≡ ret (some m)
    → IsRead c buf m
unfolding parse_command Puback.decode Pubrec.decode Pubrel.decode Pubcomp.decode Unsuback.decode
    Ping.decode Pong.decode Disconnect.decode
parse_command_lem puback s buf m e = received_elim (IsRead puback buf) Message.puback _ e λ x r run.
    ack-IsRead puback Message.puback buf x r
      (λ h n id. record (Puback.blank s) { size = n; header = h; seq = id }) run
      λ h e1. record { class_is = refl; header_is = e1; size_zero = refl; id_zero = inr refl }
parse_command_lem pubrec s buf m e = received_elim (IsRead pubrec buf) Message.pubrec _ e λ x r run.
    ack-IsRead pubrec Message.pubrec buf x r
      (λ h n id. record (Pubrec.blank s) { size = n; header = h; seq = id }) run
      λ h e1. record { class_is = refl; header_is = e1; size_zero = refl; id_zero = inr refl }
parse_command_lem pubrel s buf m e = received_elim (IsRead pubrel buf) Message.pubrel _ e λ x r run.
    ack-IsRead pubrel Message.pubrel buf x r
      (λ h n id. record (Pubrel.blank s) { size = n; header = h; seq = id }) run
      λ h e1. record { class_is = refl; header_is = e1; size_zero = refl; id_zero = inr refl }
parse_command_lem pubcomp s buf m e =
    received_elim (IsRead pubcomp buf) Message.pubcomp _ e λ x r run.
      ack-IsRead pubcomp Message.pubcomp buf x r
        (λ h n id. record (Pubcomp.blank s) { size = n; header = h; seq = id }) run
        λ h e1. record { class_is = refl; header_is = e1; size_zero = refl; id_zero = inr refl }
parse_command_lem unsuback s buf m e =
    received_elim (IsRead unsuback buf) Message.unsuback _ e λ x r run.
      ack-IsRead unsuback Message.unsuback buf x r
        (λ h n id. record (Unsuback.blank s) { size = n; header = h; seq = id }) run
        λ h e1. record { class_is = refl; header_is = e1; size_zero = refl; id_zero = inr refl }
parse_command_lem pingreq s buf m e = received_elim (IsRead pingreq buf) Message.ping _ e λ x r run.
    empty-IsRead pingreq Message.ping buf x r (λ h n. record (Ping.make s) { size = n; header = h })
      run λ h e1. record { class_is = refl; header_is = e1; size_zero = refl; id_zero = inl refl }
parse_command_lem pingresp s buf m e =
    received_elim (IsRead pingresp buf) Message.pong _ e λ x r run.
      empty-IsRead pingresp Message.pong buf x r
        (λ h n. record (Pong.make s) { size = n; header = h }) run
        λ h e1. record { class_is = refl; header_is = e1; size_zero = refl; id_zero = inl refl }
parse_command_lem disconnect s buf m e =
    received_elim (IsRead disconnect buf) Message.disconnect _ e λ x r run.
      empty-IsRead disconnect Message.disconnect buf x r
        (λ h n. record (Disconnect.make s) { size = n; header = h }) run
        λ h e1. record { class_is = refl; header_is = e1; size_zero = refl; id_zero = inl refl }
parse_command_lem subscribe s buf m e =
    received_elim (IsRead subscribe buf) Message.subscribe _ e λ x r run.
      let (h, e1, is) = decode_subscribe (Subscribe.blank s) buf x r run in
      subst (λ y. IsRead subscribe buf (Message.subscribe y)) (sym is)
        (record { class_is = refl; header_is = e1; size_zero = refl; id_zero = inr refl })
parse_command_lem unsubscribe s buf m e =
    received_elim (IsRead unsubscribe buf) Message.unsubscribe _ e λ x r run.
      let (h, e1, is) = decode_unsubscribe (Unsubscribe.blank s) buf x r run in
      subst (λ y. IsRead unsubscribe buf (Message.unsubscribe y)) (sym is)
        (record { class_is = refl; header_is = e1; size_zero = refl; id_zero = inr refl })
parse_command_lem suback s buf m e = received_elim (IsRead suback buf) Message.suback _ e λ x r run.
    let (h, bs, e1, is) = decode_suback (Suback.blank s) buf x r run in
    subst (λ y. IsRead suback buf (Message.suback y)) (sym is)
      (record { class_is = refl; header_is = e1; size_zero = refl; id_zero = inr refl })
parse_command_lem connack s buf m e =
    received_elim (IsRead connack buf) Message.connack _ e λ x r run.
      let (e1, size_zero) = decode_connack (ConnectAck.blank s) buf x r run in
      record { class_is = refl; header_is = e1; size_zero = size_zero; id_zero = inl refl }
parse_command_lem connect s buf m e = absurd (cc (decode_connect (Connect.blank s) buf, e))
parse_command_lem publish s buf m e = absurd (cc (decode_publish (Publish.blank s) buf, e))
parse_command_lem no_command s buf m e = absurd (cc e)
parse_command_lem reserved s buf m e = absurd (cc e)

-- Every message that `parseMqtt` returns is of the class that its header's command names, has the
-- first byte of the buffer for its header, and has size 0 and, where its class has an identifier,
-- identifier 0, whatever the buffer holds.
pub parse_mqtt-IsRead :
    (s : Stale) (header : MqttHeader) (buf : List ℕ) (m : Message)
    → parse_mqtt s header buf ≡ ret (some m)
    → IsRead (command_of header.command) buf m
unfolding parse_mqtt
parse_mqtt-IsRead s header buf m e = parse_command_lem (command_of header.command) s buf m e

received-ne-none :
    {M : Type 0} (f : M → Message) (run : Exec (M × ℤ)) → ¬ (received f run ≡ ret none)
received-ne-none f (ret x) e = cc
received-ne-none f undef e = cc

parse_command-none :
    (c : Command) (s : Stale) (buf : List ℕ)
    → parse_command c s buf ≡ ret none
    → (c ≡ no_command) ⊎ (c ≡ reserved)
unfolding parse_command
parse_command-none no_command s buf e = inl refl
parse_command-none reserved s buf e = inr refl
parse_command-none _ s buf e = absurd (received-ne-none _ _ e)

none-parse_command :
    (c : Command) (s : Stale) (buf : List ℕ)
    → (c ≡ no_command) ⊎ (c ≡ reserved)
    → parse_command c s buf ≡ ret none
unfolding parse_command
none-parse_command c s buf (inl e) = rw (e, parse_command)
none-parse_command c s buf (inr e) = rw (e, parse_command)

-- `parseMqtt` returns the null pointer exactly for the two commands that MQTT reserves, 0 and 15.
pub parse_mqtt-none :
    (s : Stale) (header : MqttHeader) (buf : List ℕ)
    → (parse_mqtt s header buf ≡ ret none)
      ↔ ((command_of header.command ≡ no_command) ⊎ (command_of header.command ≡ reserved))
unfolding parse_mqtt
parse_mqtt-none s header buf = (
  parse_command-none (command_of header.command) s buf,
  none-parse_command (command_of header.command) s buf,
)

parse_command-ne_publish :
    (c : Command) (s : Stale) (buf : List ℕ) (m : Message)
    → parse_command c s buf ≡ ret (some m)
    → ¬ (c ≡ publish)
unfolding parse_command
parse_command-ne_publish publish s buf m e is = cc (decode_publish (Publish.blank s) buf, e)
parse_command-ne_publish _ s buf m e is = cc is

-- `parseMqtt` returns no PUBLISH.
pub parse_mqtt-ne_publish :
    (s : Stale) (header : MqttHeader) (buf : List ℕ) (m : Message)
    → parse_mqtt s header buf ≡ ret (some m)
    → ¬ (Message.class m ≡ publish)
unfolding parse_mqtt
parse_mqtt-ne_publish s header buf m e is =
    parse_command-ne_publish (command_of header.command) s buf m e
      (sym (parse_mqtt-IsRead s header buf m e).class_is ∙ is)
