-- ===== src/Session/Message/Closing.antt =====
-- Which messages end a session.
use k_mqttd.Base.{
  ℕ, ◌≡◌, refl, sym, ap, ◌∙◌, subst, Bool, true, false, not, ◌&&◌, ◌==◌, none, some, List, ◌∷◌, ret,
  >>=-elim, Exec-cases, arith, inl, inr, ◌⊎◌,
}
use k_mqttd.Protocol.Header.{
  Command, MqttHeader, command_of, Stale, no_command, connect, connack, publish, puback, pubrec,
  pubrel, pubcomp, subscribe, suback, unsubscribe, unsuback, pingreq, pingresp, disconnect,
  reserved, header_of_byte,
}
use k_mqttd.Protocol.Message
use k_mqttd.Protocol.Message.{Message}
use k_mqttd.Protocol.Publish.{MqttPublish}
use k_mqttd.Client.{
  MqttClient, write, un_login, on_publish, on_puback, on_pubrec, on_pubrel, on_pubcomp, on_ping,
  deliver_command, deliver,
}
use k_mqttd.Session.State.{MqttSession, do_close, do_error}
use k_mqttd.Session.Parse.{parse_mqtt}
use k_mqttd.Session.Parse.Outcome.{parse_mqtt-IsRead, parse_mqtt-none}
use k_mqttd.Session.Message.{fail, on_message, finish}
use k_mqttd.Session.Message.Delivered.{header_of_first}

-- The commands that only a server sends, DISCONNECT, and those that MQTT reserves.
abbrev pub closes : Command → Bool
closes connack = true
closes suback = true
closes unsuback = true
closes pingresp = true
closes disconnect = true
closes no_command = true
closes reserved = true
closes _ = false

-- Whether `func_OnUnLogin` has been called.
pub same_logins : (c : MqttClient) → (c.un_logins == c.un_logins) ≡ true
same_logins c = ground arith

un_login-logins :
    (c : MqttClient) → c.has_un_login ≡ true → ((un_login c).un_logins == c.un_logins) ≡ false
unfolding un_login
un_login-logins c set = ground arith

kept_logins :
    {d c' : MqttClient} (c : MqttClient) (b : Bool)
    → ret d ≡ ret c'
    → (d.un_logins == c.un_logins) ≡ b
    → (c'.un_logins == c.un_logins) ≡ b
kept_logins {d} {c'} c b e h =
    let same : d ≡ c' = cc e in subst (λ (x : MqttClient). (x.un_logins == c.un_logins) ≡ b) same h

on_publish-logins :
    (m : MqttPublish) (c : MqttClient) → ((on_publish m c).un_logins == c.un_logins) ≡ true
unfolding on_publish write
on_publish-logins m c = ground arith

deliver_command-logins :
    (code : Command) (s : Stale) (m : Message) (c c' : MqttClient)
    → c.has_un_login ≡ true
    → ¬ (code ≡ no_command)
    → ¬ (code ≡ reserved)
    → deliver_command code s m c ≡ ret c'
    → (c'.un_logins == c.un_logins) ≡ not (closes code)
unfolding deliver_command on_puback on_pubrec on_pubrel on_pubcomp on_ping write
deliver_command-logins publish s (Message.publish m) c c' set ne ne' e =
    kept_logins c true e (on_publish-logins m c)
deliver_command-logins puback s (Message.puback m) c c' set ne ne' e =
    kept_logins c true e (same_logins c)
deliver_command-logins pubrec s (Message.pubrec m) c c' set ne ne' e =
    kept_logins c true e (same_logins c)
deliver_command-logins pubrel s (Message.pubrel m) c c' set ne ne' e =
    kept_logins c true e (same_logins c)
deliver_command-logins pubcomp s (Message.pubcomp m) c c' set ne ne' e =
    kept_logins c true e (same_logins c)
deliver_command-logins pingreq s (Message.ping m) c c' set ne ne' e =
    kept_logins c true e (same_logins c)
deliver_command-logins connect s (Message.connect m) c c' set ne ne' e =
    kept_logins c true e (same_logins c)
deliver_command-logins subscribe s (Message.subscribe m) c c' set ne ne' e =
    kept_logins c true e (same_logins c)
deliver_command-logins unsubscribe s (Message.unsubscribe m) c c' set ne ne' e =
    kept_logins c true e (same_logins c)
deliver_command-logins connack s m c c' set ne ne' e = kept_logins c false e (un_login-logins c set)
deliver_command-logins suback s m c c' set ne ne' e = kept_logins c false e (un_login-logins c set)
deliver_command-logins unsuback s m c c' set ne ne' e =
    kept_logins c false e (un_login-logins c set)
deliver_command-logins pingresp s m c c' set ne ne' e =
    kept_logins c false e (un_login-logins c set)
deliver_command-logins disconnect s m c c' set ne ne' e =
    kept_logins c false e (un_login-logins c set)
deliver_command-logins no_command s m c c' set ne ne' e = absurd (ne refl)
deliver_command-logins reserved s m c c' set ne ne' e = absurd (ne' refl)
deliver_command-logins _ s m c c' set ne ne' e = absurd (cc e)

is_open_of : {t s' : MqttSession} → ret t ≡ ret s' → s'.is_open ≡ t.is_open
is_open_of {t} {s'} e = let same : t ≡ s' = cc e in ap (λ (x : MqttSession). x.is_open) (sym same)

-- After `context->func` with a message.
on_message-open :
    (st : Stale) (now : ℕ) (m : Message) (s s' : MqttSession) (b : Bool)
    → ((c : MqttClient) → deliver st m s.client ≡ ret c → (c.un_logins == s.client.un_logins) ≡ b)
    → on_message st now m s ≡ ret s'
    → s'.is_open ≡ (b && s.is_open)
unfolding on_message do_close
on_message-open st now m s s' true logins e =
    >>=-elim (deliver st m s.client) _ e
      λ client delivered rest. is_open_of (rw (logins client delivered) at rest)
on_message-open st now m s s' false logins e =
    >>=-elim (deliver st m s.client) _ e
      λ client delivered rest. is_open_of (rw (logins client delivered) at rest)

pub fail-open : (s : MqttSession) → (fail s).is_open ≡ false
unfolding fail do_error do_close
fail-open s = refl

closes_none : (code : Command) → (code ≡ no_command) ⊎ (code ≡ reserved) → closes code ≡ true
closes_none code (inl e) = rw e refl
closes_none code (inr e) = rw e refl

-- When a message has been read whole and the behaviour is defined, with `func_OnUnLogin` set: the
-- session is closed exactly if the message is one that only a server sends, a DISCONNECT, or of a
-- command that MQTT reserves; every other message leaves the socket as it was.
pub finish-open :
    (st : Stale) (now first : ℕ) (rest : List ℕ) (s s' : MqttSession)
    → s.client.has_un_login ≡ true
    → finish st now (header_of_byte first) (first ∷ rest) s ≡ ret s'
    → s'.is_open ≡ (not (closes (command_of (header_of_byte first).command)) && s.is_open)
unfolding finish deliver
finish-open st now first rest s s' set e =
    let h = header_of_byte first in
    let code = command_of h.command in
    elim (Exec-cases (parse_mqtt st h (first ∷ rest))) [
      | inl gone ↦ absurd (cc (rw gone at e))
      | inr (none, parsed) ↦
          let left : fail s ≡ s' = cc (rw parsed at e) in
          let shut = closes_none code ((parse_mqtt-none st h (first ∷ rest)).0 parsed) in
          ap (λ (x : MqttSession). x.is_open) (sym left) ∙ (fail-open s ∙ rw shut refl)
      | inr (some m, parsed) ↦
          let is = parse_mqtt-IsRead st h (first ∷ rest) m parsed in
          let none_if = (parse_mqtt-none st h (first ∷ rest)).1 in
          let same = header_of_first first rest (Message.header m) is.header_is in
          on_message-open st now m s s' (not (closes code))
            (λ c delivered.
              deliver_command-logins code st m s.client c set
                (λ is_none. absurd (cc (none_if (inl is_none), parsed)))
                (λ is_reserved. absurd (cc (none_if (inr is_reserved), parsed)))
                (ap (λ (x : MqttHeader). deliver_command (command_of x.command) st m s.client) same
                  ∙ delivered))
            (rw parsed at e)
    ]
