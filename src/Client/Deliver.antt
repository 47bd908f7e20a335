-- ===== src/Client/Deliver.antt =====
-- `MqttClient::deliver` on the receive window.
use k_mqttd.Base.{
  ℕ, ◌≡◌, refl, Option, none, some, ◌==◌, ◌&&◌, if◌then◌else◌, arith, ret, ap, subst,
}
use k_mqttd.Protocol.Header.{
  Command, command_of, Stale, no_command, connect, connack, publish, puback, pubrec, pubrel,
  pubcomp, subscribe, suback, unsubscribe, unsuback, pingreq, pingresp, disconnect, reserved, qos2,
}
use k_mqttd.Protocol.Message
use k_mqttd.Protocol.Message.{Message}
use k_mqttd.Protocol.Publish.{MqttPublish}
use k_mqttd.Client.{
  MqttClient, packed, write, un_login, on_publish, on_puback, on_pubrec, on_pubrel, on_pubcomp,
  on_ping, deliver_command, deliver,
}
use k_mqttd.Client.Windows.{Package, find, find-insert, find-erase}

-- What a message makes of the package that stands under an identifier.
abbrev pub after : Command → Message → ℕ → Option Package → Option Package
after publish (Message.publish m) k old =
    if m.header.qos == qos2 && k == m.seq
    then (elim old [ none ↦ some (packed m) | some q ↦ some q ])
    else old
after pubcomp (Message.pubcomp m) k old = if k == m.seq then none else old
after _ m k old = old

on_publish-rqueue :
    (m : MqttPublish) (c : MqttClient) (k : ℕ)
    → find k (on_publish m c).rqueue ≡ after publish (Message.publish m) k (find k c.rqueue)
unfolding on_publish write
on_publish-rqueue m c k = ground (arith, find-insert k m.seq (packed m) c.rqueue)

pub un_login-rqueue : (c : MqttClient) → (un_login c).rqueue ≡ c.rqueue
unfolding un_login
un_login-rqueue c = ground arith

-- A client that `deliver` returns, once the window of the step's result is known.
returned :
    {d c' : MqttClient} (k : ℕ) (w : Option Package)
    → ret d ≡ ret c'
    → find k d.rqueue ≡ w
    → find k c'.rqueue ≡ w
returned {d} {c'} k w e h =
    let same : d ≡ c' = cc e in subst (λ (x : MqttClient). find k x.rqueue ≡ w) same h

deliver_command-rqueue :
    (code : Command) (s : Stale) (m : Message) (c c' : MqttClient) (k : ℕ)
    → deliver_command code s m c ≡ ret c'
    → find k c'.rqueue ≡ after code m k (find k c.rqueue)
unfolding deliver_command on_puback on_pubrec on_pubrel on_pubcomp on_ping write
deliver_command-rqueue publish s (Message.publish m) c c' k e =
    returned k _ e (on_publish-rqueue m c k)
deliver_command-rqueue pubcomp s (Message.pubcomp m) c c' k e =
    returned k _ e (find-erase k m.seq c.rqueue)
deliver_command-rqueue connect s (Message.connect m) c c' k e = returned k _ e refl
deliver_command-rqueue puback s (Message.puback m) c c' k e = returned k _ e refl
deliver_command-rqueue pubrec s (Message.pubrec m) c c' k e = returned k _ e refl
deliver_command-rqueue pubrel s (Message.pubrel m) c c' k e = returned k _ e refl
deliver_command-rqueue subscribe s (Message.subscribe m) c c' k e = returned k _ e refl
deliver_command-rqueue unsubscribe s (Message.unsubscribe m) c c' k e = returned k _ e refl
deliver_command-rqueue pingreq s (Message.ping m) c c' k e = returned k _ e refl
deliver_command-rqueue connack s m c c' k e = returned k _ e (ap (find k) (un_login-rqueue c))
deliver_command-rqueue suback s m c c' k e = returned k _ e (ap (find k) (un_login-rqueue c))
deliver_command-rqueue unsuback s m c c' k e = returned k _ e (ap (find k) (un_login-rqueue c))
deliver_command-rqueue pingresp s m c c' k e = returned k _ e (ap (find k) (un_login-rqueue c))
deliver_command-rqueue disconnect s m c c' k e = returned k _ e (ap (find k) (un_login-rqueue c))
deliver_command-rqueue no_command s m c c' k e = returned k _ e refl
deliver_command-rqueue reserved s m c c' k e = returned k _ e refl
deliver_command-rqueue _ s m c c' k e = absurd (cc e)

-- Where `deliver` returns, the receive window is as it was but for two messages: a PUBLISH of quality
-- of service 2 puts its package under its identifier, unless one is there, and a PUBCOMP removes the
-- package of its identifier.
pub deliver-rqueue :
    (s : Stale) (m : Message) (c c' : MqttClient) (k : ℕ)
    → deliver s m c ≡ ret c'
    → find k c'.rqueue ≡ after (command_of (Message.header m).command) m k (find k c.rqueue)
unfolding deliver
deliver-rqueue s m c c' k e =
    deliver_command-rqueue (command_of (Message.header m).command) s m c c' k e

deliver_class :
    (s : Stale) (m : Message) (c : MqttClient)
    → (c' : MqttClient) × (deliver_command (Message.class m) s m c ≡ ret c')
unfolding deliver_command
deliver_class s (Message.connect m) c = (c, refl)
deliver_class s (Message.connack m) c = (un_login c, refl)
deliver_class s (Message.publish m) c = (on_publish m c, refl)
deliver_class s (Message.puback m) c = (on_puback m c, refl)
deliver_class s (Message.pubrec m) c = (on_pubrec m c, refl)
deliver_class s (Message.pubrel m) c = (on_pubrel m c, refl)
deliver_class s (Message.pubcomp m) c = (on_pubcomp m c, refl)
deliver_class s (Message.subscribe m) c = (c, refl)
deliver_class s (Message.suback m) c = (un_login c, refl)
deliver_class s (Message.unsubscribe m) c = (c, refl)
deliver_class s (Message.unsuback m) c = (un_login c, refl)
deliver_class s (Message.ping m) c = (on_ping s c, refl)
deliver_class s (Message.pong m) c = (un_login c, refl)
deliver_class s (Message.disconnect m) c = (un_login c, refl)

-- `deliver` returns for every message whose header has the command of its class.
pub deliver_returns :
    (s : Stale) (m : Message) (c : MqttClient)
    → Message.class m ≡ command_of (Message.header m).command
    → (c' : MqttClient) × (deliver s m c ≡ ret c')
unfolding deliver
deliver_returns s m c agree =
    subst (λ (code : Command). (c' : MqttClient) × (deliver_command code s m c ≡ ret c')) agree
      (deliver_class s m c)
