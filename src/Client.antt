-- ===== src/Client.antt =====
-- `MqttClient` of src/MqttClient.hpp: what a client does with a message that its session read.
pub mod Windows
pub mod Callbacks
pub mod Deliver
pub mod Exchange
pub mod Idle
use k_mqttd.Base.{
  ℕ, suc, List, [], ◌∷◌, ◌==◌, if◌then◌else◌, Bool, true, false, Exec, ret, undef, ◌>>=◌, ℤ, pos,
  negsuc,
}
use k_mqttd.Protocol.Header.{
  Command, command_of, command_code, MqttHeader, Stale, no_command, connect, connack, publish,
  puback, pubrec, pubrel, pubcomp, subscribe, suback, unsubscribe, unsuback, pingreq, pingresp,
  disconnect, reserved, qos1, qos2,
}
use k_mqttd.Protocol.Message
use k_mqttd.Protocol.Message.{Message}
use k_mqttd.Protocol.Connect.{MqttConnect}
use k_mqttd.Protocol.Publish.{MqttPublish}
use k_mqttd.Protocol.Subscribe.{MqttSubscribe}
use k_mqttd.Protocol.Unsubscribe.{MqttUnsubscribe}
use k_mqttd.Protocol.Puback
use k_mqttd.Protocol.Puback.{MqttPuback}
use k_mqttd.Protocol.Pubrec
use k_mqttd.Protocol.Pubrec.{MqttPubrec}
use k_mqttd.Protocol.Pubrel
use k_mqttd.Protocol.Pubrel.{MqttPubrel}
use k_mqttd.Protocol.Pubcomp
use k_mqttd.Protocol.Pubcomp.{MqttPubcomp}
use k_mqttd.Protocol.Ping.{MqttPing}
use k_mqttd.Protocol.Pong
use Windows.{Package, Window, insert, erase}

-- The two windows, whether `func_OnUnLogin` is set, how often it has been called, and what `write`
-- has returned so far, the latest first. No other member changes.
pub record MqttClient : Type 0 where
  pub squeue : Window
  pub rqueue : Window
  pub has_un_login : Bool
  pub un_logins : ℕ
  pub writes : List ℤ

-- A new client.
abbrev pub make : MqttClient
make = record { squeue = []; rqueue = []; has_un_login = false; un_logins = 0; writes = [] }

abbrev result_of : ℤ → ℤ
result_of (pos n) = pos 0
result_of (negsuc n) = negsuc n

-- `write` with the empty `do_write`: the message is encoded, and nothing is sent or called back.
unfoldable pub write : Message → MqttClient → MqttClient
write m c = record c { writes = result_of ((Message.encode m []).result) ∷ c.writes }

-- `func_OnUnLogin` where it is set. The session's function for it closes the socket.
unfoldable pub un_login : MqttClient → MqttClient
un_login c = if c.has_un_login then record c { un_logins = suc c.un_logins } else c

-- A package of a message: the base class is copied alone.
abbrev pub packed : MqttPublish → Package
packed m = record {
  status = command_code publish;
  date_stamp = 0;
  size = m.size;
  header = m.header;
}

unfoldable pub on_publish : MqttPublish → MqttClient → MqttClient
unfolding write
on_publish m c =
    if m.header.qos == qos1
    then write (Message.puback (Puback.make m.seq)) c
    else if m.header.qos == qos2
    then write (Message.pubrec (Pubrec.make m.seq))
        (record c { rqueue = insert m.seq (packed m) c.rqueue })
    else c

unfoldable pub on_puback : MqttPuback → MqttClient → MqttClient
on_puback m c = record c { squeue = erase m.seq c.squeue }

unfoldable pub on_pubrec : MqttPubrec → MqttClient → MqttClient
unfolding write
on_pubrec m c = write (Message.pubrel (Pubrel.make m.seq)) c

unfoldable pub on_pubrel : MqttPubrel → MqttClient → MqttClient
unfolding write
on_pubrel m c = write (Message.pubcomp (Pubcomp.make m.seq)) c

unfoldable pub on_pubcomp : MqttPubcomp → MqttClient → MqttClient
on_pubcomp m c = record c { rqueue = erase m.seq c.rqueue }

unfoldable pub on_ping : Stale → MqttClient → MqttClient
unfolding write
on_ping s c = write (Message.pong (Pong.make s)) c

-- `onAuth` only copies the message.
abbrev pub on_auth : MqttConnect → MqttClient → MqttClient
on_auth m c = c

-- `onSubscribe` only copies the topics, one by one.
abbrev pub on_subscribe : MqttSubscribe → MqttClient → MqttClient
on_subscribe m c = c

-- The body of `onUnSubscribe` is empty.
abbrev pub on_unsubscribe : MqttUnsubscribe → MqttClient → MqttClient
on_unsubscribe m c = c

-- The `switch` of `deliver`. A cast to another class than the message's has no defined behaviour.
unfoldable pub deliver_command : Command → Stale → Message → MqttClient → Exec MqttClient
unfolding un_login on_publish on_puback on_pubrec on_pubrel on_pubcomp on_ping
deliver_command connect s (Message.connect m) c = ret (on_auth m c)
deliver_command publish s (Message.publish m) c = ret (on_publish m c)
deliver_command puback s (Message.puback m) c = ret (on_puback m c)
deliver_command pubrec s (Message.pubrec m) c = ret (on_pubrec m c)
deliver_command pubrel s (Message.pubrel m) c = ret (on_pubrel m c)
deliver_command pubcomp s (Message.pubcomp m) c = ret (on_pubcomp m c)
deliver_command subscribe s (Message.subscribe m) c = ret (on_subscribe m c)
deliver_command unsubscribe s (Message.unsubscribe m) c = ret (on_unsubscribe m c)
deliver_command pingreq s (Message.ping m) c = ret (on_ping s c)
deliver_command connack s m c = ret (un_login c)
deliver_command suback s m c = ret (un_login c)
deliver_command unsuback s m c = ret (un_login c)
deliver_command pingresp s m c = ret (un_login c)
deliver_command disconnect s m c = ret (un_login c)
deliver_command no_command s m c = ret c
deliver_command reserved s m c = ret c
deliver_command _ s m c = undef

unfoldable pub deliver : Stale → Message → MqttClient → Exec MqttClient
unfolding deliver_command
deliver s m c = deliver_command (command_of (Message.header m).command) s m c
