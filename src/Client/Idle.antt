-- ===== src/Client/Idle.antt =====
-- A client of src/MqttClient.hpp without messages in its windows.
use k_mqttd.Base.{ℕ, ◌≡◌, refl, [], true, ret, subst, arith}
use k_mqttd.Protocol.Header.{
  Command, command_of, Stale, no_command, connect, connack, publish, puback, pubrec, pubrel,
  pubcomp, subscribe, suback, unsubscribe, unsuback, pingreq, pingresp, disconnect, reserved,
}
use k_mqttd.Protocol.Message
use k_mqttd.Protocol.Message.{Message}
use k_mqttd.Client.{
  MqttClient, write, un_login, on_puback, on_pubrec, on_pubrel, on_pubcomp, on_ping,
  deliver_command, deliver,
}
use k_mqttd.Client.Windows.{Window, erase}
use k_mqttd.Protocol.Puback.{MqttPuback}
use k_mqttd.Protocol.Pubcomp.{MqttPubcomp}

-- No package is in a window, and `func_OnUnLogin` is set.
pub record IsIdle (c : MqttClient) : Type 0 where
  pub un_login_set : c.has_un_login ≡ true
  pub squeue_empty : c.squeue ≡ []
  pub rqueue_empty : c.rqueue ≡ []

pub un_login-IsIdle : (c : MqttClient) → IsIdle c → IsIdle (un_login c)
unfolding un_login
un_login-IsIdle c h = ground arith

write-IsIdle : (m : Message) (c : MqttClient) → IsIdle c → IsIdle (write m c)
unfolding write
write-IsIdle m c h = record {
  un_login_set = h.un_login_set;
  squeue_empty = h.squeue_empty;
  rqueue_empty = h.rqueue_empty;
}

erase_empty : (k : ℕ) (w : Window) → w ≡ [] → erase k w ≡ []
unfolding erase
erase_empty k w e = rw e refl

on_puback-IsIdle : (m : MqttPuback) (c : MqttClient) → IsIdle c → IsIdle (on_puback m c)
unfolding on_puback
on_puback-IsIdle m c h = record {
  un_login_set = h.un_login_set;
  squeue_empty = erase_empty m.seq c.squeue h.squeue_empty;
  rqueue_empty = h.rqueue_empty;
}

on_pubcomp-IsIdle : (m : MqttPubcomp) (c : MqttClient) → IsIdle c → IsIdle (on_pubcomp m c)
unfolding on_pubcomp
on_pubcomp-IsIdle m c h = record {
  un_login_set = h.un_login_set;
  squeue_empty = h.squeue_empty;
  rqueue_empty = erase_empty m.seq c.rqueue h.rqueue_empty;
}

kept : {d c : MqttClient} → ret d ≡ ret c → IsIdle d → IsIdle c
kept {d} {c} e h = let same : d ≡ c = cc e in subst IsIdle same h

deliver_command-IsIdle :
    (code : Command) (s : Stale) (m : Message) (c c' : MqttClient)
    → ¬ (Message.class m ≡ publish)
    → IsIdle c
    → deliver_command code s m c ≡ ret c'
    → IsIdle c'
unfolding deliver_command on_pubrec on_pubrel on_ping
deliver_command-IsIdle publish s (Message.publish m) c c' ne h e = absurd (ne refl)
deliver_command-IsIdle puback s (Message.puback m) c c' ne h e = kept e (on_puback-IsIdle m c h)
deliver_command-IsIdle pubcomp s (Message.pubcomp m) c c' ne h e = kept e (on_pubcomp-IsIdle m c h)
deliver_command-IsIdle pubrec s (Message.pubrec m) c c' ne h e = kept e (write-IsIdle _ c h)
deliver_command-IsIdle pubrel s (Message.pubrel m) c c' ne h e = kept e (write-IsIdle _ c h)
deliver_command-IsIdle pingreq s (Message.ping m) c c' ne h e = kept e (write-IsIdle _ c h)
deliver_command-IsIdle connect s (Message.connect m) c c' ne h e = kept e h
deliver_command-IsIdle subscribe s (Message.subscribe m) c c' ne h e = kept e h
deliver_command-IsIdle unsubscribe s (Message.unsubscribe m) c c' ne h e = kept e h
deliver_command-IsIdle connack s m c c' ne h e = kept e (un_login-IsIdle c h)
deliver_command-IsIdle suback s m c c' ne h e = kept e (un_login-IsIdle c h)
deliver_command-IsIdle unsuback s m c c' ne h e = kept e (un_login-IsIdle c h)
deliver_command-IsIdle pingresp s m c c' ne h e = kept e (un_login-IsIdle c h)
deliver_command-IsIdle disconnect s m c c' ne h e = kept e (un_login-IsIdle c h)
deliver_command-IsIdle no_command s m c c' ne h e = kept e h
deliver_command-IsIdle reserved s m c c' ne h e = kept e h
deliver_command-IsIdle _ s m c c' ne h e = absurd (cc e)

-- `deliver` of a message other than a PUBLISH puts nothing into the windows.
pub deliver-IsIdle :
    (s : Stale) (m : Message) (c c' : MqttClient)
    → ¬ (Message.class m ≡ publish)
    → IsIdle c
    → deliver s m c ≡ ret c'
    → IsIdle c'
unfolding deliver
deliver-IsIdle s m c c' ne h e =
    deliver_command-IsIdle (command_of (Message.header m).command) s m c c' ne h e
