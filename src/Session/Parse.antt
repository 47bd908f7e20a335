-- ===== src/Session/Parse.antt =====
-- `parseMqtt` of src/MqttSession.hpp.
pub mod Outcome
use k_mqttd.Base.{ℕ, List, Exec, ret, ◌>>=◌, ℤ, Option, none, some}
use k_mqttd.Protocol.Header.{
  MqttHeader, Stale, Command, command_of, no_command, connect, connack, publish, puback, pubrec,
  pubrel, pubcomp, subscribe, suback, unsubscribe, unsuback, pingreq, pingresp, disconnect,
  reserved,
}
use k_mqttd.Protocol.Message.{Message}
use k_mqttd.Protocol.Connect
use k_mqttd.Protocol.ConnectAck
use k_mqttd.Protocol.Publish
use k_mqttd.Protocol.Puback
use k_mqttd.Protocol.Pubrec
use k_mqttd.Protocol.Pubrel
use k_mqttd.Protocol.Pubcomp
use k_mqttd.Protocol.Subscribe
use k_mqttd.Protocol.Suback
use k_mqttd.Protocol.Unsubscribe
use k_mqttd.Protocol.Unsuback
use k_mqttd.Protocol.Ping
use k_mqttd.Protocol.Pong
use k_mqttd.Protocol.Disconnect

-- The decoded message; what `decode` returns is not looked at.
abbrev pub received : {M : Type 0} → (M → Message) → Exec (M × ℤ) → Exec (Option Message)
received f run = do (m, result) ← run; ret (some (f m))

-- The `switch`. A new message is decoded into; `none` is the null pointer.
unfoldable pub parse_command : Command → Stale → List ℕ → Exec (Option Message)
parse_command connect s data' = received Message.connect (Connect.decode (Connect.blank s) data')
parse_command connack s data' =
    received Message.connack (ConnectAck.decode (ConnectAck.blank s) data')
parse_command publish s data' = received Message.publish (Publish.decode (Publish.blank s) data')
parse_command puback s data' = received Message.puback (Puback.decode (Puback.blank s) data')
parse_command pubrec s data' = received Message.pubrec (Pubrec.decode (Pubrec.blank s) data')
parse_command pubrel s data' = received Message.pubrel (Pubrel.decode (Pubrel.blank s) data')
parse_command pubcomp s data' = received Message.pubcomp (Pubcomp.decode (Pubcomp.blank s) data')
parse_command subscribe s data' =
    received Message.subscribe (Subscribe.decode (Subscribe.blank s) data')
parse_command suback s data' = received Message.suback (Suback.decode (Suback.blank s) data')
parse_command unsubscribe s data' =
    received Message.unsubscribe (Unsubscribe.decode (Unsubscribe.blank s) data')
parse_command unsuback s data' =
    received Message.unsuback (Unsuback.decode (Unsuback.blank s) data')
parse_command pingreq s data' = received Message.ping (Ping.decode (Ping.make s) data')
parse_command pingresp s data' = received Message.pong (Pong.decode (Pong.make s) data')
parse_command disconnect s data' =
    received Message.disconnect (Disconnect.decode (Disconnect.make s) data')
parse_command no_command s data' = ret none
parse_command reserved s data' = ret none

unfoldable pub parse_mqtt : Stale → MqttHeader → List ℕ → Exec (Option Message)
unfolding parse_command
parse_mqtt s header data' = parse_command (command_of header.command) s data'
