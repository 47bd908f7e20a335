-- ===== src/Protocol/Message.antt =====
-- The class hierarchy under `MqttMessage` of src/mqtt/Protocol.hpp: a message is one of its
-- subclasses, and a virtual function is a function by clauses.
use k_mqttd.Base.{ℕ, List, Option, none, some}
use k_mqttd.Protocol.Header.{MqttHeader, Command}
use k_mqttd.Protocol.Header
use k_mqttd.Protocol.Frame.{Encoded}
use k_mqttd.Protocol.Connect
use k_mqttd.Protocol.Connect.{MqttConnect}
use k_mqttd.Protocol.ConnectAck
use k_mqttd.Protocol.ConnectAck.{MqttConnectAck}
use k_mqttd.Protocol.Publish
use k_mqttd.Protocol.Publish.{MqttPublish}
use k_mqttd.Protocol.Puback
use k_mqttd.Protocol.Puback.{MqttPuback}
use k_mqttd.Protocol.Pubrec
use k_mqttd.Protocol.Pubrec.{MqttPubrec}
use k_mqttd.Protocol.Pubrel
use k_mqttd.Protocol.Pubrel.{MqttPubrel}
use k_mqttd.Protocol.Pubcomp
use k_mqttd.Protocol.Pubcomp.{MqttPubcomp}
use k_mqttd.Protocol.Subscribe
use k_mqttd.Protocol.Subscribe.{MqttSubscribe}
use k_mqttd.Protocol.Suback
use k_mqttd.Protocol.Suback.{MqttSuback}
use k_mqttd.Protocol.Unsubscribe
use k_mqttd.Protocol.Unsubscribe.{MqttUnsubscribe}
use k_mqttd.Protocol.Unsuback
use k_mqttd.Protocol.Unsuback.{MqttUnsuback}
use k_mqttd.Protocol.Ping
use k_mqttd.Protocol.Ping.{MqttPing}
use k_mqttd.Protocol.Pong
use k_mqttd.Protocol.Pong.{MqttPong}
use k_mqttd.Protocol.Disconnect
use k_mqttd.Protocol.Disconnect.{MqttDisconnect}

pub data Message : Type 0 where
  connect : MqttConnect → Message
  connack : MqttConnectAck → Message
  publish : MqttPublish → Message
  puback : MqttPuback → Message
  pubrec : MqttPubrec → Message
  pubrel : MqttPubrel → Message
  pubcomp : MqttPubcomp → Message
  subscribe : MqttSubscribe → Message
  suback : MqttSuback → Message
  unsubscribe : MqttUnsubscribe → Message
  unsuback : MqttUnsuback → Message
  ping : MqttPing → Message
  pong : MqttPong → Message
  disconnect : MqttDisconnect → Message

abbrev pub size : Message → ℕ
size (connect m) = m.size
size (connack m) = m.size
size (publish m) = m.size
size (puback m) = m.size
size (pubrec m) = m.size
size (pubrel m) = m.size
size (pubcomp m) = m.size
size (subscribe m) = m.size
size (suback m) = m.size
size (unsubscribe m) = m.size
size (unsuback m) = m.size
size (ping m) = m.size
size (pong m) = m.size
size (disconnect m) = m.size

abbrev pub header : Message → MqttHeader
header (connect m) = m.header
header (connack m) = m.header
header (publish m) = m.header
header (puback m) = m.header
header (pubrec m) = m.header
header (pubrel m) = m.header
header (pubcomp m) = m.header
header (subscribe m) = m.header
header (suback m) = m.header
header (unsubscribe m) = m.header
header (unsuback m) = m.header
header (ping m) = m.header
header (pong m) = m.header
header (disconnect m) = m.header

-- The class of a message, by the command that its constructor sets.
abbrev pub class : Message → Command
class (connect m) = Header.connect
class (connack m) = Header.connack
class (publish m) = Header.publish
class (puback m) = Header.puback
class (pubrec m) = Header.pubrec
class (pubrel m) = Header.pubrel
class (pubcomp m) = Header.pubcomp
class (subscribe m) = Header.subscribe
class (suback m) = Header.suback
class (unsubscribe m) = Header.unsubscribe
class (unsuback m) = Header.unsuback
class (ping m) = Header.pingreq
class (pong m) = Header.pingresp
class (disconnect m) = Header.disconnect

-- The identifier, in the classes that have one.
abbrev pub seq : Message → Option ℕ
seq (connect m) = none
seq (connack m) = none
seq (publish m) = some m.seq
seq (puback m) = some m.seq
seq (pubrec m) = some m.seq
seq (pubrel m) = some m.seq
seq (pubcomp m) = some m.seq
seq (subscribe m) = some m.seq
seq (suback m) = some m.seq
seq (unsubscribe m) = some m.seq
seq (unsuback m) = some m.seq
seq (ping m) = none
seq (pong m) = none
seq (disconnect m) = none

abbrev rewrap : {M : Type 0} → (M → Message) → Encoded M → Encoded Message
rewrap f e = record { message = f e.message; result = e.result; buf = e.buf }

unfoldable pub encode : Message → List ℕ → Encoded Message
encode (connect m) buf = rewrap connect (Connect.encode m buf)
encode (connack m) buf = rewrap connack (ConnectAck.encode m buf)
encode (publish m) buf = rewrap publish (Publish.encode m buf)
encode (puback m) buf = rewrap puback (Puback.encode m buf)
encode (pubrec m) buf = rewrap pubrec (Pubrec.encode m buf)
encode (pubrel m) buf = rewrap pubrel (Pubrel.encode m buf)
encode (pubcomp m) buf = rewrap pubcomp (Pubcomp.encode m buf)
encode (subscribe m) buf = rewrap subscribe (Subscribe.encode m buf)
encode (suback m) buf = rewrap suback (Suback.encode m buf)
encode (unsubscribe m) buf = rewrap unsubscribe (Unsubscribe.encode m buf)
encode (unsuback m) buf = rewrap unsuback (Unsuback.encode m buf)
encode (ping m) buf = rewrap ping (Ping.encode m buf)
encode (pong m) buf = rewrap pong (Pong.encode m buf)
encode (disconnect m) buf = rewrap disconnect (Disconnect.encode m buf)
