-- ===== src/Client/Callbacks.antt =====
-- The functions that `MqttClient` of src/MqttClient.hpp gives to `write`, for when its answer is written.
-- The empty `do_write` runs none of them.
pub mod Stages
pub mod Status
use mathlib.Core.Option
use k_mqttd.Base.{ℕ, List, [], ◌∷◌, ◌==◌, if◌then◌else◌, Option, none, some}
use k_mqttd.Protocol.Header.{Command, command_code, publish, pubrec, pubrel, pubcomp, pingreq, qos2}
use k_mqttd.Protocol.Message
use k_mqttd.Protocol.Message.{Message}
use k_mqttd.Protocol.Publish.{MqttPublish}
use k_mqttd.Protocol.Pubrec.{MqttPubrec}
use k_mqttd.Protocol.Pubrel.{MqttPubrel}
use k_mqttd.Client.{MqttClient, un_login}
use k_mqttd.Client.Windows.{Package, Window, erase}

-- `at(k)._status = status`; where the key is missing, `at` throws.
unfoldable pub set_status : ℕ → ℕ → Window → Option Window
set_status k status [] = none
set_status k status ((i, p) ∷ w) =
    let rest = set_status k status w in
    if i == k
    then some ((i, record p { status = status }) ∷ w)
    else Option.map (λ w'. (i, p) ∷ w') rest

abbrev pub set_rqueue : MqttClient → Option Window → Option MqttClient
set_rqueue c w = Option.map (λ w'. record c { rqueue = w' }) w

-- The error is `none`, or the value of `ec`.
unfoldable pub after_pubrec : MqttPublish → MqttClient → Option MqttClient
unfolding set_status
after_pubrec m c =
    if m.header.qos == qos2
    then set_rqueue c (set_status m.seq (command_code pubrec) c.rqueue)
    else some c

unfoldable pub after_pubrel : MqttPubrec → Option ℕ → MqttClient → Option MqttClient
unfolding set_status
after_pubrel m (some ec) c = some c
after_pubrel m none c = set_rqueue c (set_status m.seq (command_code pubrel) c.rqueue)

unfoldable pub after_pubcomp : MqttPubrel → Option ℕ → MqttClient → Option MqttClient
unfolding set_status erase
after_pubcomp m (some ec) c = some c
after_pubcomp m none c =
    set_rqueue c (Option.map (erase m.seq) (set_status m.seq (command_code pubcomp) c.rqueue))

-- `func_OnWrite` only sets the session's time of the last activity.
unfoldable pub after_pong : Option ℕ → MqttClient → Option MqttClient
unfolding un_login
after_pong none c = some c
after_pong (some ec) c = some (if ec == 4 then c else un_login c)

-- The function for the answer to a message, if there is one.
unfoldable pub after_write : Command → Message → Option ℕ → MqttClient → Option MqttClient
unfolding after_pubrec after_pubrel after_pubcomp after_pong
after_write publish (Message.publish m) ec c = after_pubrec m c
after_write pubrec (Message.pubrec m) ec c = after_pubrel m ec c
after_write pubrel (Message.pubrel m) ec c = after_pubcomp m ec c
after_write pingreq m ec c = after_pong ec c
after_write _ m ec c = some c
