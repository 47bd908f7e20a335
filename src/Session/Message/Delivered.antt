-- ===== src/Session/Message/Delivered.antt =====
-- `deliver` on what `parseMqtt` has returned.
use k_mqttd.Base.{ℕ, ◌≡◌, ap, ◌∙◌, some, List, ◌∷◌, ret}
use k_mqttd.Protocol.Header.{Stale, MqttHeader, header_of_byte, command_of}
use k_mqttd.Protocol.Frame.{read_header}
use k_mqttd.Protocol.Message
use k_mqttd.Protocol.Message.{Message}
use k_mqttd.Client.{MqttClient, deliver}
use k_mqttd.Client.Deliver.{deliver_returns}
use k_mqttd.Session.Parse.{parse_mqtt}
use k_mqttd.Session.Parse.Outcome.{parse_mqtt-IsRead}

pub header_of_first :
    (first : ℕ) (rest : List ℕ) (h : MqttHeader)
    → read_header (first ∷ rest) ≡ ret h
    → header_of_byte first ≡ h
unfolding read_header
header_of_first first rest h e = cc e

-- Whatever message `parseMqtt` returns for a buffer, with the header that its first byte has,
-- `deliver` returns for it: the cast fits the class of the message.
pub parsed_delivers :
    (st : Stale) (first : ℕ) (rest : List ℕ) (m : Message) (c : MqttClient)
    → parse_mqtt st (header_of_byte first) (first ∷ rest) ≡ ret (some m)
    → (c' : MqttClient) × (deliver st m c ≡ ret c')
parsed_delivers st first rest m c parsed =
    let read = parse_mqtt-IsRead st (header_of_byte first) (first ∷ rest) m parsed in
    let same = header_of_first first rest (Message.header m) read.header_is in
    deliver_returns st m c (read.class_is ∙ ap (λ h. command_of h.command) same)
