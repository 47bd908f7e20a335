-- ===== src/Tests/Client.antt =====
-- Runs of src/MqttClient.hpp.
use k_mqttd.Base.{◌≡◌, refl, [], ◌∷◌, true, false, bytes, ret, pos, int_of_size}
use k_mqttd.Wire.Words.{htons, htonl, memory16}
use k_mqttd.Wire.Length.{enc_len}
use k_mqttd.Protocol.Header.{Stale, header_of_byte, make_header, byte_of_header, command_of}
use k_mqttd.Protocol.Frame.{frame}
use k_mqttd.Protocol.Publish.{MqttPublish}
use k_mqttd.Protocol.Pubrec
use k_mqttd.Protocol.Message
use k_mqttd.Protocol.Message.{Message}
use k_mqttd.Client.{MqttClient, packed, write, on_publish, deliver_command, deliver}
use k_mqttd.Client.Windows.{insert, find}
use k_mqttd.Client.Callbacks.Stages.{Answered, AnsweredOnError, deliver-Answered}
use k_mqttd.Client.Deliver.{after, deliver-rqueue}

abbrev fresh_memory : Stale
fresh_memory = record {
  size = 0;
  header = header_of_byte 0;
  byte = 0;
  word = 0;
  flag = record {
    reserved_bit = false;
    clean_session = false;
    will_flag = false;
    will_qos = 0;
    will_retain = false;
    passwd_flag = false;
    name_flag = false;
  };
}

-- A PUBLISH of quality of service 2 and identifier 9.
abbrev exactly_once : MqttPublish
exactly_once = record {
  size = 0;
  header = header_of_byte 0x34;
  topic = bytes "a/b";
  seq = 9;
  payload = bytes "hi";
}

abbrev idle : MqttClient
idle = record { squeue = []; rqueue = []; has_un_login = true; un_logins = 0; writes = [] }

abbrev waiting : MqttClient
waiting = record idle { rqueue = (9, packed exactly_once) ∷ []; writes = pos 0 ∷ [] }

once_delivered : deliver fresh_memory (Message.publish exactly_once) idle ≡ ret waiting
unfolding int_of_size deliver deliver_command on_publish write insert Message.encode Pubrec.encode
    Pubrec.make frame enc_len htons htonl memory16 header_of_byte byte_of_header make_header
once_delivered = refl

deliver-rqueue_example :
    find 9 waiting.rqueue
    ≡ after
        (command_of exactly_once.header.command)
        (Message.publish exactly_once)
        9
        (find 9 idle.rqueue)
deliver-rqueue_example =
    deliver-rqueue fresh_memory (Message.publish exactly_once) idle waiting 9 once_delivered

deliver-Answered_example :
    Answered (command_of exactly_once.header.command) (Message.publish exactly_once) idle waiting
    × AnsweredOnError
        (command_of exactly_once.header.command)
        (Message.publish exactly_once)
        5
        idle
        waiting
deliver-Answered_example =
    deliver-Answered fresh_memory (Message.publish exactly_once) 5 idle waiting once_delivered
