-- ===== src/Tests/Session.antt =====
-- Runs of src/MqttSession.hpp.
use k_mqttd.Base.{
  ◌<◌, ◌≤◌, ◌⊎◌, ℕ, ◌≡◌, refl, List, [], ◌∷◌, some, false, true, ret, undef, ◌>>=◌, arith,
}
use k_mqttd.Wire.Words.{htons, htonl}
use k_mqttd.Wire.Length.{dec_len}
use k_mqttd.Protocol.Header.{Stale, command_of, header_of_byte}
use k_mqttd.Protocol.Frame.{read_header, read_length, copy_into16}
use k_mqttd.Protocol.Puback
use k_mqttd.Protocol.Message
use k_mqttd.Client
use k_mqttd.Session.Message.Delivered.{parsed_delivers}
use k_mqttd.Session.State.{MqttSession}
use k_mqttd.Session.Active.{make}
use k_mqttd.Session.Message.{on_message}
use k_mqttd.Session.Strand.{Event, func, play, strand_runs, returns}
use k_mqttd.Session.Strand.Orders.{session_of, runs_before, func-on_message}
use k_mqttd.Session.Parse.{parse_command, parse_mqtt}
use k_mqttd.Session.Parse.Outcome.{IsRead, parse_mqtt-IsRead}

abbrev old_memory : Stale
old_memory = record {
  size = 7;
  header = header_of_byte 0;
  byte = 9;
  word = 11;
  flag = record {
    reserved_bit = false;
    clean_session = false;
    will_flag = false;
    will_qos = 0;
    will_retain = false;
    passwd_flag = false;
    name_flag = false;
  };
}

-- A PUBACK of identifier 5 with a length field of one byte.
abbrev puback_five : List ℕ
puback_five = 0x40 ∷ 2 ∷ 0 ∷ 5 ∷ []

abbrev read_back : Puback.MqttPuback
read_back = record { size = 0; header = header_of_byte 0x40; seq = 0 }

puback_five_read :
    parse_mqtt old_memory (header_of_byte 0x40) puback_five ≡ ret (some (Message.puback read_back))
unfolding parse_mqtt parse_command Puback.decode read_header read_length copy_into16 dec_len htons
    htonl header_of_byte
puback_five_read = refl

parse_mqtt-IsRead_example :
    IsRead (command_of (header_of_byte 0x40).command) puback_five (Message.puback read_back)
parse_mqtt-IsRead_example =
    parse_mqtt-IsRead old_memory (header_of_byte 0x40) puback_five (Message.puback read_back)
      puback_five_read

parsed_delivers_example :
    (c' : Client.MqttClient) × (Client.deliver old_memory (Message.puback read_back) Client.make
      ≡ ret c')
parsed_delivers_example =
    parsed_delivers old_memory 0x40 (2 ∷ 0 ∷ 5 ∷ []) (Message.puback read_back) Client.make
      puback_five_read

-- A session with a new client. Where its strand is busy when a PUBACK has been read, the first of the two
-- reads of `deliver` comes before `context->func` returns, and the second after that.
abbrev new_session : MqttSession
new_session = make Client.make 100

abbrev order : List Event
order = strand_runs ∷ returns ∷ strand_runs ∷ strand_runs ∷ strand_runs ∷ []

func-on_message_example :
    (session_of (do
      c ← func old_memory 101 false 2 (Message.puback read_back) new_session
      play old_memory order c)
      ≡ on_message old_memory 101 (Message.puback read_back) new_session)
    × (((2 ≤ runs_before order)
          × (session_of (do
            c ← func old_memory 101 true 2 (Message.puback read_back) new_session
            play old_memory order c)
              ≡ on_message old_memory 101 (Message.puback read_back) new_session))
        ⊎ ((runs_before order < 2)
            × (session_of (do
              c ← func old_memory 101 true 2 (Message.puback read_back) new_session
              play old_memory order c)
                ≡ undef)))
func-on_message_example =
    func-on_message old_memory 101 2 (Message.puback read_back) new_session order (omega arith)
