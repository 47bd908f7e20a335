-- ===== src/Tests/Reading.antt =====
-- Runs of the read handlers of src/MqttSession.hpp.
use k_mqttd.Base.{
  inr, ◌+◌, not, ◌&&◌, true, length, take, ℕ, ◌≡◌, ◌⊎◌, refl, List, [], ◌∷◌, ◌++◌, some, false, ret,
  undef, ◌>>=◌, arith,
}
use k_mqttd.Wire.Length.{dec_len}
use k_mqttd.Wire.Length.Varint.{varint}
use k_mqttd.Protocol.Disconnect
use k_mqttd.Protocol.Puback
use k_mqttd.Protocol.Frame.{frame, read_header, read_length}
use k_mqttd.Protocol.Header.{byte_of_header, command_of, Stale, header_of_byte}
use k_mqttd.Client
use k_mqttd.Client.{deliver, deliver_command}
use k_mqttd.Session.State.{MqttSession, reading_head, reading_rest, stalled, do_close}
use k_mqttd.Session.Read.{len_step}
use k_mqttd.Session.Active.{make, start}
use k_mqttd.Session.Message.{zeros, finish, on_message, on_read, on_head, Gives, give_head}
use k_mqttd.Session.Message.Whole.{on_read_twice, on_head-known}
use k_mqttd.Session.Message.Run.{Sent, chunks, read_on, handle_on, read_on-chunks}
use k_mqttd.Session.Message.Own.{own_packet_cut}
use k_mqttd.Session.Message.Late.{on_read_thrice}
use k_mqttd.Session.Parse.{parse_command, parse_mqtt}
use k_mqttd.Session.Message.Acks.{Frame, puback, pubrec, read_all, reads, after_acks, acks_run}
use k_mqttd.Session.Message.Closing.{closes, finish-open}
use k_mqttd.Session.Message.Received.{IsUndecoded, connect_publish_undefined}
use k_mqttd.Session.Message.Valid.{IsValid}
use k_mqttd.Session.Steps.{read, Reach, begin, next}
use k_mqttd.Session.Steps.Reached.{Reach-IsValid, Reach-waits}

abbrev unset : Stale
unset = record {
  size = 1;
  header = header_of_byte 0;
  byte = 2;
  word = 3;
  flag = record {
    reserved_bit = false;
    clean_session = false;
    will_flag = false;
    will_qos = 0;
    will_retain = false;
    passwd_flag = false;
    name_flag = false;
  };
}

abbrev fresh : MqttSession
fresh = start (make Client.make 100)

fresh_begins : fresh.phase ≡ reading_head
unfolding start make
fresh_begins = refl

-- A PUBREL whose length field and first byte come in the first read.
on_read_twice_example :
    (on_read unset 101 (some (0x62 ∷ (varint 2 ++ (0 ∷ [])))) fresh
      >>= on_read unset 102 (some (9 ∷ 9 ∷ [])))
    ≡ finish unset 102 (header_of_byte 0x62) (0x62 ∷ ((varint 2 ++ (0 ∷ [])) ++ (9 ∷ 9 ∷ []))) fresh
unfolding varint
on_read_twice_example =
    on_read_twice unset 101 102 0x62 2 (0 ∷ []) (9 ∷ 9 ∷ []) fresh fresh_begins (omega arith)
      (omega arith) (omega arith) refl

-- The length 2 is read as 0 there.
on_read_thrice_example :
    ((on_read unset 101 (some (0x62 ∷ [])) fresh >>= on_read unset 102 (some (varint 2)))
      >>= on_read unset 103 (some (0 ∷ 9 ∷ [])))
    ≡ finish unset 103
        (header_of_byte 0x62)
        ((take (length (varint 2)) (0x62 ∷ varint 2) ++ (0 ∷ [])) ++ (0 ∷ 9 ∷ []))
        fresh
on_read_thrice_example =
    on_read_thrice unset 101 102 103 0x62 2 (0 ∷ 9 ∷ []) fresh fresh_begins (omega arith)
      (omega arith) refl

-- A PUBACK, then a PUBREC, of other identifiers.
abbrev two_acks : List Frame
two_acks =
    (record { ack = puback; early = 101; late = 102; high = 0; low = 7 })
    ∷ (record { ack = pubrec; early = 103; late = 104; high = 0; low = 9 })
    ∷ []

acks_run_example : read_all unset (reads two_acks) fresh ≡ ret (after_acks two_acks fresh)
acks_run_example = acks_run unset two_acks fresh fresh_begins

-- A DISCONNECT.
abbrev left : MqttSession
left = do_close (record fresh { atime = 105; client = record fresh.client { un_logins = 1 } })

disconnects : finish unset 105 (header_of_byte 0xe0) (0xe0 ∷ 0 ∷ []) fresh ≡ ret left
unfolding finish on_message parse_mqtt parse_command header_of_byte start make Disconnect.decode
    read_header read_length dec_len deliver deliver_command do_close
disconnects = refl

knows_logout : fresh.client.has_un_login ≡ true
unfolding start make
knows_logout = refl

finish-open_example :
    left.is_open ≡ (not (closes (command_of (header_of_byte 0xe0).command)) && fresh.is_open)
finish-open_example = finish-open unset 105 0xe0 (0 ∷ []) fresh left knows_logout disconnects

is_publish : IsUndecoded 0x3d
unfolding header_of_byte
is_publish = inr refl

-- A PUBLISH with its flags.
connect_publish_undefined_example :
    (on_read unset 101 (some (0x3d ∷ (varint 3 ++ []))) fresh
      >>= on_read unset 102 (some (0 ∷ 4 ∷ 77 ∷ [])))
    ≡ undef
unfolding varint
connect_publish_undefined_example =
    connect_publish_undefined unset 101 102 0x3d 3 [] (0 ∷ 4 ∷ 77 ∷ []) fresh is_publish
      fresh_begins (omega arith) (omega arith) (omega arith) refl

-- A session that has the head of a PUBACK.
abbrev half_read : MqttSession
half_read = record fresh {
  phase = reading_rest ((0x40 ∷ 2 ∷ []) ++ zeros 2) 2 (header_of_byte 0x40) 2;
}

half_read_reached : Reach half_read
unfolding on_read on_head start make dec_len
half_read_reached = next (begin 100) (
    read unset 101 (0x40 ∷ 2 ∷ []) fresh half_read refl
      (give_head (0x40 ∷ 2 ∷ []) (omega arith) (omega arith))
      (on_head-known unset 101 0x40 2 [] 1 2 fresh (omega arith) refl refl (omega arith)))

Reach-IsValid_example : IsValid half_read
Reach-IsValid_example = Reach-IsValid half_read_reached

Reach-waits_example : (half_read.phase ≡ stalled) ⊎ ((chunk : List ℕ) × Gives half_read.phase chunk)
unfolding start make
Reach-waits_example = Reach-waits half_read_reached refl

-- A PUBACK, of which two bytes and three more come first.
abbrev wrote : List ℕ
wrote = (frame (Puback.make 7) (Puback.make 7).header 2 (0 ∷ 7 ∷ []) []).buf

own_packet_cut_example :
    on_read unset 101 (some (take (2 + 3) wrote)) fresh
    ≡ finish unset 101
        (header_of_byte (byte_of_header (Puback.make 7).header))
        (take (2 + 3) wrote)
        fresh
own_packet_cut_example =
    own_packet_cut (Puback.make 7) (Puback.make 7).header 2 (0 ∷ 7 ∷ []) unset 101 3 fresh
      (omega arith) (omega arith) fresh_begins

-- A PUBACK, and a packet of a command that MQTT reserves.
abbrev two_sent : List Sent
two_sent =
    (record { first = 0x40; body = 0 ∷ 7 ∷ []; early = 101; late = 102 })
    ∷ (record { first = 0xf0; body = 1 ∷ []; early = 103; late = 104 })
    ∷ []

read_on-chunks_example : read_on unset (chunks two_sent) fresh ≡ handle_on unset two_sent fresh
read_on-chunks_example =
    read_on-chunks unset two_sent fresh
      ((omega arith, omega arith), ((omega arith, omega arith), tt)) fresh_begins

-- Where the head comes alone and the whole field, of the length 3, with three bytes behind it, the session
-- asks for three bytes past the end of its vector.
past_the_end :
    (on_read unset 101 (some (0x62 ∷ [])) fresh >>= on_read unset 102 (some (3 ∷ 7 ∷ 8 ∷ 9 ∷ [])))
    ≡ ret (record fresh {
      phase = reading_rest (0x62 ∷ 3 ∷ 7 ∷ 8 ∷ 0 ∷ []) 5 (header_of_byte 0x62) 3;
    })
unfolding on_read dec_len start make len_step
past_the_end = refl
