-- ===== src/Tests/Sending.antt =====
-- Runs of `do_write` and of the timer of src/MqttSession.hpp.
use k_mqttd.Base.{
  ℕ, ◌+◌, ◌<◌, ◌≤◌, ◌≡◌, ◌⊎◌, ◌↔◌, refl, List, [], ◌∷◌, some, ret, arith, length, take, drop, pos,
  int_of_size,
}
use k_mqttd.Wire.Words.{htons, htonl, memory16}
use k_mqttd.Wire.Length.{enc_len}
use k_mqttd.Protocol.Header.{byte_of_header, make_header}
use k_mqttd.Protocol.Frame.{frame}
use k_mqttd.Protocol.Puback
use k_mqttd.Protocol.Message
use k_mqttd.Protocol.Message.{Message}
use k_mqttd.Session.Write.{
  send_buffer_size, sends, returned, part_size, do_write, on_written, write,
}
use k_mqttd.Session.Write.Whole.{do_write-defined, write_whole}

abbrev answer : Message
answer = Message.puback (Puback.make 7)

abbrev answer_bytes : List ℕ
answer_bytes = (Message.encode answer []).buf

answer_result : (Message.encode answer []).result ≡ pos 8
unfolding int_of_size Message.encode Puback.encode Puback.make frame enc_len htons htonl memory16
    byte_of_header make_header
answer_result = refl

answer_there : 0 < length (Message.encode answer []).buf
unfolding int_of_size Message.encode Puback.encode Puback.make frame enc_len htons htonl memory16
    byte_of_header make_header
answer_there = omega arith

write_whole_example :
    (write answer ≡ ret (pos 0, some (sends 0 answer_bytes)))
    × (on_written answer_bytes 0 (some (length answer_bytes)) ≡ ret returned)
write_whole_example = write_whole answer 8 answer_result answer_there

abbrev two_bytes : List ℕ
two_bytes = 1 ∷ 2 ∷ []

abbrev one : ℕ
one = 1

do_write-defined_example :
    (do_write two_bytes 1
      ≡ ret (sends 1 (take (part_size (length two_bytes) 1) (drop 1 two_bytes))))
    ↔ ((one ≡ 0) ⊎ (one + send_buffer_size ≤ length two_bytes))
do_write-defined_example = do_write-defined two_bytes 1 (omega arith)
