-- ===== src/Session/Message/Received.antt =====
-- Messages of the standard's form that come in two reads, up to what `deliver` makes of them.
use k_mqttd.Base.{
  ℕ, ◌<◌, ◌≤◌, ◌≡◌, refl, ◌∙◌, some, List, [], ◌∷◌, ◌++◌, length, ret, undef, ◌⊎◌, inl, inr, ◌>>=◌,
  ◌^◌,
}
use k_mqttd.Wire.Length.Varint.{varint}
use k_mqttd.Protocol.Header.{Stale, header_of_byte, command_of, connect, publish}
use k_mqttd.Protocol.Connect
use k_mqttd.Protocol.Publish
use k_mqttd.Client.Windows.{erase}
use k_mqttd.Protocol.Received.{decode_connect, decode_publish}
use k_mqttd.Session.Parse.{parse_command, parse_mqtt}
use k_mqttd.Session.State.{MqttSession, reading_head}
use k_mqttd.Session.Message.{finish, on_read}
use k_mqttd.Session.Message.Whole.{on_read_twice}
use k_mqttd.Session.Message.Acks.{puback, ack_read}

-- A PUBACK of any identifier, whose identifier comes in a second read: the message of identifier 0 is
-- taken out of the send window, and the session goes on with the next message.
puback_erases_zero :
    (st : Stale) (t t' hi lo : ℕ) (s : MqttSession)
    → s.phase ≡ reading_head
    → (on_read st t (some (0x40 ∷ 2 ∷ [])) s >>= on_read st t' (some (hi ∷ lo ∷ [])))
      ≡ ret (record s {
        atime = t';
        client = record s.client { squeue = erase 0 s.client.squeue };
        phase = reading_head;
      })
puback_erases_zero st t t' hi lo s begun =
    ack_read st (record { ack = puback; early = t; late = t'; high = hi; low = lo }) s begun

-- The classes whose `decode` leaves the bounds of a range.
abbrev pub IsUndecoded : ℕ → Type 0
IsUndecoded first =
    (command_of (header_of_byte first).command ≡ connect)
    ⊎ (command_of (header_of_byte first).command ≡ publish)

finish_undecoded :
    (st : Stale) (now first : ℕ) (buf : List ℕ) (s : MqttSession)
    → IsUndecoded first
    → finish st now (header_of_byte first) buf s ≡ undef
unfolding finish parse_mqtt parse_command
finish_undecoded st now first buf s (inl is) =
    let stops = decode_connect (Connect.blank st) buf in rw (is, parse_command, stops) refl
finish_undecoded st now first buf s (inr is) =
    let stops = decode_publish (Publish.blank st) buf in rw (is, parse_command, stops) refl

-- A CONNECT or a PUBLISH, whatever its flags, whose first read has the whole length field and the bytes
-- `early`, and whose second read has as many bytes as the field says, has no defined behaviour.
pub connect_publish_undefined :
    (st : Stale) (t t' first n : ℕ) (early rest : List ℕ) (s : MqttSession)
    → IsUndecoded first
    → s.phase ≡ reading_head
    → 0 < n
    → n < 2 ^ 28
    → length (varint n ++ early) ≤ 4
    → length rest ≡ n
    → (on_read st t (some (first ∷ (varint n ++ early))) s >>= on_read st t' (some rest)) ≡ undef
connect_publish_undefined st t t' first n early rest s is begun more small short size =
    on_read_twice st t t' first n early rest s begun more small short size
    ∙ finish_undecoded st t' first (first ∷ ((varint n ++ early) ++ rest)) s is
