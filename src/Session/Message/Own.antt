-- ===== src/Session/Message/Own.antt =====
-- A packet that an encoder of src/mqtt/Protocol.cpp wrote, read by src/MqttSession.hpp.
use mathlib.Core.List.{reverse}
use k_mqttd.Base.{
  ℕ, suc, ◌+◌, ◌<◌, ◌%◌, ◌≡◌, refl, ap, ◌∙◌, some, List, [], ◌∷◌, ◌++◌, append-nil, take, arith,
  ret,
}
use k_mqttd.Wire.Words.{htonl, IsUint}
use k_mqttd.Wire.Length.{dec_len, dec_len_loop}
use k_mqttd.Wire.Length.Varint.{varint}
use k_mqttd.Protocol.Header.{MqttHeader, Stale, byte_of_header, header_of_byte}
use k_mqttd.Protocol.Frame.{frame}
use k_mqttd.Protocol.Frame.Write.{frame_written}
use k_mqttd.Session.State.{MqttSession, reading_head}
use k_mqttd.Session.Message.Whole.{on_head-reads}
use k_mqttd.Session.Message.{finish, do_read_remainder, on_head, on_phase, on_read}

zero_length : dec_len (0 ∷ []) ≡ ret 0
unfolding dec_len dec_len_loop
zero_length = refl

-- A zero behind the header byte is a whole length field.
on_head-zero :
    (st : Stale) (now first : ℕ) (bs : List ℕ) (s : MqttSession)
    → on_head st now (some (first ∷ 0 ∷ bs)) s
      ≡ finish st now (header_of_byte first) (first ∷ 0 ∷ bs) s
unfolding do_read_remainder
on_head-zero st now first bs s =
    on_head-reads st now first 0 bs 1 0 s (omega arith) refl zero_length
    ∙ ap (λ v. finish st now (header_of_byte first) v s) (append-nil (first ∷ 0 ∷ bs))

-- A packet that an encoder has written, and of whose bytes a session that waits for a message gets
-- two or more in its first read: its length field begins with a zero, so that these bytes are the
-- message that `parseMqtt` is given, with nothing more read, and what follows them in the packet is
-- the beginning of the next message.
pub own_packet_cut {ℓ} :
    {M : Type ℓ} (m : M) (header : MqttHeader) (size : ℕ) (body : List ℕ) (st : Stale) (now k : ℕ)
    (s : MqttSession)
    → IsUint size
    → size % 256 < 16
    → s.phase ≡ reading_head
    → on_read st now (some (take (2 + k) (frame m header size body []).buf)) s
      ≡ finish st now
          (header_of_byte (byte_of_header header))
          (take (2 + k) (frame m header size body []).buf)
          s
unfolding on_read
own_packet_cut m header size body st now k s fits small begun =
    let written = frame_written m header size body [] fits small in
    let first = byte_of_header header in
    let bs = take k (reverse (varint (htonl size)) ++ body) in
    let read : take (2 + k) (frame m header size body []).buf ≡ first ∷ 0 ∷ bs =
      (let e : 2 + k ≡ suc (suc k) = omega arith in rw (written, e) refl) in
    rw read
      (ap (λ p. on_phase p st now (some (first ∷ 0 ∷ bs)) s) begun ∙ on_head-zero st now first bs s)
