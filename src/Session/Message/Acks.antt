-- ===== src/Session/Message/Acks.antt =====
-- A run of acknowledgements, each in two reads.
use k_mqttd.Base.{
  ℕ, ◌≡◌, refl, ap, ◌∙◌, some, Option, List, [], ◌∷◌, ret, ◌>>=◌, arith, Exec, undef,
}
use k_mqttd.Wire.Words.{htons, htonl}
use k_mqttd.Wire.Length.{dec_len}
use k_mqttd.Wire.Length.Varint.{varint_upto, varint}
use k_mqttd.Protocol.Header.{Stale, header_of_byte}
use k_mqttd.Protocol.Frame.{read_header, read_length, copy_into16}
use k_mqttd.Protocol.Message
use k_mqttd.Protocol.Puback
use k_mqttd.Protocol.Pubrec
use k_mqttd.Protocol.Pubrel
use k_mqttd.Protocol.Pubcomp
use k_mqttd.Client.{
  MqttClient, write, on_puback, on_pubrec, on_pubrel, on_pubcomp, deliver, deliver_command,
}
use k_mqttd.Client.Windows.{erase}
use k_mqttd.Session.Parse.{parse_command, parse_mqtt}
use k_mqttd.Session.State.{MqttSession, reading_head}
use k_mqttd.Session.Message.{on_message, finish, on_read}
use k_mqttd.Session.Message.Whole.{on_read_twice}
use k_mqttd.Session.Message.Closing.{same_logins}

pub data Ack : Type 0 where
  puback pubrec pubrel pubcomp : Ack

-- The first byte of each.
abbrev byte_of : Ack → ℕ
byte_of puback = 0x40
byte_of pubrec = 0x50
byte_of pubrel = 0x62
byte_of pubcomp = 0x70

-- What the client does with the acknowledgement of identifier 0.
abbrev react : Ack → MqttClient → MqttClient
react puback c = record c { squeue = erase 0 c.squeue }
react pubrec c = write (Message.pubrel (Pubrel.make 0)) c
react pubrel c = write (Message.pubcomp (Pubcomp.make 0)) c
react pubcomp c = record c { rqueue = erase 0 c.rqueue }

finish_ack :
    (a : Ack) (st : Stale) (now hi lo : ℕ) (s : MqttSession)
    → finish st now (header_of_byte (byte_of a)) (byte_of a ∷ 2 ∷ hi ∷ lo ∷ []) s
      ≡ ret (record s { atime = now; client = react a s.client; phase = reading_head })
unfolding finish on_message parse_mqtt parse_command Puback.decode Pubrec.decode Pubrel.decode
    Pubcomp.decode read_header read_length copy_into16 dec_len htons htonl header_of_byte deliver
    deliver_command on_puback on_pubrec on_pubrel on_pubcomp write
finish_ack puback st now hi lo s = rw (same_logins s.client) refl
finish_ack pubrec st now hi lo s = rw (same_logins s.client) refl
finish_ack pubrel st now hi lo s = rw (same_logins s.client) refl
finish_ack pubcomp st now hi lo s = rw (same_logins s.client) refl

-- An acknowledgement with the times of its two reads and the two bytes of its identifier.
pub record Frame : Type 0 where
  pub ack : Ack
  pub early : ℕ
  pub late : ℕ
  pub high : ℕ
  pub low : ℕ

-- Completions of reads, with their times.
pub read_all : Stale → List (ℕ × Option (List ℕ)) → MqttSession → Exec MqttSession
read_all st [] s = ret s
read_all st ((now, event) ∷ es) s = do s' ← on_read st now event s; read_all st es s'

pub reads : List Frame → List (ℕ × Option (List ℕ))
reads [] = []
reads (f ∷ fs) =
    (f.early, some (byte_of f.ack ∷ 2 ∷ [])) ∷ (f.late, some (f.high ∷ f.low ∷ [])) ∷ reads fs

abbrev after_ack : Frame → MqttSession → MqttSession
after_ack f s = record s { atime = f.late; client = react f.ack s.client; phase = reading_head }

pub after_acks : List Frame → MqttSession → MqttSession
after_acks [] s = s
after_acks (f ∷ fs) s = after_acks fs (after_ack f s)

pub ack_read :
    (st : Stale) (f : Frame) (s : MqttSession)
    → s.phase ≡ reading_head
    → (on_read st f.early (some (byte_of f.ack ∷ 2 ∷ [])) s
        >>= on_read st f.late (some (f.high ∷ f.low ∷ [])))
      ≡ ret (after_ack f s)
unfolding varint varint_upto
ack_read st f s begun =
    on_read_twice st f.early f.late (byte_of f.ack) 2 [] (f.high ∷ f.low ∷ []) s begun (omega arith)
      (omega arith) (omega arith) refl
    ∙ finish_ack f.ack st f.late f.high f.low s

>>=-assoc :
    {A B C : Type 0} (m : Exec A) (f : A → Exec B) (g : B → Exec C)
    → (m >>= λ a. f a >>= g) ≡ ((m >>= f) >>= g)
>>=-assoc (ret a) f g = refl
>>=-assoc undef f g = refl

-- Any number of PUBACK, PUBREC, PUBREL and PUBCOMP, of any identifiers, whose identifiers come in reads
-- of their own: no read is undefined, the session goes on with the next message, and its client has
-- done, in order, what each of them asks for the message of identifier 0, whatever the identifiers.
pub acks_run :
    (st : Stale) (fs : List Frame) (s : MqttSession)
    → s.phase ≡ reading_head
    → read_all st (reads fs) s ≡ ret (after_acks fs s)
unfolding read_all reads after_acks
acks_run st [] s begun = refl
acks_run st (f ∷ fs) s begun =
    >>=-assoc (on_read st f.early (some (byte_of f.ack ∷ 2 ∷ [])) s)
      (on_read st f.late (some (f.high ∷ f.low ∷ []))) (read_all st (reads fs))
    ∙ (ap (λ r. r >>= read_all st (reads fs)) (ack_read st f s begun)
        ∙ acks_run st fs (after_ack f s) refl)
