-- ===== src/Session/Message/Run.antt =====
-- Any messages in a row, each in two reads: the header byte with the length field, and the rest.
use k_mqttd.Base.{
  ℕ, ◌<◌, ◌≤◌, ◌^◌, ◌≡◌, ◌==◌, refl, sym, ap, ◌∙◌, subst, true, false, none, some, List, [], ◌∷◌,
  ◌++◌, append-nil, length, arith, if◌then◌else◌, Bool-cases, inl, inr, Exec, Exec-cases, ret,
  ◌>>=◌, >>=-elim,
}
use k_mqttd.Wire.Length.Varint.{varint, varint_upto, length-varint_upto}
use k_mqttd.Protocol.Header.{MqttHeader, Stale, header_of_byte}
use k_mqttd.Protocol.Message.{Message}
use k_mqttd.Client.{deliver}
use k_mqttd.Session.Parse.{parse_mqtt}
use k_mqttd.Session.State.{MqttSession, reading_head, do_close}
use k_mqttd.Session.Message.{fail, on_message, finish, on_read}
use k_mqttd.Session.Message.Whole.{asks_for, on_read-asks, on_read_twice}
use k_mqttd.Session.Message.Closing.{fail-open}

-- A message: its header byte, what stands behind the length field, and the times of its two reads.
pub record Sent : Type 0 where
  pub first : ℕ
  pub body : List ℕ
  pub early : ℕ
  pub late : ℕ

-- The bodies that the length field can count, and that are read at all.
abbrev pub HasBody : Sent → Type 0
HasBody m = (0 < length m.body) × (length m.body < 2 ^ 28)

abbrev pub AllHaveBody : List Sent → Type 0
AllHaveBody [] = Unit
AllHaveBody (m ∷ ms) = HasBody m × AllHaveBody ms

abbrev pub field : Sent → List ℕ
field m = m.first ∷ varint (length m.body)

-- The bytes of the reads, with their times.
pub chunks : List Sent → List (ℕ × List ℕ)
chunks [] = []
chunks (m ∷ ms) = (m.early, field m) ∷ (m.late, m.body) ∷ chunks ms

-- Reads, for as long as the session is open.
pub read_on : Stale → List (ℕ × List ℕ) → MqttSession → Exec MqttSession
read_on st [] s = ret s
read_on st ((now, chunk) ∷ es) s =
    let next = (do s' ← on_read st now (some chunk) s; read_on st es s') in
    if s.is_open then next else ret s

-- The messages as they were sent, each handed to `parseMqtt` and what it makes of it to `deliver`, for
-- as long as the session is open.
pub handle_on : Stale → List Sent → MqttSession → Exec MqttSession
handle_on st [] s = ret s
handle_on st (m ∷ ms) s =
    let next = (do
      s' ← finish st m.late (header_of_byte m.first) (field m ++ m.body) s
      handle_on st ms s') in
    if s.is_open then next else ret s

phase_of : {t s' : MqttSession} → ret t ≡ ret s' → t.phase ≡ reading_head → s'.phase ≡ reading_head
phase_of {t} {s'} e begun =
    let same : t ≡ s' = cc e in subst (λ (x : MqttSession). x.phase ≡ reading_head) same begun

on_message-phase :
    (st : Stale) (now : ℕ) (m : Message) (s s' : MqttSession)
    → on_message st now m s ≡ ret s'
    → s'.phase ≡ reading_head
unfolding on_message do_close
on_message-phase st now m s s' e = >>=-elim (deliver st m s.client) _ e λ client delivered rest.
    elim (Bool-cases (client.un_logins == s.client.un_logins)) [
      | inl same ↦ phase_of (rw same at rest) refl
      | inr other ↦ phase_of (rw other at rest) refl
    ]

finish-phase :
    (st : Stale) (now : ℕ) (mh : MqttHeader) (buf : List ℕ) (s s' : MqttSession)
    → finish st now mh buf s ≡ ret s'
    → s'.is_open ≡ true
    → s'.phase ≡ reading_head
unfolding finish
finish-phase st now mh buf s s' e up = elim (Exec-cases (parse_mqtt st mh buf)) [
  | inl gone ↦ absurd (cc (rw gone at e))
  | inr (none, parsed) ↦
      let left : fail s ≡ s' = cc (rw parsed at e) in
      let shut = fail-open s in absurd (cc (ap (λ (x : MqttSession). x.is_open) left, shut, up))
  | inr (some m, parsed) ↦ on_message-phase st now m s s' (rw parsed at e)
]

read_on-closed :
    (st : Stale) (es : List (ℕ × List ℕ)) (s : MqttSession)
    → s.is_open ≡ false
    → read_on st es s ≡ ret s
unfolding read_on
read_on-closed st [] s shut = refl
read_on-closed st (e ∷ es) s shut = rw shut refl

handle_on-closed :
    (st : Stale) (ms : List Sent) (s : MqttSession) → s.is_open ≡ false → handle_on st ms s ≡ ret s
unfolding handle_on
handle_on-closed st [] s shut = refl
handle_on-closed st (m ∷ ms) s shut = rw shut refl

-- The session between the two reads of a message.
abbrev half_way : Sent → MqttSession → MqttSession
half_way m s = asks_for m.first (field m) (length m.body) s

field_fits : (n : ℕ) → length (varint n ++ []) ≤ 4
unfolding varint
field_fits n =
    omega (arith, length-varint_upto 3 n, ap (length {A = ℕ}) (append-nil (varint_upto 3 n)))

first_read :
    (st : Stale) (m : Sent) (s : MqttSession)
    → s.phase ≡ reading_head
    → HasBody m
    → on_read st m.early (some (field m)) s ≡ ret (half_way m s)
first_read st m s begun (more, small) =
    let n = length m.body in
    subst
      (λ (v : List ℕ).
        on_read st m.early (some (m.first ∷ v)) s ≡ ret (asks_for m.first (m.first ∷ v) n s))
      (append-nil (varint n))
      (on_read-asks st m.early m.first n [] s begun more small (field_fits n))

second_read :
    (st : Stale) (m : Sent) (s : MqttSession)
    → s.phase ≡ reading_head
    → HasBody m
    → on_read st m.late (some m.body) (half_way m s)
      ≡ finish st m.late (header_of_byte m.first) (field m ++ m.body) s
second_read st m s begun (more, small) =
    let n = length m.body in
    sym (ap (λ r. r >>= on_read st m.late (some m.body)) (first_read st m s begun (more, small)))
    ∙ subst
        (λ (v : List ℕ).
          (on_read st m.early (some (m.first ∷ v)) s >>= on_read st m.late (some m.body))
          ≡ finish st m.late (header_of_byte m.first) (m.first ∷ (v ++ m.body)) s)
        (append-nil (varint n))
        (on_read_twice st m.early m.late m.first n [] m.body s begun more small (field_fits n) refl)

-- Messages with a body of any length that the field can count, whatever the commands and the bytes,
-- each in two reads, to a session that waits for a message: the session handles the messages as they
-- were sent, one after the other, until one of them closes it or has no defined behaviour.
pub read_on-chunks :
    (st : Stale) (ms : List Sent) (s : MqttSession)
    → AllHaveBody ms
    → s.phase ≡ reading_head
    → read_on st (chunks ms) s ≡ handle_on st ms s
unfolding read_on handle_on chunks
read_on-chunks st [] s fit begun = refl
read_on-chunks st (m ∷ ms) s (has, fit) begun = elim (Bool-cases s.is_open) [
  | inr shut ↦ rw shut refl
  | inl up ↦
      let one = first_read st m s begun has in
      let two = second_read st m s begun has in
      elim (Exec-cases (finish st m.late (header_of_byte m.first) (field m ++ m.body) s)) [
        | inl gone ↦ rw (one, two, gone, up) refl
        | inr (s', done) ↦
            rw (one, two, done, up)
              (elim (Bool-cases s'.is_open) [
                | inl still ↦ read_on-chunks st ms s' fit (
                    finish-phase st m.late (header_of_byte m.first) (field m ++ m.body) s s' done
                      still)
                | inr shut ↦
                    read_on-closed st (chunks ms) s' shut ∙ sym (handle_on-closed st ms s' shut)
              ])
      ]
]
