-- ===== src/Client/Callbacks/Stages.antt =====
-- The stages of a QoS 2 exchange, were the functions for `write` run.
use mathlib.Core.Option
use k_mqttd.Base.{
  ℕ, ◌≡◌, refl, ap, ◌∙◌, ◌==◌, ◌&&◌, if◌then◌else◌, Bool, true, false, Bool-cases, Option, none,
  some, Option-cases, ◌⊎◌, inl, inr, arith, ret,
}
use k_mqttd.Protocol.Header.{
  Command, command_of, command_code, Stale, publish, pubrec, pubrel, pubcomp, pingreq, qos2,
}
use k_mqttd.Protocol.Message
use k_mqttd.Protocol.Message.{Message}
use k_mqttd.Protocol.Publish.{MqttPublish}
use k_mqttd.Protocol.Pubrec.{MqttPubrec}
use k_mqttd.Protocol.Pubrel.{MqttPubrel}
use k_mqttd.Client.Deliver.{after, deliver-rqueue, un_login-rqueue}
use k_mqttd.Client.{MqttClient, packed, un_login, deliver}
use k_mqttd.Client.Windows.{Package, Window, find, erase, find-erase}
use k_mqttd.Client.Callbacks.Status.{
  put_status, find-put_status, set_status_lem, set_rqueue_found, set_rqueue_missing,
}
use k_mqttd.Client.Callbacks.{after_pubrec, after_pubrel, after_pubcomp, after_pong, after_write}

-- What a message and the function for its answer make of the package under an identifier.
abbrev pub stage : Command → Message → ℕ → Option Package → Option Package
stage publish (Message.publish m) k old =
    if m.header.qos == qos2 && k == m.seq
    then (elim old [
      | none ↦ some (record (packed m) { status = command_code pubrec })
      | some q ↦ some (record q { status = command_code pubrec })
    ])
    else old
stage pubrec (Message.pubrec m) k old =
    if k == m.seq
    then Option.map (λ (p : Package). record p { status = command_code pubrel }) old
    else old
stage pubrel (Message.pubrel m) k old = if k == m.seq then none else old
stage pubcomp (Message.pubcomp m) k old = if k == m.seq then none else old
stage _ m k old = old

-- The message goes on with an exchange of which the receive window has no package.
abbrev pub is_lost : Command → Message → Window → Bool
is_lost pubrec (Message.pubrec m) w = elim (find m.seq w) [ none ↦ true | some _ ↦ false ]
is_lost pubrel (Message.pubrel m) w = elim (find m.seq w) [ none ↦ true | some _ ↦ false ]
is_lost _ m w = false

abbrev pub Answered : Command → Message → MqttClient → MqttClient → Type 0
Answered code m c c' =
    ((is_lost code m c.rqueue ≡ false)
      × ((c'' : MqttClient) × (after_write code m none c' ≡ some c'')
          × ((k : ℕ) → find k c''.rqueue ≡ stage code m k (find k c.rqueue))))
    ⊎ ((is_lost code m c.rqueue ≡ true) × (after_write code m none c' ≡ none))

publish-Answered :
    (m : MqttPublish) (c c' : MqttClient)
    → ((k : ℕ) → find k c'.rqueue ≡ after publish (Message.publish m) k (find k c.rqueue))
    → Answered publish (Message.publish m) c c'
unfolding after_write after_pubrec
publish-Answered m c c' h = elim (Bool-cases (m.header.qos == qos2)) [
  | inl twice ↦ elim (Option-cases (find m.seq c.rqueue)) [
    | inl missing ↦
        let stands : find m.seq c'.rqueue ≡ some (packed m) = ground (arith, h m.seq) in
        inl (
          refl,
          (
            record c' { rqueue = put_status m.seq (command_code pubrec) c'.rqueue },
            rw (twice, set_rqueue_found m.seq (command_code pubrec) c' (packed m) stands) refl,
            λ k. ground (arith, find-put_status k m.seq (command_code pubrec) c'.rqueue, h k),
          ),
        )
    | inr (p, found) ↦
        let stands : find m.seq c'.rqueue ≡ some p = ground (arith, h m.seq) in
        inl (
          refl,
          (
            record c' { rqueue = put_status m.seq (command_code pubrec) c'.rqueue },
            rw (twice, set_rqueue_found m.seq (command_code pubrec) c' p stands) refl,
            λ k. ground (arith, find-put_status k m.seq (command_code pubrec) c'.rqueue, h k),
          ),
        )
  ]
  | inr once ↦ inl (refl, (c', rw (once) refl, λ k. h k ∙ rw (once) refl))
]

pubrec-Answered :
    (m : MqttPubrec) (c c' : MqttClient)
    → ((k : ℕ) → find k c'.rqueue ≡ find k c.rqueue)
    → Answered pubrec (Message.pubrec m) c c'
unfolding after_write after_pubrel
pubrec-Answered m c c' h = elim (Option-cases (find m.seq c.rqueue)) [
  | inl missing ↦ inr (
    rw (is_lost, missing) refl,
    set_rqueue_missing m.seq (command_code pubrel) c' (h m.seq ∙ missing),
  )
  | inr (p, found) ↦ inl (
    rw (is_lost, found) refl,
    (
      _,
      set_rqueue_found m.seq (command_code pubrel) c' p (h m.seq ∙ found),
      λ k. ground (arith, find-put_status k m.seq (command_code pubrel) c'.rqueue, h k),
    ),
  )
]

pubrel-Answered :
    (m : MqttPubrel) (c c' : MqttClient)
    → ((k : ℕ) → find k c'.rqueue ≡ find k c.rqueue)
    → Answered pubrel (Message.pubrel m) c c'
unfolding after_write after_pubcomp
pubrel-Answered m c c' h = elim (Option-cases (find m.seq c.rqueue)) [
  | inl missing ↦ inr (
    rw (is_lost, missing) refl,
    rw (set_status_lem m.seq (command_code pubcomp) c'.rqueue, h m.seq ∙ missing) refl,
  )
  | inr (p, found) ↦ inl (
    rw (is_lost, found) refl,
    (
      record c' { rqueue = erase m.seq (put_status m.seq (command_code pubcomp) c'.rqueue) },
      rw (set_status_lem m.seq (command_code pubcomp) c'.rqueue, h m.seq ∙ found) refl,
      λ k.
          find-erase k m.seq (put_status m.seq (command_code pubcomp) c'.rqueue)
          ∙ ground (arith, find-put_status k m.seq (command_code pubcomp) c'.rqueue, h k),
    ),
  )
]

advance :
    (code : Command) (m : Message) (c c' : MqttClient)
    → ((k : ℕ) → find k c'.rqueue ≡ after code m k (find k c.rqueue))
    → Answered code m c c'
unfolding after_write after_pong
advance publish (Message.publish m) c c' h = publish-Answered m c c' h
advance pubrec (Message.pubrec m) c c' h = pubrec-Answered m c c' h
advance pubrel (Message.pubrel m) c c' h = pubrel-Answered m c c' h
advance pubcomp (Message.pubcomp m) c c' h = inl (refl, (c', refl, h))
advance _ m c c' h = inl (refl, (c', refl, h))

-- What a message and the function for its answer make of it when the answer is not written.
abbrev pub stage_of_error : Command → Message → ℕ → Option Package → Option Package
stage_of_error publish m k old = stage publish m k old
stage_of_error code m k old = after code m k old

abbrev pub AnsweredOnError : Command → Message → ℕ → MqttClient → MqttClient → Type 0
AnsweredOnError code m ec c c' =
    (c'' : MqttClient) × (after_write code m (some ec) c' ≡ some c'')
    × ((k : ℕ) → find k c''.rqueue ≡ stage_of_error code m k (find k c.rqueue))

-- The function for the answer to a PUBLISH does not read the error.
publish-AnsweredOnError :
    (m : Message) (ec : ℕ) (c c' : MqttClient)
    → is_lost publish m c.rqueue ≡ false
    → Answered publish m c c'
    → (after_write publish m (some ec) c' ≡ after_write publish m none c')
    → AnsweredOnError publish m ec c c'
publish-AnsweredOnError m ec c c' kept (inl (_, (c'', e, stages))) same = (c'', same ∙ e, stages)
publish-AnsweredOnError m ec c c' kept (inr (lost, _)) same = absurd (cc (kept, lost))

pong-AnsweredOnError :
    (m : Message) (ec : ℕ) (c c' : MqttClient)
    → ((k : ℕ) → find k c'.rqueue ≡ find k c.rqueue)
    → AnsweredOnError pingreq m ec c c'
unfolding after_write after_pong
pong-AnsweredOnError m ec c c' h = elim (Bool-cases (ec == 4)) [
  | inl interrupted ↦ (c', rw interrupted refl, h)
  | inr failed ↦ (un_login c', rw failed refl, λ k. ap (find k) (un_login-rqueue c') ∙ h k)
]

advance_on_error :
    (code : Command) (m : Message) (ec : ℕ) (c c' : MqttClient)
    → ((k : ℕ) → find k c'.rqueue ≡ after code m k (find k c.rqueue))
    → AnsweredOnError code m ec c c'
unfolding after_write after_pubrel after_pubcomp
advance_on_error publish (Message.publish m) ec c c' h =
    publish-AnsweredOnError (Message.publish m) ec c c' refl
      (advance publish (Message.publish m) c c' h) refl
advance_on_error pingreq m ec c c' h = pong-AnsweredOnError m ec c c' h
advance_on_error pubrec (Message.pubrec m) ec c c' h = (c', refl, h)
advance_on_error pubrel (Message.pubrel m) ec c c' h = (c', refl, h)
advance_on_error _ m ec c c' h = (c', refl, h)

-- Were the function that a handler of `deliver` gives to `write` run behind the handler. Without an error
-- it throws exactly if the message is a PUBREC or a PUBREL whose identifier has no package in the
-- receive window; otherwise a PUBLISH of quality of service 2 leaves its package, or the one that is
-- there, with the status PUBREC, a PUBREC gives the package the status PUBREL, a PUBREL and a PUBCOMP
-- remove it, and every other package is as it was. With an error it does not throw, and only the
-- status PUBREC is set.
pub deliver-Answered :
    (s : Stale) (m : Message) (ec : ℕ) (c c' : MqttClient)
    → deliver s m c ≡ ret c'
    → Answered (command_of (Message.header m).command) m c c'
      × AnsweredOnError (command_of (Message.header m).command) m ec c c'
deliver-Answered s m ec c c' e =
    let known = λ (k : ℕ). deliver-rqueue s m c c' k e in
    (
      advance (command_of (Message.header m).command) m c c' known,
      advance_on_error (command_of (Message.header m).command) m ec c c' known,
    )
