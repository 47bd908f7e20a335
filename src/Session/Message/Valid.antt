-- ===== src/Session/Message/Valid.antt =====
-- What the reads keep of a session, and that it holds after a message and between the parts of one.
pub mod Read
use k_mqttd.Base.{
  ℕ, zero, suc, ◌+◌, ◌-◌, ◌≤◌, ◌<◌, ◌≡◌, inl, inr, refl, sym, ap, ◌∙◌, subst, Bool, false, Option,
  none, some, List, [], ◌∷◌, ◌++◌, length, length-append, length-take, take, ret, arith, Bool-cases,
  ltb, leb, ◌==◌, ltb→lt, leb→le, demand, >>=-elim, ℤ, pos, negsuc,
}
use k_mqttd.Wire.Length.{dec_len}
use k_mqttd.Protocol.Header.{MqttHeader, Stale}
use k_mqttd.Protocol.Message.{Message}
use k_mqttd.Client.{un_login, deliver}
use k_mqttd.Client.Idle.{IsIdle, un_login-IsIdle, deliver-IsIdle}
use k_mqttd.Session.Parse.{parse_mqtt}
use k_mqttd.Session.Parse.Outcome.{parse_mqtt-ne_publish}
use k_mqttd.Session.Read.{length_ending, LenStep, complete, partial, len_step}
use k_mqttd.Session.Read.Ending.{len_step-partial}
use k_mqttd.Session.State.{
  Phase, reading_head, reading_len, reading_rest, stalled, resting, MqttSession, do_close,
  call_un_login, do_error,
}
use k_mqttd.Session.Message.{
  head_size, zeros, fail, on_message, finish, do_read_remainder, on_rest, do_read_len, on_length,
  after_len_step, on_len, after_head, on_head, on_phase, on_read, Gives, give_head, give_len,
  give_rest,
}

-- The rest of a length field fits into the head. The rest of a message ends at the end of its vector or
-- at most three bytes behind it. A session that waits for nothing more is closed.
abbrev pub Fits : Phase → Bool → Type 0
Fits reading_head is_open = Unit
Fits (reading_len first got) is_open = length got < head_size - 1
Fits (reading_rest pdata n mh size) is_open =
    (0 < size) × (length pdata ≤ n + size) × (n + size ≤ length pdata + 3)
Fits stalled is_open = Unit
Fits resting is_open = is_open ≡ false

pub record IsValid (s : MqttSession) : Type 0 where
  pub fits : Fits s.phase s.is_open
  pub unarmed : s.is_armed ≡ false
  pub client_idle : IsIdle s.client

pub returned : {s s' : MqttSession} → ret s ≡ ret s' → IsValid s → IsValid s'
returned {s} {s'} e v = let same : s ≡ s' = cc e in subst IsValid same v

call_un_login_client : (s : MqttSession) → (call_un_login s).client ≡ un_login s.client
unfolding call_un_login do_close
call_un_login_client s = elim (Bool-cases s.client.has_un_login) [
  | inl set ↦ rw set refl
  | inr unset ↦ rw unset refl
]

pub fail-IsValid : (s : MqttSession) → IsValid s → IsValid (fail s)
unfolding fail do_error do_close
fail-IsValid s v = record {
  fits = refl;
  unarmed = refl;
  client_idle =
      subst IsIdle (sym (call_un_login_client s)) (un_login-IsIdle s.client v.client_idle);
}

on_message-IsValid :
    (st : Stale) (now : ℕ) (mh : MqttHeader) (buf : List ℕ) (m : Message) (s s' : MqttSession)
    → parse_mqtt st mh buf ≡ ret (some m)
    → IsValid s
    → on_message st now m s ≡ ret s'
    → IsValid s'
unfolding on_message do_close
on_message-IsValid st now mh buf m s s' parsed v e =
    >>=-elim (deliver st m s.client) _ e λ client delivered rest.
      let idle =
        deliver-IsIdle st m s.client client (parse_mqtt-ne_publish st mh buf m parsed) v.client_idle
          delivered in
      elim (Bool-cases (client.un_logins == s.client.un_logins)) [
        | inl same ↦
            returned (rw same at rest)
              (record { fits = tt; unarmed = v.unarmed; client_idle = idle })
        | inr other ↦
            returned (rw other at rest) (record { fits = tt; unarmed = refl; client_idle = idle })
      ]

found-IsValid :
    (st : Stale) (now : ℕ) (mh : MqttHeader) (buf : List ℕ) (found : Option Message)
    (s s' : MqttSession)
    → parse_mqtt st mh buf ≡ ret found
    → IsValid s
    → (elim found [ none ↦ ret (fail s) | some m ↦ on_message st now m s ]) ≡ ret s'
    → IsValid s'
found-IsValid st now mh buf none s s' parsed v e = returned e (fail-IsValid s v)
found-IsValid st now mh buf (some m) s s' parsed v e =
    on_message-IsValid st now mh buf m s s' parsed v e

pub finish-IsValid :
    (st : Stale) (now : ℕ) (mh : MqttHeader) (buf : List ℕ) (s s' : MqttSession)
    → IsValid s
    → finish st now mh buf s ≡ ret s'
    → IsValid s'
unfolding finish
finish-IsValid st now mh buf s s' v e =
    >>=-elim (parse_mqtt st mh buf) _ e
      λ found parsed rest. found-IsValid st now mh buf found s s' parsed v rest

pub do_read_remainder-IsValid :
    (st : Stale) (now : ℕ) (pdata : List ℕ) (n : ℕ) (mh : MqttHeader) (size : ℕ)
    (s s' : MqttSession)
    → length pdata ≤ n + size
    → n + size ≤ length pdata + 3
    → IsValid s
    → do_read_remainder st now pdata n mh size s ≡ ret s'
    → IsValid s'
unfolding do_read_remainder
do_read_remainder-IsValid st now pdata n mh size s s' full near v e =
    elim (Bool-cases (ltb 0 size)) [
      | inl more ↦ returned (rw more at e) (record {
        fits = (ltb→lt 0 size more, full, near);
        unarmed = v.unarmed;
        client_idle = v.client_idle;
      })
      | inr none_left ↦ finish-IsValid st now mh pdata s s' v (rw none_left at e)
    ]

pub do_read_len-IsValid :
    (first : ℕ) (got : List ℕ) (s : MqttSession)
    → length got ≤ head_size - 1
    → IsValid s
    → IsValid (do_read_len first got s)
unfolding do_read_len
do_read_len-IsValid first got s room v = elim (Bool-cases (length got == head_size - 1)) [
  | inl full ↦ rw full (record { fits = tt; unarmed = v.unarmed; client_idle = v.client_idle })
  | inr partly ↦
      rw partly (record { fits = ground arith; unarmed = v.unarmed; client_idle = v.client_idle })
]
