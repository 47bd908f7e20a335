-- ===== src/Session/Steps.antt =====
-- A session of src/MqttSession.hpp from `start` on, as steps: the reads complete, and the timer expires.
pub mod Reached
use k_mqttd.Base.{ℕ, ◌≤◌, ◌≡◌, true, false, none, some, Option, List, ret}
use k_mqttd.Protocol.Header.{Stale}
use k_mqttd.Client
use k_mqttd.Session.State.{MqttSession}
use k_mqttd.Session.Message.{Gives, on_read}
use k_mqttd.Session.Active.{make, start, on_timer}

-- A timer that holds a time expires then; what one does that holds none is not documented.
abbrev pub IsDue : Option ℕ → ℕ → Type 0
IsDue none now = Unit
IsDue (some t) now = t ≤ now

-- Only an open socket gives bytes, and the timer runs its handler where one waits for it, when it has
-- expired.
pub data Step : MqttSession → MqttSession → Type 0 where
  read :
      (st : Stale) (now : ℕ) (chunk : List ℕ) (s s' : MqttSession)
      → s.is_open ≡ true
      → Gives s.phase chunk
      → on_read st now (some chunk) s ≡ ret s'
      → Step s s'
  read_error :
      (st : Stale) (now : ℕ) (s s' : MqttSession) → on_read st now none s ≡ ret s' → Step s s'
  timer :
      (now : ℕ) (s : MqttSession)
      → s.is_armed ≡ true
      → IsDue s.expires_at now
      → Step s (on_timer false now s)

pub data Reach : MqttSession → Type 0 where
  begin : (now : ℕ) → Reach (start (make Client.make now))
  next : {s s' : MqttSession} → Reach s → Step s s' → Reach s'

-- Any number of steps of one session.
pub data Follows (s : MqttSession) : MqttSession → Type 0 where
  stays : Follows s s
  goes_on : {t t' : MqttSession} → Follows s t → Step t t' → Follows s t'
