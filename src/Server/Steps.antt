-- ===== src/Server/Steps.antt =====
-- The server with its sessions, as steps: a connection comes, or one of the sessions takes a step.
pub mod Reached
use k_mqttd.Base.{
  ℕ, Bool, true, ◌≡◌, refl, ap, sym, subst, List, [], ◌∷◌, ◌++◌, Option-cases, Bool-cases, inl, inr,
}
use k_mqttd.Session.State.{MqttSession}
use k_mqttd.Session.Message.Valid.{IsValid}
use k_mqttd.Session.Steps
use k_mqttd.Session.Steps.Reached.{Reach-IsValid, Step-IsValid}
use k_mqttd.Server.{MqttServer, Accepted, make, new_session, on_accept}
use k_mqttd.Server.Accept.{admitted, on_accept_sessions, on_accept_list}

-- One of the sessions takes a step.
pub data Step {Address : Type 0} : MqttServer Address → MqttServer Address → Type 0 where
  session :
      (s : MqttServer Address) (before later : List MqttSession) (x x' : MqttSession)
      → s.sessions ≡ before ++ (x ∷ later)
      → Steps.Step x x'
      → Step s (record s { sessions = before ++ (x' ∷ later) })

-- A server that is reached, with the completions of `async_accept` so far, in order. Where
-- `remote_endpoint` throws the program ends, and there is no next server.
pub data Reach {Address : Type 0} (same : Address → Address → Bool)
    : List (Accepted Address) → MqttServer Address → Type 0 where
  begin : (n_threads : ℕ) → Reach same [] (make n_threads)
  accept :
      {es : List (Accepted Address)} {s : MqttServer Address} (e : Accepted Address)
      → Reach same es s
      → s.is_accepting ≡ true
      → Reach same (es ++ (e ∷ [])) (on_accept same e s)
  next :
      {es : List (Accepted Address)} {s s' : MqttServer Address}
      → Reach same es s
      → Step s s'
      → Reach same es s'
