-- ===== src/Client/Exchange.antt =====
-- Sequences of messages that a client is given.
use k_mqttd.Base.{
  ℕ, ◌≡◌, sym, ◌∙◌, Option, none, some, List, [], ◌∷◌, arith, Exec, ret, ◌>>=◌, >>=-elim, subst,
}
use k_mqttd.Protocol.Header.{Command, Stale, command_of, command_code, publish, pubcomp}
use k_mqttd.Protocol.Message
use k_mqttd.Protocol.Message.{Message}
use k_mqttd.Client.{MqttClient, deliver}
use k_mqttd.Client.Windows.{Package, find}
use k_mqttd.Client.Deliver.{after, deliver-rqueue}

-- One message after the other.
abbrev pub deliver_all : Stale → List Message → MqttClient → Exec MqttClient
deliver_all s [] c = ret c
deliver_all s (m ∷ ms) c = do c' ← deliver s m c; deliver_all s ms c'

-- Every package in the receive window has the status PUBLISH.
abbrev pub AllPublished : MqttClient → Type 0
AllPublished c = (k : ℕ) (p : Package) → find k c.rqueue ≡ some p → p.status ≡ command_code publish

after-published :
    (code : Command) (m : Message) (k : ℕ) (old : Option Package) (p : Package)
    → ((q : Package) → old ≡ some q → q.status ≡ command_code publish)
    → after code m k old ≡ some p
    → p.status ≡ command_code publish
after-published publish (Message.publish m) k none p h e = ground arith
after-published publish (Message.publish m) k (some q) p h e = ground (arith, h q)
after-published pubcomp (Message.pubcomp m) k old p h e = ground (arith, h p)
after-published _ m k old p h e = h p e

-- A QoS 2 exchange never goes on: after any sequence of messages that `deliver` returns from, all
-- packages in the receive window have the status PUBLISH, if they had it before.
deliver_all-AllPublished :
    (s : Stale) (ms : List Message) (c c' : MqttClient)
    → AllPublished c
    → deliver_all s ms c ≡ ret c'
    → AllPublished c'
deliver_all-AllPublished s [] c c' h e = let same : c ≡ c' = cc e in subst AllPublished same h
deliver_all-AllPublished s (m ∷ ms) c c' h e = >>=-elim (deliver s m c) _ e λ d first rest.
    deliver_all-AllPublished s ms d c'
      (λ k p found.
        after-published (command_of (Message.header m).command) m k (find k c.rqueue) p (h k)
          (sym (deliver-rqueue s m c d k first) ∙ found))
      rest
