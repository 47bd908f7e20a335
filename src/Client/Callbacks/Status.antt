-- ===== src/Client/Callbacks/Status.antt =====
-- The status of a package in a window of src/MqttClient.hpp.
use mathlib.Core.Option
use k_mqttd.Base.{ℕ, ◌≡◌, refl, [], ◌∷◌, ◌==◌, if◌then◌else◌, none, some, arith}
use k_mqttd.Client.{MqttClient}
use k_mqttd.Client.Windows.{Package, Window, find}
use k_mqttd.Client.Callbacks.{set_status, set_rqueue}

-- The window with another status.
pub put_status : ℕ → ℕ → Window → Window
put_status k v [] = []
put_status k v ((i, p) ∷ w) =
    let rest = put_status k v w in
    if i == k then (i, record p { status = v }) ∷ w else (i, p) ∷ rest

pub set_status_lem :
    (k v : ℕ) (w : Window)
    → set_status k v w ≡ (elim (find k w) [ none ↦ none | some p ↦ some (put_status k v w) ])
unfolding set_status put_status
set_status_lem k v [] = refl
set_status_lem k v ((i, p) ∷ w) = ground (arith, set_status_lem k v w)

pub find-put_status :
    (j k v : ℕ) (w : Window)
    → find j (put_status k v w) ≡ (
        if j == k
        then Option.map (λ (p : Package). record p { status = v }) (find k w)
        else find j w)
unfolding put_status
find-put_status j k v [] = ground arith
find-put_status j k v ((i, p) ∷ w) = ground (arith, find-put_status j k v w)

-- Where a client goes on: the window of `c'` with another status under `seq`.
pub set_rqueue_found :
    (seq v : ℕ) (c : MqttClient) (p : Package)
    → find seq c.rqueue ≡ some p
    → set_rqueue c (set_status seq v c.rqueue)
      ≡ some (record c { rqueue = put_status seq v c.rqueue })
set_rqueue_found seq v c p found = rw (set_status_lem seq v c.rqueue, found) refl

pub set_rqueue_missing :
    (seq v : ℕ) (c : MqttClient)
    → find seq c.rqueue ≡ none
    → set_rqueue c (set_status seq v c.rqueue) ≡ none
set_rqueue_missing seq v c missing = rw (set_status_lem seq v c.rqueue, missing) refl
