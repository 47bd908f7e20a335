-- ===== src/Client/Windows.antt =====
-- The windows of src/MqttClient.hpp: `std::map` from identifiers to packages.
use k_mqttd.Base.{ℕ, ◌≡◌, List, [], ◌∷◌, Option, none, some, ◌==◌, if◌then◌else◌, arith}
use k_mqttd.Protocol.Header.{MqttHeader}

-- A package holds a `MqttMessage` by value: its size and header, and no member of a subclass.
pub record Package : Type 0 where
  pub status : ℕ
  pub date_stamp : ℕ
  pub size : ℕ
  pub header : MqttHeader

abbrev pub Window : Type 0
Window = List (ℕ × Package)

abbrev pub find : ℕ → Window → Option Package
find k [] = none
find k ((i, p) ∷ w) = if i == k then some p else find k w

-- `insert` leaves a key that is there.
unfoldable pub insert : ℕ → Package → Window → Window
insert k p w = elim (find k w) [ none ↦ (k, p) ∷ w | some q ↦ w ]

unfoldable pub erase : ℕ → Window → Window
erase k [] = []
erase k ((i, p) ∷ w) = let rest = erase k w in if i == k then rest else (i, p) ∷ rest

pub find-insert :
    (j k : ℕ) (p : Package) (w : Window)
    → find j (insert k p w)
      ≡ (if j == k then (elim (find k w) [ none ↦ some p | some q ↦ some q ]) else find j w)
unfolding insert
find-insert j k p w = ground arith

pub find-erase : (j k : ℕ) (w : Window) → find j (erase k w) ≡ (if j == k then none else find j w)
unfolding erase
find-erase j k [] = ground arith
find-erase j k ((i, p) ∷ w) = ground (arith, find-erase j k w)
