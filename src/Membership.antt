-- ===== src/Membership.antt =====
-- `Channel` of src/mqtt/Channel.hpp: the clients of a channel in a `std::set`. An identifier is a list
-- of bytes. Nothing touches the list of messages.
pub mod Last
use k_mqttd.Base.{ℕ, Bool, true, false, ◌||◌, List, [], ◌∷◌, if◌then◌else◌, bytes_eq}

abbrev pub contains : List ℕ → List (List ℕ) → Bool
contains x [] = false
contains x (y ∷ ys) = bytes_eq x y || contains x ys

-- `insert` of a set leaves an element that is there.
unfoldable pub join : List ℕ → List (List ℕ) → List (List ℕ)
join client_id clients = if contains client_id clients then clients else client_id ∷ clients

unfoldable pub leave : List ℕ → List (List ℕ) → List (List ℕ)
leave client_id [] = []
leave client_id (c ∷ cs) =
    let rest = leave client_id cs in if bytes_eq client_id c then rest else c ∷ rest
