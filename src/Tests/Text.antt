-- ===== src/Tests/Text.antt =====
-- Runs of src/CppUtils.hpp.
use k_mqttd.Base.{ℕ, ◌≡◌, refl, List, [], ◌∷◌, some, bytes, arith}
use k_mqttd.Text.{member, split, split_channel}
use k_mqttd.Text.Pieces.{pieces, join}
use k_mqttd.Text.Split.{split_lem}
use k_mqttd.Text.Channel.{channel_pieces, split_channel-pieces}

abbrev row : List ℕ
row = bytes "a,,b,"

split_lem_example :
    (split row (bytes ",") ≡ some (pieces (λ c. member c (bytes ",")) row))
    × ((ps : List (List ℕ)) × (split row (b',' ∷ []) ≡ some ps) × (join (b',' ∷ []) ps ≡ row))
split_lem_example = split_lem row (bytes ",") b',' (omega arith)

pieces_of_row : pieces (λ c. member c (bytes ",")) row ≡ bytes "a" ∷ [] ∷ bytes "b" ∷ [] ∷ []
pieces_of_row = refl

split_channel-pieces_example : split_channel (bytes "/a/b") ≡ some (channel_pieces (bytes "/a/b"))
split_channel-pieces_example = split_channel-pieces (bytes "/a/b") (omega arith)

pieces_of_channel : channel_pieces (bytes "/a//b/") ≡ bytes "/a" ∷ bytes "b" ∷ [] ∷ []
pieces_of_channel = refl
