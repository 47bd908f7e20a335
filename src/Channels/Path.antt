-- ===== src/Channels/Path.antt =====
-- The path of a channel that `isChannel` admits.
use k_mqttd.Base.{ℕ, ◌≤◌, ◌≡◌, refl, true, List, [], ◌∷◌, ◌==◌, length, arith, Bool-cases, inl, inr}
use k_mqttd.Text.Pieces.{pieces_cons}
use k_mqttd.Text.Channel.{keep, rooted, is_slash, channel_pieces, split_channel-pieces}
use k_mqttd.Channels.{path_of}
use k_mqttd.Channels.Name.{is_channel}

is_channel-short : (channel : List ℕ) → is_channel channel ≡ true → length channel ≤ 0xffff
unfolding is_channel
is_channel-short channel fits = ground arith

pub path_of-pieces :
    (channel : List ℕ) → is_channel channel ≡ true → path_of channel ≡ channel_pieces channel
unfolding path_of
path_of-pieces channel fits =
    let short = is_channel-short channel fits in
    rw (path_of, split_channel-pieces channel (omega arith)) refl

keep_cons :
    (p : List ℕ) (ps : List (List ℕ))
    → (q : List ℕ) × (qs : List (List ℕ)) × (keep (p ∷ ps) ≡ q ∷ qs)
keep_cons p [] = (p, [], refl)
keep_cons p (q ∷ ps) =
    let (front, rest, e) = keep_cons q ps in
    elim (Bool-cases (length p == 0)) [
      | inl empty ↦ (front, rest, rw (empty, keep) e)
      | inr full ↦ (p, keep (q ∷ ps), rw (full, keep) refl)
    ]

rooted_cons :
    (p : List ℕ) (ps : List (List ℕ))
    → (q : List ℕ) × (qs : List (List ℕ)) × (rooted (p ∷ ps) ≡ q ∷ qs)
rooted_cons p [] = (p, [], refl)
rooted_cons p (q ∷ ps) = (b'/' ∷ p, keep (q ∷ ps), refl)

-- A path has a first step.
pub channel_pieces_cons :
    (s : List ℕ) → (p : List ℕ) × (ps : List (List ℕ)) × (channel_pieces s ≡ p ∷ ps)
channel_pieces_cons [] = ([], [], refl)
channel_pieces_cons (c ∷ cs) = elim (Bool-cases (is_slash c)) [
  | inl hit ↦
      let (p, ps, e) = pieces_cons is_slash cs in
      let (q, qs, f) = rooted_cons p ps in (q, qs, rw (hit, channel_pieces) (rw e f))
  | inr miss ↦
      let (p, ps, e) = pieces_cons is_slash cs in
      let (q, qs, f) = keep_cons (c ∷ p) ps in (q, qs, rw (miss, channel_pieces, e) f)
]
