-- ===== src/Channels/Name.antt =====
-- `ChTree::isChannel` of src/ChTree.hpp.
pub mod Sound
use k_mqttd.Base.{
  ℕ, ◌+◌, ◌-◌, Bool, true, false, not, ◌&&◌, ◌||◌, Option, none, some, List, [], ◌∷◌, ltb, ◌==◌,
  if◌then◌else◌, length, get_elem?,
}
use k_mqttd.Text.{index_of, trim}

-- `channel.find("//") != npos`
unfoldable pub has_double_slash : List ℕ → Bool
has_double_slash [] = false
has_double_slash (c ∷ []) = false
has_double_slash (c ∷ d ∷ s) = (c == b'/' && d == b'/') || has_double_slash (d ∷ s)

-- `str[i]`; behind the last byte stands a zero.
abbrev pub byte_at : List ℕ → ℕ → ℕ
byte_at s i = elim (get_elem? s i) [ none ↦ 0 | some c ↦ c ]

-- The tests of the first `#`: it is the last byte, and a slash precedes it.
unfoldable pub hash_fits : List ℕ → Bool
hash_fits s = elim (index_of (λ c. c == b'#') s) [
  | none ↦ true
  | some pos ↦
      if not (pos == length s - 1)
      then false
      else if ltb 0 pos && not (byte_at s (pos - 1) == b'/')
      then false
      else true
]

-- The tests of the first `+`: only slashes stand beside it.
unfoldable pub plus_fits : List ℕ → Bool
plus_fits s = elim (index_of (λ c. c == b'+') s) [
  | none ↦ true
  | some pos ↦
      if ltb 0 pos && not (byte_at s (pos - 1) == b'/')
      then false
      else if ltb pos (length s - 1) && not (byte_at s (pos + 1) == b'/')
      then false
      else true
]

unfoldable pub is_channel : List ℕ → Bool
unfolding has_double_slash hash_fits plus_fits
is_channel channel =
    if ltb 0xffff (length channel)
    then false
    else if has_double_slash channel
    then false
    else if length (trim channel) == 0
    then false
    else hash_fits (trim channel) && plus_fits (trim channel)
