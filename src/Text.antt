-- ===== src/Text.antt =====
-- `CppUtils` of src/CppUtils.hpp, and the operations of `std::string` that it calls. A position is an
-- `Option`: `none` is `npos`.
pub mod Pieces
pub mod Trim
pub mod Split
pub mod Channel
use mathlib.Core.Option
use k_mqttd.Base.{
  ℕ, zero, suc, ◌+◌, ◌-◌, ◌^◌, Bool, true, false, not, ◌&&◌, ◌||◌, Option, none, some, List, [],
  ◌∷◌, ◌++◌, ◌==◌, ltb, if◌then◌else◌, length, take, drop, bytes,
}

abbrev pub member : ℕ → List ℕ → Bool
member c [] = false
member c (d ∷ ds) = c == d || member c ds

-- The first position whose byte passes the test.
abbrev pub index_of : (ℕ → Bool) → List ℕ → Option ℕ
index_of p [] = none
index_of p (c ∷ cs) = if p c then some 0 else Option.map suc (index_of p cs)

abbrev pub last_index_of : (ℕ → Bool) → List ℕ → Option ℕ
last_index_of p [] = none
last_index_of p (c ∷ cs) = elim (last_index_of p cs) [
  | some i ↦ some (suc i)
  | none ↦ if p c then some 0 else none
]

-- `find_first_of(delim, pos)`.
unfoldable pub find_first_of : List ℕ → List ℕ → ℕ → Option ℕ
find_first_of s delim pos = Option.map (λ i. pos + i) (index_of (λ c. member c delim) (drop pos s))

-- `substr(pos, n)`, where `pos` is within the text.
unfoldable pub substr : List ℕ → ℕ → ℕ → List ℕ
substr s pos n = take n (drop pos s)

abbrev pub npos : ℕ
npos = 2 ^ 64 - 1

abbrev pub whitespace : List ℕ
whitespace = bytes " \n\r\t"

-- `text.erase(0, i)` with `i = text.find_first_not_of(ws)`.
unfoldable pub erase_front : List ℕ → List ℕ
erase_front s = elim (index_of (λ c. not (member c whitespace)) s) [ none ↦ [] | some i ↦ drop i s ]

-- `text.erase(i + 1)` with `i = text.find_last_not_of(ws)`; `npos + 1` is 0.
unfoldable pub erase_back : List ℕ → List ℕ
erase_back s = elim (last_index_of (λ c. not (member c whitespace)) s) [
  | none ↦ []
  | some i ↦ take (i + 1) s
]

unfoldable pub trim : List ℕ → List ℕ
unfolding erase_front erase_back
trim text = if length text == 0 then text else erase_back (erase_front text)

-- The last piece: `index` is `npos` here.
unfoldable pub push_last : List ℕ → ℕ → List (List ℕ) → List (List ℕ)
push_last s last out =
    if ltb (length s) npos && ltb 0 (npos - last)
    then out ++ (substr s last (npos - last) ∷ [])
    else out

-- The loop of `split` by rounds left; `none` is no value of the program: the rounds have run out.
unfoldable pub split_loop : ℕ → List ℕ → List ℕ → ℕ → List (List ℕ) → Option (List (List ℕ))
split_loop zero s delim last out = none
split_loop (suc rounds) s delim last out = elim (find_first_of s delim last) [
  | none ↦ some (push_last s last out)
  | some index ↦ split_loop rounds s delim (index + 1) (out ++ (substr s last (index - last) ∷ []))
]

-- Each round passes a byte at least, so `length s + 1` rounds are enough.
unfoldable pub split : List ℕ → List ℕ → Option (List (List ℕ))
unfolding split_loop
split s delim = split_loop (length s + 1) s delim 0 []

unfoldable pub start_with : List ℕ → List ℕ → Bool
start_with s delim =
    if length s == 0
    then false
    else (elim (find_first_of s delim 0) [ none ↦ false | some index ↦ index == 0 ])

unfoldable pub end_with : List ℕ → List ℕ → Bool
end_with s delim = if length s == 0 then false else (elim (last_index_of (λ c. member c delim) s) [
  | none ↦ false
  | some index ↦ index == length s - 1
])

abbrev pub slash : List ℕ
slash = bytes "/"

-- The two loops of `splitChannel`, which skip empty pieces, with what follows each of them.
unfoldable pub channel_loop : ℕ → List ℕ → ℕ → List (List ℕ) → Option (List (List ℕ))
channel_loop zero s last out = none
channel_loop (suc rounds) s last out = elim (find_first_of s slash last) [
  | none ↦ some (push_last s last out)
  | some index ↦
      channel_loop rounds s (index + 1)
        (if index == last then out else out ++ (substr s last (index - last) ∷ []))
]

-- The branch for a text that begins with a slash: the first piece keeps it, unless it is the only
-- slash of the text.
unfoldable pub split_rooted : List ℕ → Option (List (List ℕ))
unfolding channel_loop
split_rooted s = elim (find_first_of s slash 1) [
  | some index ↦ channel_loop (length s + 1) s (index + 1) (substr s 0 index ∷ [])
  | none ↦ some (push_last s 1 [])
]

unfoldable pub split_channel : List ℕ → Option (List (List ℕ))
unfolding split_rooted
split_channel s = elim (find_first_of s slash 0) [
  | none ↦ channel_loop (length s + 1) s 0 []
  | some index ↦ if index == 0 then split_rooted s else channel_loop (length s + 1) s 0 []
]
