-- ===== src/Wire/Words.antt =====
-- Machine words of src/mqtt/VarTypes.h and the byte order functions that the codecs call
-- (src/mqtt/Protocol.cpp). The build is for 64-bit x86 (CMakeLists.txt, `-m64`), whose memory is
-- little-endian: `htons` and `htonl` reverse the bytes of their argument.
use k_mqttd.Base.{
  ℕ, ◌+◌, ◌-◌, ◌*◌, ◌/◌, ◌%◌, ◌^◌, ◌<◌, ◌≡◌, List, [], ◌∷◌, arith, ltb, if◌then◌else◌,
}

abbrev pub IsByte : ℕ → Type 0
IsByte b = b < 256

abbrev pub IsUint16 : ℕ → Type 0
IsUint16 x = x < 2 ^ 16

abbrev pub IsUint : ℕ → Type 0
IsUint x = x < 2 ^ 32

-- The argument of `htons` is converted to 16 bits first. `ntohs` is the same function.
unfoldable pub htons : ℕ → ℕ
htons x = x % 256 * 256 + x / 256 % 256

unfoldable pub htonl : ℕ → ℕ
htonl x = x % 256 * 2 ^ 24 + x / 2 ^ 8 % 256 * 2 ^ 16 + x / 2 ^ 16 % 256 * 2 ^ 8 + x / 2 ^ 24 % 256

-- The two bytes of a `Uint16` variable, in the order of its addresses.
unfoldable pub memory16 : ℕ → List ℕ
memory16 t = t % 256 ∷ (t / 256 % 256) ∷ []

-- An `Int16` is kept as its bit pattern. This is its value converted to `Uint`.
unfoldable pub sign_extend16 : ℕ → ℕ
sign_extend16 s = if ltb s (2 ^ 15) then s else s + (2 ^ 32 - 2 ^ 16)

htons-htons : (x : ℕ) → IsUint16 x → htons (htons x) ≡ x
unfolding htons
htons-htons x h = omega arith

htonl-htonl : (x : ℕ) → IsUint x → htonl (htonl x) ≡ x
unfolding htonl
htonl-htonl x h = omega arith

htons-lt : (x : ℕ) → htons x < 2 ^ 16
unfolding htons
htons-lt x = omega arith

htonl-lt : (x : ℕ) → htonl x < 2 ^ 32
unfolding htonl
htonl-lt x = omega arith

-- One `htons` before the copy puts the high byte first.
memory16-htons : (x : ℕ) → IsUint16 x → memory16 (htons x) ≡ x / 256 ∷ (x % 256) ∷ []
unfolding memory16 htons
memory16-htons x h = ground arith
