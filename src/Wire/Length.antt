-- ===== src/Wire/Length.antt =====
-- `encLen` and `decLen` of src/mqtt/Protocol.cpp: the remaining length field.
pub mod Varint
pub mod Encode
pub mod Decode
use Prim.Native.Nat.{bit_and, bit_or}
use k_mqttd.Base.{
  ℕ, ◌+◌, ◌-◌, ◌*◌, ◌/◌, ◌%◌, ◌^◌, not, ◌&&◌, Option, none, some, List, [], ◌∷◌, ltb, ◌==◌,
  if◌then◌else◌, Exec, ret, undef, ◌>>=◌,
}

-- The bytes after the leading one, from the four groups of seven bits.
len_groups : ℕ → ℕ → ℕ → ℕ → List ℕ
len_groups t0 t1 t2 t3 =
    if not (t3 == 0)
    then t3 ∷ bit_or t2 0x80 ∷ bit_or t1 0x80 ∷ bit_or t0 0x80 ∷ []
    else if not (t2 == 0)
    then t2 ∷ bit_or t1 0x80 ∷ bit_or t0 0x80 ∷ []
    else if not (t1 == 0)
    then t1 ∷ bit_or t0 0x80 ∷ []
    else t0 ∷ []

-- `vector<Uint8> vec(1)` holds one zero before anything is pushed.
unfoldable pub enc_len : ℕ → Option (List ℕ)
unfolding len_groups
enc_len len =
    if ltb 0x0fffffff len
    then none
    else some (
        0
        ∷ len_groups (bit_and len 0x7f) (bit_and (len / 2 ^ 7) 0x7f) (bit_and (len / 2 ^ 14) 0x7f)
            (bit_and (len / 2 ^ 21) 0x7f))

-- `t << k` on an `int`: undefined at 32 and more, and where the result does not fit 32 bits. The
-- value is the bit pattern.
unfoldable shift_int : ℕ → ℕ → Exec ℕ
shift_int t k = if ltb k 32 && ltb (t * 2 ^ k) (2 ^ 32) then ret (t * 2 ^ k) else undef

-- An `int` converted to `size_t`.
unfoldable pub to_size : ℕ → ℕ
to_size v = if ltb v (2 ^ 31) then v else v + (2 ^ 64 - 2 ^ 32)

-- The loop of `decLen` at index `i`, over the bytes that it has not read.
unfoldable pub dec_len_loop : ℕ → ℕ → List ℕ → Exec ℕ
unfolding shift_int to_size
dec_len_loop i len [] = ret (len % 2 ^ 32)
dec_len_loop i len (b ∷ bs) = if b == 0 then ret (len % 2 ^ 32) else (do
  v ← shift_int (bit_and b 0x7f) (i * 7)
  let len' = bit_or len (to_size v)
  if ltb b 0x7f then ret (len' % 2 ^ 32) else dec_len_loop (i + 1) len' bs)

unfoldable pub dec_len : List ℕ → Exec ℕ
unfolding dec_len_loop
dec_len data' = dec_len_loop 0 0 data'
