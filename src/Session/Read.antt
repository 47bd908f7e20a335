-- ===== src/Session/Read.antt =====
-- `length_ending` and `do_read_len` of src/MqttSession.hpp: the length field, read piece by piece.
pub mod Ending
pub mod Pieces
use k_mqttd.Base.{
  ℕ, zero, suc, ◌+◌, ℤ, pos, negsuc, Option, none, some, List, [], ◌∷◌, ◌++◌, length, take, ltb,
  ◌==◌, if◌then◌else◌, Exec, ret, undef, ◌>>=◌,
}
use k_mqttd.Wire.Length.{dec_len}

-- The loop at index `i`, by the rounds left, over the memory from there on. The callers pass at
-- most five bytes, so that an `Int8` holds the result.
scan : ℕ → ℕ → List ℕ → Exec ℤ
scan zero i s = ret (pos 0)
scan (suc n) i [] = undef
scan (suc n) i (b ∷ bs) =
    let rest = scan n (i + 1) bs in if ltb b 0x80 then ret (pos (i + 1)) else rest

unfoldable pub length_ending : List ℕ → ℕ → Exec ℤ
unfolding scan
length_ending memory zero = ret (negsuc 0)
length_ending memory (suc n) = scan (suc n) 0 memory

-- What one piece does in `do_read_len`: the callback runs with the length, the size of the length
-- field and the number of bytes read, or the reading goes on behind the bytes read so far.
pub data LenStep : Type 0 where
  complete : ℕ → ℕ → ℕ → LenStep
  partial : List ℕ → LenStep

after_ending : List ℕ → List ℕ → ℤ → Exec LenStep
after_ending got chunk (pos (suc e)) = do
  let len_size = length got + suc e
  len ← dec_len (take len_size (got ++ chunk))
  ret (complete len len_size (length got + length chunk))
after_ending got chunk (pos zero) = ret (partial (got ++ chunk))
after_ending got chunk (negsuc n) = ret (partial (got ++ chunk))

unfoldable pub len_step : List ℕ → List ℕ → Exec LenStep
unfolding length_ending after_ending
len_step got chunk = do ending ← length_ending chunk (length chunk); after_ending got chunk ending

-- What becomes of a call: the callback runs with these values or with the error, or the call returns
-- without it, or it still waits.
pub data LenRead : Type 0 where
  done : ℕ → ℕ → ℕ → LenRead
  failed stopped waiting : LenRead

after_step : Exec LenRead → LenStep → Exec LenRead
after_step rest (complete len len_size buffer_size) = ret (done len len_size buffer_size)
after_step rest (partial got) = rest

-- What `async_read_some` gives, in order: an error is `none`. `got` has been read already.
unfoldable pub read_len : ℕ → List ℕ → List (Option (List ℕ)) → Exec LenRead
unfolding len_step after_step
read_len len got [] = ret (if length got == len then stopped else waiting)
read_len len got (none ∷ rs) = ret (if length got == len then stopped else failed)
read_len len got (some chunk ∷ rs) =
    let rest = read_len len (got ++ chunk) rs in
    let run = len_step got chunk >>= after_step rest in
    if length got == len then ret stopped else run
