-- ===== src/Session/Message.antt =====
-- `do_read_message` and `do_read_remainder` of src/MqttSession.hpp, with the call of `do_read_len`:
-- the handler of each read, from what `async_read_some` or `async_read` gives (an error is `none`) to
-- the next read. `st` is the unset memory of new objects, `now` the clock.
pub mod Buffer
pub mod Whole
pub mod Cut
pub mod Delivered
pub mod Closing
pub mod Acks
pub mod Run
pub mod Own
pub mod Late
pub mod Received
pub mod Valid
use k_mqttd.Base.{
  ℕ, zero, suc, ◌+◌, ◌-◌, Bool, ◌&&◌, Option, none, some, List, [], ◌∷◌, ◌++◌, length, take, drop,
  replicate, ◌≤◌, ◌≡◌, ltb, leb, ◌==◌, if◌then◌else◌, Exec, ret, undef, demand, ◌>>=◌, ◌>>◌, ℤ, pos,
  negsuc,
}
use k_mqttd.Wire.Length.{dec_len}
use k_mqttd.Protocol.Header.{MqttHeader, Stale, header_of_byte}
use k_mqttd.Protocol.Message.{Message}
use k_mqttd.Client.{MqttClient, deliver}
use k_mqttd.Session.Parse.{parse_mqtt}
use k_mqttd.Session.Read.{length_ending, LenStep, complete, partial, len_step}
use k_mqttd.Session.State.{
  Phase, reading_head, reading_len, reading_rest, stalled, resting, MqttSession, do_close, do_error,
}

-- `sizeof(context->head)`.
abbrev pub head_size : ℕ
head_size = 5

-- `vector<Uint8>(n)`.
abbrev pub zeros : ℕ → List ℕ
zeros n = replicate n 0

-- The error branch of each callback.
unfoldable pub fail : MqttSession → MqttSession
unfolding do_error
fail s = record (do_error s) { phase = resting }

-- `context->func` without an error: the strand runs `deliver` and the next `do_read_message` at once.
-- Where `deliver` calls `func_OnUnLogin`, the session closes.
unfoldable pub on_message : Stale → ℕ → Message → MqttSession → Exec MqttSession
on_message st now m s = do
  client ← deliver st m s.client
  let s' = record s { atime = now; client = client; phase = reading_head }
  ret (if client.un_logins == s.client.un_logins then s' else do_close s')

-- `parseMqtt` of the whole buffer; a null pointer is the error 3.
unfoldable pub finish : Stale → ℕ → MqttHeader → List ℕ → MqttSession → Exec MqttSession
unfolding on_message fail
finish st now mh pdata s = do
  pmsg ← parse_mqtt st mh pdata
  elim pmsg [ none ↦ ret (fail s) | some m ↦ on_message st now m s ]

-- `do_read_remainder`. It asks for `size` bytes behind the `readed_n` that are there, whatever the size
-- of the vector. Its `buf_size` is not used.
unfoldable pub do_read_remainder :
    Stale → ℕ → List ℕ → ℕ → MqttHeader → ℕ → MqttSession → Exec MqttSession
unfolding finish
do_read_remainder st now pdata readed_n mh size s =
    if ltb 0 size
    then ret (record s { phase = reading_rest pdata readed_n mh size })
    else finish st now mh pdata s

-- Bytes copied into a vector from an index on.
abbrev pub write_at : ℕ → List ℕ → List ℕ → List ℕ
write_at n bytes' pdata = take n pdata ++ (bytes' ++ drop (n + length bytes') pdata)

-- The bytes that come are written into the vector; past its end there is no defined behaviour.
unfoldable pub on_rest :
    Stale → ℕ → List ℕ → ℕ → MqttHeader → ℕ → Option (List ℕ) → MqttSession → Exec MqttSession
unfolding do_read_remainder
on_rest st now pdata readed_n mh size none s = ret (fail s)
on_rest st now pdata readed_n mh size (some chunk) s =
    let pdata' = write_at readed_n chunk pdata in
    let run =
      if ltb (readed_n + length chunk) size
      then do_read_remainder st now pdata' (readed_n + length chunk) mh size s
      else finish st now mh pdata' s in
    demand (leb (readed_n + length chunk) (length pdata)) >> run

-- `do_read_len` on the four bytes behind the header byte.
unfoldable pub do_read_len : ℕ → List ℕ → MqttSession → MqttSession
do_read_len first got s =
    if length got == head_size - 1
    then record s { phase = stalled }
    else record s { phase = reading_len first got }

-- The callback of `do_read_len` copies the first `buffer_size` bytes of the head into a vector of
-- `1 + len_size + len` zeros, and leaves a gap of one byte before what comes next.
unfoldable pub on_length : Stale → ℕ → ℕ → List ℕ → ℕ → ℕ → ℕ → MqttSession → Exec MqttSession
unfolding do_read_remainder
on_length st now first got len len_size buffer_size s = do
  let pdata = zeros (1 + len_size + len)
  demand (leb buffer_size (length pdata))
  let pdata' = write_at 0 (take buffer_size (first ∷ got)) pdata
  do_read_remainder st now pdata' (1 + buffer_size) (header_of_byte first) len s

after_len_step : Stale → ℕ → ℕ → List ℕ → MqttSession → LenStep → Exec MqttSession
unfolding on_length do_read_len
after_len_step st now first all s (complete len len_size buffer_size) =
    on_length st now first all len len_size buffer_size s
after_len_step st now first all s (partial got) = ret (do_read_len first got s)

unfoldable pub on_len : Stale → ℕ → ℕ → List ℕ → Option (List ℕ) → MqttSession → Exec MqttSession
unfolding after_len_step fail
on_len st now first got none s = ret (fail s)
on_len st now first got (some chunk) s = do
  step ← len_step got chunk
  after_len_step st now first (got ++ chunk) s step

-- What `length_ending` has found in the head, of which `n` bytes have been read. The vector has
-- `n + len` bytes, and the head's first `n` are copied.
after_head : Stale → ℕ → ℕ → List ℕ → ℕ → MqttSession → ℤ → Exec MqttSession
unfolding do_read_remainder do_read_len fail
after_head st now first pbuf n s (pos (suc e)) = do
  len ← dec_len (take (suc e) pbuf)
  let pdata = write_at 0 (take n (first ∷ pbuf)) (zeros (n + len))
  do_read_remainder st now pdata n (header_of_byte first) len s
after_head st now first pbuf n s (pos zero) = ret (do_read_len first (take (n - 1) pbuf) s)
after_head st now first pbuf n s (negsuc k) = ret (fail s)

-- The handler of the first read. The head has been filled with zeros. `length_ending` is given all the
-- bytes that were read for its length, though its pointer stands behind the header byte.
unfoldable pub on_head : Stale → ℕ → Option (List ℕ) → MqttSession → Exec MqttSession
unfolding after_head length_ending
on_head st now none s = ret (fail s)
on_head st now (some []) s = ret (fail s)
on_head st now (some (first ∷ [])) s = ret (do_read_len first [] s)
on_head st now (some (first ∷ b ∷ bs)) s = do
  let n = length (first ∷ b ∷ bs)
  let pbuf = b ∷ (bs ++ zeros (head_size - n))
  ending ← length_ending pbuf n
  after_head st now first pbuf n s ending

-- The completion of the read that the session waits for.
on_phase : Phase → Stale → ℕ → Option (List ℕ) → MqttSession → Exec MqttSession
unfolding on_head on_len on_rest
on_phase reading_head st now event s = on_head st now event s
on_phase (reading_len first got) st now event s = on_len st now first got event s
on_phase (reading_rest pdata readed_n mh size) st now event s =
    on_rest st now pdata readed_n mh size event s
on_phase stalled st now event s = ret s
on_phase resting st now event s = ret s

unfoldable pub on_read : Stale → ℕ → Option (List ℕ) → MqttSession → Exec MqttSession
unfolding on_phase
on_read st now event s = on_phase s.phase st now event s

-- What the socket gives, as `async_read_some` and `async_read` are documented: a read without an error
-- gives at least one byte and at most as many as the buffer has, and `async_read` gives them all.
pub data Gives : Phase → List ℕ → Type 0 where
  give_head :
      (chunk : List ℕ) → 1 ≤ length chunk → length chunk ≤ head_size → Gives reading_head chunk
  give_len :
      (first : ℕ) (got chunk : List ℕ)
      → 1 ≤ length chunk
      → length got + length chunk ≤ head_size - 1
      → Gives (reading_len first got) chunk
  give_rest :
      (pdata : List ℕ) (n : ℕ) (mh : MqttHeader) (size : ℕ) (chunk : List ℕ)
      → length chunk ≡ size
      → Gives (reading_rest pdata n mh size) chunk
