-- ===== src/Session/Write.antt =====
-- `write` and `do_write` of src/MqttSession.hpp.
pub mod Whole
use k_mqttd.Base.{
  ℕ, ◌+◌, ◌-◌, Option, none, some, List, [], ◌∷◌, length, take, drop, ltb, leb, if◌then◌else◌, Exec,
  ret, undef, demand, ◌>>=◌, ◌>>◌, ℤ, pos, negsuc,
}
use k_mqttd.Protocol.Message
use k_mqttd.Protocol.Message.{Message}

-- `SOCKET_SEND_BUFFER_SIZE`.
abbrev pub send_buffer_size : ℕ
send_buffer_size = 8192

-- `async_write` with the bytes that it sends; or the end, without a call of `func` or with one, which is
-- given the error.
pub data Writing : Type 0 where
  sends : ℕ → List ℕ → Writing
  returned reported : Writing

unfoldable pub part_size : ℕ → ℕ → ℕ
part_size size writed_len =
    if ltb size send_buffer_size
    then size
    else if leb size (send_buffer_size + writed_len)
    then send_buffer_size
    else size - writed_len

-- A part past the end of the buffer has no defined behaviour.
unfoldable pub do_write : List ℕ → ℕ → Exec Writing
unfolding part_size
do_write buf writed_len =
    let size = part_size (length buf) writed_len in
    let part = (do
      demand (leb (writed_len + size) (length buf))
      ret (sends writed_len (take size (drop writed_len buf)))) in
    if leb (length buf) writed_len then ret returned else part

-- The handler of `async_write`, by the number of bytes sent; an error is `none`.
unfoldable pub on_written : List ℕ → ℕ → Option ℕ → Exec Writing
unfolding do_write
on_written buf writed_len none = ret reported
on_written buf writed_len (some transferred) =
    let rest = do_write buf (writed_len + transferred) in
    if ltb (writed_len + transferred) (length buf) then rest else ret returned

write_encoded : List ℕ → ℤ → Exec (ℤ × Option Writing)
unfolding do_write
write_encoded buf (negsuc n) = ret (negsuc n, none)
write_encoded buf (pos n) = do writing ← do_write buf 0; ret (pos 0, some writing)

-- `write`: where `encode` fails, nothing is sent.
unfoldable pub write : Message → Exec (ℤ × Option Writing)
unfolding write_encoded
write msg = let e = Message.encode msg [] in write_encoded e.buf e.result
