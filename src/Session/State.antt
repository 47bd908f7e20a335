-- ===== src/Session/State.antt =====
-- The state of a `MqttSession` of src/MqttSession.hpp, and how it closes.
use k_mqttd.Base.{ℕ, Option, List, Bool, false, if◌then◌else◌}
use k_mqttd.Protocol.Header.{MqttHeader}
use k_mqttd.Client.{MqttClient, un_login}

-- What the session waits for: a message's first bytes, the rest of the length field (with the header
-- byte and the bytes of the field that are there), or the rest of a message (with the buffer, the
-- bytes that are there, the header and the size). `stalled` and `resting` wait for nothing: in the
-- first `do_read_len` has returned with a full buffer, in the second reading has ended in an error.
pub data Phase : Type 0 where
  reading_head : Phase
  reading_len : ℕ → List ℕ → Phase
  reading_rest : List ℕ → ℕ → MqttHeader → ℕ → Phase
  stalled resting : Phase

-- The client, whether its socket is open, the phase, the time of the last activity, and the timer:
-- whether a handler waits for it, and when it expires. Times are in
-- nanoseconds. A new `deadline_timer` holds `not_a_date_time`, which is no time: `none`.
pub record MqttSession : Type 0 where
  pub client : MqttClient
  pub is_open : Bool
  pub phase : Phase
  pub atime : ℕ
  pub is_armed : Bool
  pub expires_at : Option ℕ

-- `close` of the client, whose errors nothing reads.
abbrev pub close : MqttSession → MqttSession
close s = record s { is_open = false }

-- `do_close` cancels the timer, whose handler then does nothing, and closes the socket.
unfoldable pub do_close : MqttSession → MqttSession
do_close s = close (record s { is_armed = false })

-- `func_OnUnLogin`, which `start` sets to `do_close`, where it is set.
unfoldable pub call_un_login : MqttSession → MqttSession
unfolding un_login do_close
call_un_login s =
    let s' = record s { client = un_login s.client } in
    if s.client.has_un_login then do_close s' else s'

unfoldable pub do_error : MqttSession → MqttSession
unfolding call_un_login
do_error s = do_close (call_un_login s)
