-- ===== src/Session/Active.antt =====
-- `start`, the functions that it sets, and the activity timer of src/MqttSession.hpp. Times are in
-- nanoseconds, and the clock does not go back behind the last activity.
use mathlib.Core.Option
use k_mqttd.Base.{none, ◌*◌, ◌/◌, ◌^◌, ℕ, ◌+◌, ◌-◌, Bool, true, false, if◌then◌else◌, ltb}
use k_mqttd.Client.{MqttClient}
use k_mqttd.Session.State.{reading_head, MqttSession, do_close}

-- A second, in nanoseconds.
abbrev pub second : ℕ
second = 10 ^ 9

-- `ACTIVE_TIME`, in seconds.
abbrev pub active_time : ℕ
active_time = 60

-- A new session.
unfoldable pub make : MqttClient → ℕ → MqttSession
make client now = record {
  client = client;
  is_open = true;
  phase = reading_head;
  atime = now;
  is_armed = false;
  expires_at = none;
}

-- `do_active` adds seconds to what the timer holds; `not_a_date_time` stays so.
unfoldable pub do_active : ℕ → MqttSession → MqttSession
do_active later s = record s {
  expires_at = Option.map (λ (t : ℕ). t + later * second) s.expires_at;
  is_armed = true;
}

-- The handler of the timer; `is_error` where the timer was cancelled or set anew. `duration_cast` leaves
-- out what is less than a second.
unfoldable pub on_timer : Bool → ℕ → MqttSession → MqttSession
unfolding do_active do_close
on_timer is_error now s =
    let fired = record s { is_armed = false } in
    let elapsed = (now - s.atime) / second in
    if is_error
    then s
    else if ltb active_time elapsed
    then do_close fired
    else do_active elapsed fired

-- `start`: `func_OnUnLogin` is set, and the first read begins.
unfoldable pub start : MqttSession → MqttSession
start s = record s { client = record s.client { has_un_login = true }; phase = reading_head }

-- What `start` sets `func_OnLogin` to.
unfoldable pub on_login : ℕ → MqttSession → MqttSession
unfolding do_active
on_login now s = do_active active_time (record s { atime = now })

-- What `start` sets `func_OnWrite` to.
unfoldable pub on_write : ℕ → MqttSession → MqttSession
on_write now s = record s { atime = now }
