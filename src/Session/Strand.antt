-- ===== src/Session/Strand.antt =====
-- `context->func` of src/MqttSession.hpp without an error, where the strand of the session may be busy:
-- strands of several sessions may share one implementation, and then `dispatch` only queues its
-- function.
pub mod Orders
use k_mqttd.Base.{
  demand, ◌>>◌, zero, suc, ℕ, Bool, true, false, ◌==◌, if◌then◌else◌, Option, none, some, List, [],
  ◌∷◌, ◌++◌, Exec, ret, undef, ◌>>=◌,
}
use k_mqttd.Protocol.Header.{Stale}
use k_mqttd.Protocol.Message.{Message}
use k_mqttd.Client.{MqttClient, deliver}
use k_mqttd.Session.State.{Phase, reading_head, MqttSession, do_close}

-- The functions given to `dispatch`, or what is left of them: the call of `deliver`, which has still to
-- read `*pmsg` so many times, and that of `do_read_message`.
pub data Task : Type 0 where
  delivers : ℕ → Task
  reads_on : Task

-- The session, what the strand has still to run, the message, and whether `pmsg` is still there: the
-- function for `deliver` has a reference to it.
pub record Call : Type 0 where
  pub session : MqttSession
  pub queue : List Task
  pub message : Message
  pub is_there : Bool

-- `deliver`, and the session's function for `func_OnUnLogin` where that is called.
unfoldable pub deliver_in : Stale → Message → MqttSession → Exec MqttSession
deliver_in st m s = do
  client ← deliver st m s.client
  let s' = record s { client = client }
  ret (if client.un_logins == s.client.un_logins then s' else do_close s')

unfoldable pub read_next : Call → Call
read_next c = record c { session = record c.session { phase = reading_head } }

-- What the strand runs next of its queue: a read of `*pmsg`, the end of `deliver`, or `do_read_message`.
-- The reference to a parameter of a function that has returned may not be read.
unfoldable pub run_queue : Stale → List Task → Call → Exec Call
unfolding deliver_in read_next
run_queue st [] c = ret c
run_queue st (delivers (suc n) ∷ tasks) c =
    demand c.is_there >> ret (record c { queue = delivers n ∷ tasks })
run_queue st (delivers zero ∷ tasks) c = do
  s ← deliver_in st c.message c.session
  ret (record c { session = s; queue = tasks })
run_queue st (reads_on ∷ tasks) c = ret (read_next (record c { queue = tasks }))

-- The strand runs a function at once, from its beginning to its end, or puts it into its queue.
unfoldable pub dispatch : Stale → Bool → Task → Call → Exec Call
unfolding deliver_in read_next
dispatch st true task c = ret (record c { queue = c.queue ++ (task ∷ []) })
dispatch st false (delivers n) c = do
  s ← deliver_in st c.message c.session
  ret (record c { session = s })
dispatch st false reads_on c = ret (read_next c)

-- The body of `context->func`, up to its end, where `deliver` reads its message `n` times.
unfoldable pub func : Stale → ℕ → Bool → ℕ → Message → MqttSession → Exec Call
unfolding dispatch
func st now is_busy n m s = do
  c ←
      dispatch st is_busy (delivers n)
        (record { session = record s { atime = now }; queue = []; message = m; is_there = true })
  dispatch st is_busy reads_on c

-- What happens then: the function returns, so that `pmsg` is gone, or the strand goes on by a step.
pub data Event : Type 0 where
  returns strand_runs : Event

unfoldable pub happen : Stale → Event → Call → Exec Call
unfolding run_queue
happen st returns c = ret (record c { is_there = false })
happen st strand_runs c = run_queue st c.queue c

abbrev pub play : Stale → List Event → Call → Exec Call
play st [] c = ret c
play st (e ∷ es) c = do c' ← happen st e c; play st es c'
