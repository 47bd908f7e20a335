-- ===== src/Server.antt =====
-- `MQTTServer` of src/MqttServer.hpp: the accept loop and its threads. `Address` is
-- `boost::asio::ip::address`, `same` its equality. The sockets are not in the model, only the address at
-- their other end.
pub mod Accept
pub mod Steps
pub mod Life
use k_mqttd.Base.{
  ℕ, zero, suc, ◌^◌, Bool, true, false, ◌||◌, Option, none, some, List, [], ◌∷◌, ◌++◌, ltb,
  if◌then◌else◌, Exec, ret, undef, demand, ◌>>=◌, ◌>>◌,
}
use k_mqttd.Client
use k_mqttd.Session.State.{MqttSession}
use k_mqttd.Session.Active
use k_mqttd.Session.Active.{start}

-- The black list, the sessions that were started, in order, the number of threads asked for and
-- started, whether `_ioContent` is stopped, and whether `async_accept` waits for a connection.
pub record MqttServer (Address : Type 0) : Type 0 where
  pub black_list : List Address
  pub sessions : List MqttSession
  pub n_threads : ℕ
  pub threads : ℕ
  pub is_stopped : Bool
  pub is_accepting : Bool

-- `StartAccept`.
unfoldable pub start_accept : {Address : Type 0} → MqttServer Address → MqttServer Address
start_accept s = record s { is_accepting = true }

-- The constructor, once the acceptor listens.
unfoldable pub make : {Address : Type 0} → ℕ → MqttServer Address
unfolding start_accept
make n_threads = start_accept (record {
  black_list = [];
  sessions = [];
  n_threads = n_threads;
  threads = 0;
  is_stopped = false;
  is_accepting = false;
})

-- One thread in each round. The counter is an `int`, which has no defined behaviour past its bound.
unfoldable pub start_threads : {Address : Type 0} → ℕ → MqttServer Address → MqttServer Address
start_threads zero s = s
start_threads (suc n) s = start_threads n (record s { threads = suc s.threads })

-- `Start`.
unfoldable pub start_all : {Address : Type 0} → MqttServer Address → Exec (MqttServer Address)
unfolding start_threads
start_all s = do demand (ltb s.n_threads (2 ^ 31)); ret (start_threads s.n_threads s)

-- `Stop`.
unfoldable pub stop : {Address : Type 0} → MqttServer Address → MqttServer Address
stop s = record s { is_stopped = true }

-- `std::find` in the black list.
abbrev pub is_listed :
    {Address : Type 0} → (Address → Address → Bool) → Address → List Address → Bool
is_listed same a [] = false
is_listed same a (b ∷ bs) = same a b || is_listed same a bs

-- A completion of `async_accept`: the time, and the address, or the error.
pub record Accepted (Address : Type 0) : Type 0 where
  pub now : ℕ
  pub address : Option Address

abbrev pub new_session : ℕ → MqttSession
new_session now = start (Active.make Client.make now)

-- The handler of `async_accept`.
unfoldable pub on_accept :
    {Address : Type 0}
    → (Address → Address → Bool)
    → Accepted Address
    → MqttServer Address
    → MqttServer Address
unfolding start_accept
on_accept same e s =
    let s' = record s { is_accepting = false } in
    let admitted = record s' { sessions = s.sessions ++ (new_session e.now ∷ []) } in
    start_accept (elim e.address [
      | none ↦ s'
      | some a ↦ if is_listed same a s.black_list then s' else admitted
    ])
