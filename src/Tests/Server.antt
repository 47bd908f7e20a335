-- ===== src/Tests/Server.antt =====
-- Runs of src/MqttServer.hpp, src/MqttException.hpp and src/mqtt/Channel.hpp.
use k_mqttd.Base.{
  undef, ◌↔◌, ◌≤◌, ◌<◌, ◌*◌, ℕ, ◌≡◌, refl, List, [], ◌∷◌, ◌==◌, some, none, true, ret, bytes, false,
  length, pos,
}
use k_mqttd.Server.{MqttServer, Accepted, make, on_accept, start_accept}
use k_mqttd.Server.Steps
use k_mqttd.Server.Steps.Reached.{AllFollow, AllValid, Reach-AllValid}
use k_mqttd.Server.Accept.{admitted}
use k_mqttd.Server.Life.{Lives, no_lives, new_life, start, Reach, begin, next, accept}
use k_mqttd.Server.Life.Kept.{is_destroyed_any, running_threads, Reach-threads}
use k_mqttd.Exception.{message}
use k_mqttd.Exception.Defined.{message-undef}
use k_mqttd.Membership.{contains}
use k_mqttd.Membership.Last.{joins, leaves, run, member_after, contains-run}

message-undef_example : (message 32 (pos 5) ≡ undef) ↔ ((4 ≤ 5) × (5 < 4 * 32))
message-undef_example = message-undef 32 5

-- The number that `do_read_remainder` gives an unknown packet.
third_message : message 32 (pos 3) ≡ ret (bytes "Socket is destroyed!")
unfolding message
third_message = refl

abbrev ann : List ℕ
ann = bytes "ann"

contains-run_example :
    contains ann (run (joins ann ∷ leaves (bytes "bob") ∷ []) [])
    ≡ member_after (joins ann ∷ leaves (bytes "bob") ∷ []) ann (contains ann [])
contains-run_example = contains-run (joins ann ∷ leaves (bytes "bob") ∷ []) ann []

-- A connection comes, and then an error.
abbrev come : List (Accepted ℕ)
come = (record { now = 10; address = some 4 }) ∷ (record { now = 11; address = none }) ∷ []

abbrev one_session : MqttServer ℕ
one_session =
    on_accept ◌==◌ (record { now = 11; address = none })
      (on_accept ◌==◌ (record { now = 10; address = some 4 }) (make 2))

one_session_reached : Steps.Reach ◌==◌ come one_session
unfolding make on_accept start_accept
one_session_reached =
    Steps.accept (record { now = 11; address = none })
      (Steps.accept (record { now = 10; address = some 4 }) (Steps.begin 2) refl) refl

Reach-AllValid_example :
    AllFollow (admitted ◌==◌ [] come) one_session.sessions
    × AllValid one_session.sessions
    × (one_session.is_accepting ≡ true)
Reach-AllValid_example = Reach-AllValid ◌==◌ one_session_reached

-- One session is started.
abbrev one_life : Lives
one_life = record { lives = start new_life ∷ []; is_stopped = false }

one_life_reached : Reach one_life
one_life_reached = next begin (accept no_lives)

Reach-threads_example :
    (is_destroyed_any one_life.lives ≡ false)
    × (one_life.is_stopped ≡ false → running_threads one_life.lives ≡ length one_life.lives)
Reach-threads_example = Reach-threads one_life_reached
