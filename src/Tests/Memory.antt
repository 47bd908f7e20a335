-- ===== src/Tests/Memory.antt =====
-- Runs of src/ChTree.hpp in memory.
use k_mqttd.Base.{◌≡◌, List, [], ◌∷◌, bytes, ret}
use k_mqttd.Channels
use k_mqttd.Channels.{init_root}
use k_mqttd.Channels.Store
use k_mqttd.Channels.Store.{Store, init}
use k_mqttd.Channels.Store.Run.{
  Call, adds, removes, calls, changes, Stands, init-Stands, calls-changes,
}
use k_mqttd.Channels.Store.{new_cell}
use k_mqttd.Channels.Store.Look.{Agrees, looks_agree}

-- Two channels that share a node, one of them taken out again, and one that is not there.
abbrev some_calls : List Call
some_calls =
    adds (bytes "a/b") ∷ adds (bytes "a/c") ∷ removes (bytes "a/b") ∷ removes (bytes "d") ∷ []

calls-changes_example :
    (s : Store) × (calls some_calls 0 init ≡ ret s) × Stands s 0 (changes some_calls init_root)
calls-changes_example = calls-changes some_calls

looks_agree_example :
    Agrees init
      (Store.find_node_by_name (bytes "a/b") 0 init)
      (ret (Channels.find_node_by_name (bytes "a/b") init_root))
    × Agrees init
        (Store.find_channel (bytes "a/b") 0 init)
        (Channels.find_channel (bytes "a/b") init_root)
looks_agree_example = looks_agree (bytes "a/b") init 0 init_root init-Stands
