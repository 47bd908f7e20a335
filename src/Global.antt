-- ===== src/Global.antt =====
-- `Global` of src/Global.hpp.
use k_mqttd.Base.{◌≡◌, refl, Option, none, some, Exec, ret, undef}
use k_mqttd.Channels.{ChNode}

-- The tree that `_pRoot` points to, if it points to one.
pub record Global : Type 0 where
  pub root : Option ChNode

-- A new object: nothing sets `_pRoot`.
abbrev pub make : Global
make = record { root = none }

-- The body of `init` is empty.
abbrev pub init : Global → Global
init g = g

-- A null pointer is passed over by the test, whose body is empty, and then followed.
unfoldable pub get_root : Global → Exec ChNode
get_root g = elim g.root [ none ↦ undef | some t ↦ ret t ]

-- On a new object, also after `init`, `getRoot` has no defined behaviour.
get_root-init : get_root (init make) ≡ undef
unfolding get_root
get_root-init = refl
