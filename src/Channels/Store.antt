-- ===== src/Channels/Store.antt =====
-- `ChTree` of src/ChTree.hpp on its nodes in memory: a `shared_ptr` is an address, and a node that
-- nothing points at any more stays where it is. What has no node has no defined behaviour.
pub mod Address
pub mod Grown
pub mod Replace
pub mod Detach
pub mod Fresh
pub mod Add
pub mod Visit
pub mod Remove
pub mod Run
pub mod Look
pub mod Print
use k_mqttd.Base.{
  ℕ, suc, ◌+◌, ◌-◌, ◌%◌, ◌^◌, Bool, ◌&&◌, ◌==◌, if◌then◌else◌, Option, none, some, List, [], ◌∷◌,
  ◌++◌, bytes, bytes_eq, Exec, ret, undef, ◌>>=◌,
}
use k_mqttd.Channels.{Info, path_of}
use k_mqttd.Channels.Name.{is_channel}

pub record Cell : Type 0 where
  pub info : Info
  pub nodes : List ℕ

-- The nodes by their addresses, all below `next`.
pub record Store : Type 0 where
  pub next : ℕ
  pub cell : ℕ → Option Cell

unfoldable pub load : ℕ → Store → Exec Cell
load p s = elim (s.cell p) [ none ↦ undef | some c ↦ ret c ]

unfoldable pub put : ℕ → Cell → Store → Store
put p c s = record s { cell = λ a. if a == p then some c else s.cell a }

-- `make_shared<ChNode>()`, at the address `next`.
unfoldable pub alloc : Cell → Store → Store
unfolding put
alloc c s = record (put s.next c s) { next = suc s.next }

abbrev pub new_cell : List ℕ → Cell
new_cell str = record {
  info = record {
    name = str;
    node_size = 0;
    messages = [];
    msg_size = 0;
    users = [];
    user_size = 0;
  };
  nodes = [];
}

-- The constructor: `initRoot` makes the root, at the address 0.
abbrev pub init : Store
init = record { next = 1; cell = λ a. if a == 0 then some (new_cell (bytes "/")) else none }

-- `find_if` by name.
unfoldable pub find_if : List ℕ → List ℕ → Store → Exec (Option ℕ)
unfolding load
find_if str [] s = ret none
find_if str (p ∷ ps) s = do
  c ← load p s
  let rest = find_if str ps s
  if bytes_eq str c.info.name then ret (some p) else rest

-- The private `findNode`, whose `node` is at `p` and `_pRoot` at `root`.
unfoldable pub find_node : List (List ℕ) → ℕ → ℕ → Store → Exec (Option ℕ)
unfolding load find_if
find_node [] root p s = ret none
find_node (str ∷ []) root p s = do
  c ← load p s
  found ← find_if str c.nodes s
  ret (elim found [ none ↦ if p == root then none else some p | some q ↦ some q ])
find_node (str ∷ next ∷ rest) root p s = do
  c ← load p s
  found ← find_if str c.nodes s
  elim found [
    | none ↦ ret (if p == root then none else some p)
    | some q ↦ find_node (next ∷ rest) root q s
  ]

unfoldable pub find_node_by_name : List ℕ → ℕ → Store → Exec (Option ℕ)
unfolding find_node
find_node_by_name channel root s =
    if is_channel channel then find_node (path_of channel) root root s else ret none

-- The loop of `findChannel`. Where no child has the name, the iterator at the end is read.
unfoldable pub find_channel_loop : List (List ℕ) → ℕ → ℕ → Store → Exec (Option ℕ)
unfolding load find_if
find_channel_loop [] root p s = ret (some p)
find_channel_loop (str ∷ rest) root p s = do
  c ← load p s
  found ← find_if str c.nodes s
  elim found [ some q ↦ ret (if p == root then none else some p) | none ↦ undef ]

unfoldable pub find_channel : List ℕ → ℕ → Store → Exec (Option ℕ)
unfolding find_channel_loop
find_channel channel root s =
    if is_channel channel then find_channel_loop (path_of channel) root root s else ret none

-- The loop of `addChannel`, with `p_node` at `p`.
unfoldable pub add_loop : List (List ℕ) → ℕ → Store → Exec Store
unfolding load find_if alloc put
add_loop [] p s = ret s
add_loop (str ∷ rest) p s = do
  c ← load p s
  found ← find_if str c.nodes s
  elim found [
    | some q ↦ add_loop rest q s
    | none ↦
        let c' = record c {
          info = record c.info { node_size = (c.info.node_size + 1) % 2 ^ 32 };
          nodes = c.nodes ++ (s.next ∷ []);
        } in
        add_loop rest s.next (put p c' (alloc (new_cell str) s))
  ]

unfoldable pub add_channel : List ℕ → ℕ → Store → Exec Store
unfolding add_loop
add_channel channel root s = if is_channel channel then add_loop (path_of channel) root s else ret s

-- The first loop of `removeChannel`: what it pushes behind `p`.
unfoldable pub collect : List (List ℕ) → ℕ → Store → Exec (List ℕ)
unfolding load find_if
collect [] p s = ret []
collect (str ∷ rest) p s = do
  c ← load p s
  found ← find_if str c.nodes s
  elim found [ none ↦ ret [] | some q ↦ (do qs ← collect rest q s; ret (q ∷ qs)) ]

-- `nodes.back()` of a list that begins with `p`.
abbrev pub back : ℕ → List ℕ → ℕ
back p [] = p
back p (q ∷ qs) = back q qs

-- `r_wrap`: a list from its end.
unfoldable pub r_wrap : {A : Type 0} → List A → List A
r_wrap [] = []
r_wrap (p ∷ ps) = r_wrap ps ++ (p ∷ [])

-- `list::remove` takes out every element that is equal.
unfoldable pub remove_all : ℕ → List ℕ → List ℕ
remove_all q [] = []
remove_all q (p ∷ ps) = let rest = remove_all q ps in if p == q then rest else p ∷ rest

unfoldable pub detach : ℕ → ℕ → Store → Exec Store
unfolding load put remove_all
detach q p s = do
  c ← load p s
  ret (
      put p
        (record c {
          info = record c.info { node_size = (c.info.node_size + 2 ^ 32 - 1) % 2 ^ 32 };
          nodes = remove_all q c.nodes;
        })
        s)

-- One round of the second loop; a null `p_child` is `none`.
unfoldable pub visit : ℕ → Option ℕ → ℕ → Store → Exec Store
unfolding load detach
visit last none p s = if p == last then ret s else undef
visit last (some q) p s =
    let below = (do
      c ← load q s
      let gone = detach q p s
      if c.info.node_size == 0 && c.info.user_size == 0 then gone else ret s) in
    let here = detach q p s in if p == last then ret s else if q == last then here else below

unfoldable pub unwind : ℕ → Option ℕ → List ℕ → Store → Exec Store
unfolding visit
unwind last child [] s = ret s
unwind last child (p ∷ ps) s = do s' ← visit last child p s; unwind last (some p) ps s'

unfoldable pub remove_channel : List ℕ → ℕ → Store → Exec Store
unfolding collect unwind r_wrap
remove_channel channel root s =
    let run = (do
      qs ← collect (path_of channel) root s
      unwind (back root qs) none (r_wrap (root ∷ qs)) s) in
    if is_channel channel then run else ret s
