-- ===== src/Channels.antt =====
-- `ChNode` and `ChTree` of src/ChTree.hpp: the tree of channels. A list of children holds no null
-- pointer, since `addChannel` is the only function that adds to one. Messages and users are held
-- by pointer; here a pointer is a number.
pub mod Name
pub mod Lookup
pub mod Shape
pub mod Path
pub mod Add
pub mod Find
pub mod Print
pub mod Store
pub mod Back
pub mod Undo
pub mod Distinct
pub mod Reach
pub mod Remove
use k_mqttd.Base.{
  ℕ, ◌+◌, ◌-◌, ◌%◌, ◌^◌, Bool, true, false, ◌&&◌, ◌||◌, Option, none, some, List, [], ◌∷◌, ◌==◌,
  if◌then◌else◌, bytes, bytes_eq, Exec, ret, undef,
}
use k_mqttd.Text.{split_channel}
use Name.{is_channel}

pub record Info : Type 0 where
  pub name : List ℕ
  pub node_size : ℕ
  pub messages : List ℕ
  pub msg_size : ℕ
  pub users : List ℕ
  pub user_size : ℕ

mutual
  pub data ChNode : Type 0 where
    node : Info → ChNodes → ChNode

  pub data ChNodes : Type 0 where
    nil : ChNodes
    cons : ChNode → ChNodes → ChNodes

abbrev pub info : ChNode → Info
info (node i kids) = i

abbrev pub nodes : ChNode → ChNodes
nodes (node i kids) = kids

-- A node as `addChannel` makes it.
abbrev pub new_node : List ℕ → ChNode
new_node str =
    node
      (record { name = str; node_size = 0; messages = []; msg_size = 0; users = []; user_size = 0 })
      nil

-- `initRoot`.
abbrev pub init_root : ChNode
init_root = new_node (bytes "/")

abbrev pub is_named : List ℕ → ChNode → Bool
is_named str k = bytes_eq str (info k).name

-- `find_if` by name: the first child of that name.
abbrev pub child : List ℕ → ChNodes → Option ChNode
child str nil = none
child str (cons k ks) = if is_named str k then some k else child str ks

-- The same child changed in place, and taken out.
abbrev pub update_child : List ℕ → (ChNode → ChNode) → ChNodes → ChNodes
update_child str f nil = nil
update_child str f (cons k ks) =
    if is_named str k then cons (f k) ks else cons k (update_child str f ks)

abbrev pub remove_child : List ℕ → ChNodes → ChNodes
remove_child str nil = nil
remove_child str (cons k ks) = if is_named str k then ks else cons k (remove_child str ks)

abbrev pub push_back : ChNodes → ChNode → ChNodes
push_back nil n = cons n nil
push_back (cons k ks) n = cons k (push_back ks n)

-- The path of a channel; `split_channel` never runs out of rounds.
unfoldable pub path_of : List ℕ → List (List ℕ)
path_of channel = elim (split_channel channel) [ none ↦ [] | some ps ↦ ps ]

-- The private `findNode`, from a node that is the root or is not, along what is left of the path.
unfoldable pub find_node : Bool → List (List ℕ) → ChNode → Option ChNode
find_node at_root [] n = none
find_node at_root (str ∷ []) n = elim (child str (nodes n)) [
  | none ↦ if at_root then none else some n
  | some k ↦ some k
]
find_node at_root (str ∷ next ∷ rest) n = elim (child str (nodes n)) [
  | none ↦ if at_root then none else some n
  | some k ↦ find_node false (next ∷ rest) k
]

unfoldable pub find_node_by_name : List ℕ → ChNode → Option ChNode
unfolding find_node path_of
find_node_by_name channel root =
    if is_channel channel then find_node true (path_of channel) root else none

-- The loop of `findChannel`. Where no child has the name, the iterator at the end is read.
unfoldable pub find_channel_loop : Bool → List (List ℕ) → ChNode → Exec (Option ChNode)
find_channel_loop at_root [] n = ret (some n)
find_channel_loop at_root (str ∷ rest) n = elim (child str (nodes n)) [
  | some k ↦ ret (if at_root then none else some n)
  | none ↦ undef
]

unfoldable pub find_channel : List ℕ → ChNode → Exec (Option ChNode)
unfolding find_channel_loop path_of
find_channel channel root =
    if is_channel channel then find_channel_loop true (path_of channel) root else ret none

-- The loop of `addChannel`: each step goes to the child of that name, made if there is none.
unfoldable pub add_path : List (List ℕ) → ChNode → ChNode
add_path [] n = n
add_path (str ∷ rest) (node i kids) = elim (child str kids) [
  | some k ↦ node i (update_child str (add_path rest) kids)
  | none ↦
      node (record i { node_size = (i.node_size + 1) % 2 ^ 32 })
        (push_back kids (add_path rest (new_node str)))
]

unfoldable pub add_channel : List ℕ → ChNode → ChNode
unfolding add_path path_of
add_channel channel root = if is_channel channel then add_path (path_of channel) root else root

-- `removeChannel` goes down the path as far as there are children, and back: the deepest node is
-- taken out, and above it each node without children and users. The second part of the result
-- tells whether the node is the deepest.
unfoldable pub remove_path : List (List ℕ) → ChNode → ChNode × Bool
remove_path [] n = (n, true)
remove_path (str ∷ rest) (node i kids) = elim (child str kids) [
  | none ↦ (node i kids, true)
  | some k ↦
      let (k', deepest) = remove_path rest k in
      (
        if deepest || ((info k').node_size == 0 && (info k').user_size == 0)
            then node (record i { node_size = (i.node_size + 2 ^ 32 - 1) % 2 ^ 32 })
                (remove_child str kids)
            else node i (update_child str (λ _. k') kids),
        false,
      )
]

unfoldable pub remove_channel : List ℕ → ChNode → ChNode
unfolding remove_path path_of
remove_channel channel root =
    if is_channel channel then (remove_path (path_of channel) root).0 else root
