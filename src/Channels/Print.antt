-- ===== src/Channels/Print.antt =====
-- The `operator<<` of `ChNode` in src/ChTree.hpp. How a stream prints a number is a parameter.
use k_mqttd.Base.{ℕ, List, [], ◌∷◌, ◌++◌, ◌≡◌, refl, ap, bytes}
use k_mqttd.Channels.{ChNode, ChNodes, Info, node, nil, cons}
use k_mqttd.Text.Pieces.{join}

-- A quotation mark.
abbrev quote : List ℕ
quote = 34 ∷ []

abbrev pub print_open : (ℕ → List ℕ) → Info → List ℕ
print_open show i =
    bytes "{"
    ++ quote
    ++ bytes "name"
    ++ quote
    ++ bytes " : "
    ++ quote
    ++ i.name
    ++ quote
    ++ bytes " , "
    ++ quote
    ++ bytes "node_size"
    ++ quote
    ++ bytes " : "
    ++ show i.node_size
    ++ bytes ", "
    ++ quote
    ++ bytes "nodes"
    ++ quote
    ++ bytes " :"

abbrev pub print_close : (ℕ → List ℕ) → Info → List ℕ
print_close show i =
    bytes ", "
    ++ quote
    ++ bytes "msg_size"
    ++ quote
    ++ bytes " : "
    ++ show i.msg_size
    ++ bytes ", "
    ++ quote
    ++ bytes "user_size"
    ++ quote
    ++ bytes " : "
    ++ show i.user_size
    ++ bytes "}"

-- The loop puts a comma behind each child but the last.
unfoldable mutual
  pub print : (ℕ → List ℕ) → ChNode → List ℕ
  print show (node i nil) = print_open show i ++ (bytes "null" ++ print_close show i)
  print show (node i (cons k ks)) =
      print_open show i
      ++ (bytes "[" ++ print_nodes show (cons k ks) ++ bytes "]" ++ print_close show i)

  pub print_nodes : (ℕ → List ℕ) → ChNodes → List ℕ
  print_nodes show nil = []
  print_nodes show (cons k nil) = print show k
  print_nodes show (cons k (cons k' ks)) =
      print show k ++ (bytes ", " ++ print_nodes show (cons k' ks))

print_each : (ℕ → List ℕ) → ChNodes → List (List ℕ)
print_each show nil = []
print_each show (cons k ks) = print show k ∷ print_each show ks

-- The children stand in order, with a comma and a space between them.
print_nodes-join :
    (show : ℕ → List ℕ) (ks : ChNodes)
    → print_nodes show ks ≡ join (bytes ", ") (print_each show ks)
unfolding print_nodes print_each
print_nodes-join show nil = refl
print_nodes-join show (cons k nil) = refl
print_nodes-join show (cons k (cons k' ks)) =
    ap (λ t. print show k ++ (bytes ", " ++ t)) (print_nodes-join show (cons k' ks))
