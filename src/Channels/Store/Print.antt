-- ===== src/Channels/Store/Print.antt =====
-- The `operator<<` of `ChNode` in src/ChTree.hpp on nodes in memory: it puts a comma behind each child
-- whose pointer is not that of the last.
use k_mqttd.Base.{
  ==_swap, ℕ, zero, suc, ◌+◌, ◌≤◌, true, false, ◌==◌, ◌≡◌, refl, ap, List, [], ◌∷◌, ◌++◌,
  append-nil, bytes, if◌then◌else◌, arith, Exec, ret, undef, ◌>>=◌,
}
use k_mqttd.Channels.Print.{print_open, print_close, print, print_nodes}
use k_mqttd.Channels.Store.{Store, load, back}
use k_mqttd.Channels.Store.Address.{
  differ, Tree, Trees, tree, none_left, more, address, addresses, plain, plain_all, has_any, Holds,
  HoldsAll, IsSeparate, AllSeparate, has_address, load_held,
}
use k_mqttd.Channels.Store.Grown.{Lives}

-- The loop over the children, by the function that prints one.
unfoldable pub print_list : (ℕ → Exec (List ℕ)) → ℕ → List ℕ → Exec (List ℕ)
print_list print_at last [] = ret []
print_list print_at last (p ∷ ps) = do
  text ← print_at p
  rest ← print_list print_at last ps
  ret (text ++ ((if p == last then [] else bytes ", ") ++ rest))

-- `operator<<`, with `n` nested calls left.
unfoldable pub print_node : ℕ → (ℕ → List ℕ) → ℕ → Store → Exec (List ℕ)
unfolding load print_list
print_node zero show p s = undef
print_node (suc n) show p s = do
  c ← load p s
  elim c.nodes [
    | [] ↦ ret (print_open show c.info ++ (bytes "null" ++ print_close show c.info))
    | q ∷ qs ↦ do
      list ← print_list (λ r. print_node n show r s) (back q qs) (q ∷ qs)
      ret (print_open show c.info ++ (bytes "[" ++ list ++ bytes "]" ++ print_close show c.info))
  ]

-- The number of nodes.
abbrev mutual
  pub nodes_of : Tree → ℕ
  nodes_of (tree p i ts) = suc (nodes_all ts)

  pub nodes_all : Trees → ℕ
  nodes_all none_left = 0
  nodes_all (more t ts) = nodes_of t + nodes_all ts

back-has_any :
    (t : Tree) (ts : Trees) → has_any (back (address t) (addresses ts)) (more t ts) ≡ true
back-has_any t none_left = let self = has_address t in ground arith
back-has_any t (more t' ts) = let below = back-has_any t' ts in ground arith

last_differs :
    (t t' : Tree) (ts : Trees)
    → AllSeparate (more t (more t' ts))
    → address t == back (address t') (addresses ts) ≡ false
last_differs t t' ts (d, apart, ds) =
    let last = back (address t') (addresses ts) in
    let inside = back-has_any t' ts in
    let away = apart (address t) (has_address t) in
    ==_swap last (address t) (differ (λ a. has_any a (more t' ts)) last (address t) inside away)

module _ (show : ℕ → List ℕ) (s : Store) where
  -- What is asked of the printing of a tree with `n` nested calls.
  abbrev Prints : ℕ → Tree → Type 0
  Prints n t = print_node n show (address t) s ≡ ret (print show (plain t))

  print_list-print :
      (n : ℕ) (t : Tree) (ts : Trees)
      → ((k : Tree) → Holds s k → IsSeparate k → nodes_of k ≤ n → Prints n k)
      → HoldsAll s (more t ts)
      → AllSeparate (more t ts)
      → nodes_all (more t ts) ≤ n
      → print_list
          (λ r. print_node n show r s)
          (back (address t) (addresses ts))
          (addresses (more t ts))
        ≡ ret (print_nodes show (plain_all (more t ts)))
  unfolding print_list print_nodes
  print_list-print n t none_left each (h, hs) (d, apart, ds) few =
      let at : address t == address t ≡ true = ground arith in
      rw (each t h d (omega arith), at) (ap ret (append-nil (print show (plain t))))
  print_list-print n t (more t' ts) each (h, hs) sep few =
      let (d, apart, ds) = sep in
      rw
        (
          each t h d (omega arith),
          print_list-print n t' ts each hs ds (omega arith),
          last_differs t t' ts sep,
        )
        refl

  print_node-print : (n : ℕ) (t : Tree) → Holds s t → IsSeparate t → nodes_of t ≤ n → Prints n t
  unfolding print_node print
  print_node-print zero (tree p i ts) h d few = absurd (omega arith)
  print_node-print (suc n) (tree p i none_left) h d few = rw (load_held s p i none_left h) refl
  print_node-print (suc n) (tree p i (more t ts)) h d few =
      rw
        (
          load_held s p i (more t ts) h,
          print_list-print n t ts (print_node-print n) h.1 d.1 (omega arith),
        )
        refl

  -- Where a tree stands in memory, `operator<<` of a node prints what the tree prints, and as many nested
  -- calls as the tree has nodes are enough.
  print_node_lem :
      (n : ℕ) (t : Tree)
      → Lives s t
      → nodes_of t ≤ n
      → print_node n show (address t) s ≡ ret (print show (plain t))
  print_node_lem n t l few = print_node-print n t l.holds l.separate few
