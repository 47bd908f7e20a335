-- ===== src/Channels/Store/Look.antt =====
-- `findNode` and `findChannel` of src/ChTree.hpp in memory. They tell the root by its address.
use mathlib.Core.Option
use k_mqttd.Base.{
  false_if, ℕ, Bool, true, false, ◌≡◌, ◌==◌, refl, subst, Option, none, some, List, [], ◌∷◌,
  Bool-cases, Option-cases, inl, inr, arith, Exec, ret, undef, ◌>>=◌, if◌then◌else◌,
}
use k_mqttd.Channels
use k_mqttd.Channels.{ChNode, node, path_of, child}
use k_mqttd.Channels.Name.{is_channel}
use k_mqttd.Channels.Store
use k_mqttd.Channels.Store.{Store}
use k_mqttd.Channels.Store.Address.{
  Tree, Trees, tree, address, has, has_any, plain, kid, load_held, find_if_held, child_found,
  child_missing,
}
use k_mqttd.Channels.Store.Grown.{Lives}
use k_mqttd.Channels.Store.Replace.{kid-has, kid-Lives}
use k_mqttd.Channels.Store.Run.{Stands}

-- A search in memory and the search in the tree find the same node, or none, or are both undefined.
pub record Agrees (s : Store) (there : Exec (Option ℕ)) (here : Exec (Option ChNode)) : Type 0 where
  pub found : Exec (Option Tree)
  pub lives : (k : Tree) → found ≡ ret (some k) → Lives s k
  pub in_memory : there ≡ (found >>= λ r. ret (Option.map address r))
  pub in_tree : here ≡ (found >>= λ r. ret (Option.map plain r))

Agrees-none : (s : Store) → Agrees s (ret none) (ret none)
Agrees-none s = record {
  found = ret none;
  lives = λ k e. ground arith;
  in_memory = refl;
  in_tree = refl;
}

Agrees-some :
    (s : Store) (t : Tree) → Lives s t → Agrees s (ret (some (address t))) (ret (some (plain t)))
Agrees-some s t l = record {
  found = ret (some t);
  lives = λ k e. (let same : t ≡ k = cc e in subst (Lives s) same l);
  in_memory = refl;
  in_tree = refl;
}

-- Where the search stops: the root is told by its address.
Agrees-stop :
    (s : Store) (t : Tree) (root : ℕ) (at_root : Bool)
    → Lives s t
    → (address t == root) ≡ at_root
    → Agrees s
        (ret (if address t == root then none else some (address t)))
        (ret (if at_root then none else some (plain t)))
Agrees-stop s t root true l e = rw e (Agrees-none s)
Agrees-stop s t root false l e = rw e (Agrees-some s t l)

child-Lives :
    (s : Store) (str : List ℕ) (p : ℕ) (i : Channels.Info) (ts : Trees) (k : Tree)
    → Lives s (tree p i ts)
    → kid str ts ≡ some k
    → Lives s k
child-Lives s str p i ts k l found =
    kid-Lives s str ts k found l.holds.1 l.separate.1 λ a inside. l.below a (ground arith)

abbrev below : Tree → Trees
below (tree p i ts) = ts

-- A child of a node above which, or at which, the root stands.
kid_off :
    (root : ℕ) (str : List ℕ) (ts : Trees) (k : Tree)
    → kid str ts ≡ some k
    → has_any root ts ≡ false
    → (address k == root ≡ false) × (has_any root (below k) ≡ false)
kid_off root str ts (tree q j us) found away =
    let off : has root (tree q j us) ≡ false =
      (false_if (has root (tree q j us))
        λ clash. let there = kid-has str ts (tree q j us) root found clash in ground arith) in
    (ground arith, ground arith)

find_node-Agrees :
    (path : List (List ℕ)) (at_root : Bool) (root : ℕ) (t : Tree) (s : Store)
    → Lives s t
    → (address t == root) ≡ at_root
    → has_any root (below t) ≡ false
    → Agrees s
        (Store.find_node path root (address t) s)
        (ret (Channels.find_node at_root path (plain t)))
unfolding Store.find_node Channels.find_node
find_node-Agrees [] at_root root t s l e away = Agrees-none s
find_node-Agrees (str ∷ []) at_root root (tree p i ts) s l e away =
    elim (Option-cases (kid str ts)) [
      | inl missing ↦
          rw
            (
              load_held s p i ts l.holds,
              find_if_held str ts s l.holds.1,
              missing,
              child_missing str ts missing,
            )
            (Agrees-stop s (tree p i ts) root at_root l e)
      | inr (k, found) ↦
          rw
            (
              load_held s p i ts l.holds,
              find_if_held str ts s l.holds.1,
              found,
              child_found str ts k found,
            )
            (Agrees-some s k (child-Lives s str p i ts k l found))
    ]
find_node-Agrees (str ∷ next ∷ rest) at_root root (tree p i ts) s l e away =
    elim (Option-cases (kid str ts)) [
      | inl missing ↦
          rw
            (
              load_held s p i ts l.holds,
              find_if_held str ts s l.holds.1,
              missing,
              child_missing str ts missing,
            )
            (Agrees-stop s (tree p i ts) root at_root l e)
      | inr (k, found) ↦
          let (off, away') = kid_off root str ts k found away in
          rw
            (
              load_held s p i ts l.holds,
              find_if_held str ts s l.holds.1,
              found,
              child_found str ts k found,
            )
            (find_node-Agrees (next ∷ rest) false root k s (child-Lives s str p i ts k l found) off
              away')
    ]

find_channel_loop-Agrees :
    (path : List (List ℕ)) (t : Tree) (s : Store)
    → Lives s t
    → Agrees s
        (Store.find_channel_loop path (address t) (address t) s)
        (Channels.find_channel_loop true path (plain t))
unfolding Store.find_channel_loop Channels.find_channel_loop
find_channel_loop-Agrees [] t s l = Agrees-some s t l
find_channel_loop-Agrees (str ∷ rest) (tree p i ts) s l =
    let at : p == p ≡ true = ground arith in
    elim (Option-cases (kid str ts)) [
      | inl missing ↦
          rw
            (
              load_held s p i ts l.holds,
              find_if_held str ts s l.holds.1,
              missing,
              child_missing str ts missing,
            )
            (record {
              found = undef;
              lives = λ k e. ground arith;
              in_memory = refl;
              in_tree = refl;
            })
      | inr (k, found) ↦
          rw
            (
              load_held s p i ts l.holds,
              find_if_held str ts s l.holds.1,
              found,
              child_found str ts k found,
              at,
            )
            (Agrees-none s)
    ]

root_alone : (s : Store) (t : Tree) → Lives s t → has_any (address t) (below t) ≡ false
root_alone s (tree p i ts) l = l.separate.0

-- Where a tree stands in memory, both ways to look for a channel find there what they find in the tree:
-- the same node, or none, or both run out of the list of children.
pub looks_agree :
    (channel : List ℕ) (s : Store) (root : ℕ) (n : ChNode)
    → Stands s root n
    → Agrees s (Store.find_node_by_name channel root s) (ret (Channels.find_node_by_name channel n))
      × Agrees s (Store.find_channel channel root s) (Channels.find_channel channel n)
unfolding Store.find_node_by_name Channels.find_node_by_name Store.find_channel
    Channels.find_channel
looks_agree channel s root n stands =
    let t = stands.shape in
    subst
      (λ a.
        Agrees s (Store.find_node_by_name channel a s) (ret (Channels.find_node_by_name channel n))
        × Agrees s (Store.find_channel channel a s) (Channels.find_channel channel n))
      stands.at_root
      (subst
        (λ m.
          Agrees s (Store.find_node_by_name channel (address t) s)
            (ret (Channels.find_node_by_name channel m))
          × Agrees s (Store.find_channel channel (address t) s) (Channels.find_channel channel m))
        stands.is
        (elim (Bool-cases (is_channel channel)) [
          | inl good ↦ rw good (
            find_node-Agrees (path_of channel) true (address t) t s stands.lives (ground arith)
                (root_alone s t stands.lives),
            find_channel_loop-Agrees (path_of channel) t s stands.lives,
          )
          | inr bad ↦ rw bad (Agrees-none s, Agrees-none s)
        ]))
