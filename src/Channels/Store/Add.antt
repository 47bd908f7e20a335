-- ===== src/Channels/Store/Add.antt =====
-- `addChannel` of src/ChTree.hpp in memory.
use k_mqttd.Base.{
  ℕ, true, ◌≡◌, refl, ap, sym, ◌∙◌, subst, none, some, List, [], ◌∷◌, arith, Option-cases,
  bytes_eq_iff, inl, inr,
}
use k_mqttd.Channels.{
  ChNode, ChNodes, node, Info, child, update_child, push_back, add_path, new_node,
}
use k_mqttd.Channels.Store.{Store, add_loop}
use k_mqttd.Channels.Store.Address.{
  Tree, tree, address, plain, plain_all, named, kid, replace, at_end, load_held, find_if_held,
  child_found, child_missing,
}
use k_mqttd.Channels.Store.Grown.{Done, Grown, Lives, Grown-refl, Grown-trans, Grown-Lives}
use k_mqttd.Channels.Back.{update_found}
use k_mqttd.Channels.Store.Replace.{kid-Lives, plain-replace, Grown-replace}
use k_mqttd.Channels.Store.Fresh.{
  counted, fresh_tree, with_new, Grown-with_new, kid-at_end, replace-at_end, plain-at_end,
}

add_path_missing :
    (str : List ℕ) (rest : List (List ℕ)) (i : Info) (kids : ChNodes)
    → child str kids ≡ none
    → add_path (str ∷ rest) (node i kids)
      ≡ node (counted i) (push_back kids (add_path rest (new_node str)))
unfolding add_path
add_path_missing str rest i kids missing = rw (missing, add_path) refl

add_path_found :
    (str : List ℕ) (rest : List (List ℕ)) (i : Info) (kids : ChNodes) (k : ChNode)
    → child str kids ≡ some k
    → add_path (str ∷ rest) (node i kids) ≡ node i (update_child str (λ _. add_path rest k) kids)
unfolding add_path
add_path_found str rest i kids k found =
    rw (found, add_path) (ap (node i) (sym (update_found str (add_path rest) kids k found)))

pub add_loop-Grown :
    (path : List (List ℕ)) (t : Tree) (s : Store)
    → Lives s t
    → Done (add_loop path (address t) s) s t (add_path path (plain t))
unfolding add_loop add_path
add_loop-Grown [] t s l = record {
  store = s;
  shape = t;
  runs = refl;
  grown = Grown-refl s t l;
  result = refl;
}
add_loop-Grown (str ∷ rest) (tree p i ts) s l = elim (Option-cases (kid str ts)) [
  | inl missing ↦
      let k = fresh_tree str s.next in
      let s1 = with_new str p i ts s in
      let t1 = tree p (counted i) (at_end ts k) in
      let g = Grown-with_new str p i ts s l in
      let l1 = Grown-Lives s s1 (tree p i ts) t1 g in
      let hit : named str k ≡ true = (bytes_eq_iff str str).1 refl in
      let found = kid-at_end str ts k missing hit in
      let below = add_loop-Grown rest k s1 (
        kid-Lives s1 str (at_end ts k) k found l1.holds.1 l1.separate.1
          λ a inside. l1.below a (ground arith)) in
      let k' = below.shape in
      record {
        store = below.store;
        shape = tree p (counted i) (at_end ts k');
        runs = rw (load_held s p i ts l.holds, find_if_held str ts s l.holds.1, missing) below.runs;
        grown =
            Grown-trans s s1 below.store (tree p i ts) t1 (tree p (counted i) (at_end ts k')) g (
              subst (λ x. Grown s1 below.store t1 (tree p (counted i) x))
                (replace-at_end str ts k k' missing hit)
                (Grown-replace s1 below.store p (counted i) str (at_end ts k) k k' l1 found
                  below.grown));
        result =
            ap (node (counted i)) (plain-at_end ts k' ∙ ap (push_back (plain_all ts)) below.result)
            ∙ sym (add_path_missing str rest i (plain_all ts) (child_missing str ts missing));
      }
  | inr (k, found) ↦
      let below =
        add_loop-Grown rest k s (
          kid-Lives s str ts k found l.holds.1 l.separate.1 λ a inside. l.below a (ground arith)) in
      let k' = below.shape in
      record {
        store = below.store;
        shape = tree p i (replace str k' ts);
        runs = rw (load_held s p i ts l.holds, find_if_held str ts s l.holds.1, found) below.runs;
        grown = Grown-replace s below.store p i str ts k k' l found below.grown;
        result =
            ap (node i) (
              plain-replace str ts k'
              ∙ ap (λ n. update_child str (λ _. n) (plain_all ts)) below.result)
            ∙ sym (add_path_found str rest i (plain_all ts) (plain k) (child_found str ts k found));
      }
]
