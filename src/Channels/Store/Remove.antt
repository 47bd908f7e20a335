-- ===== src/Channels/Store/Remove.antt =====
-- `removeChannel` of src/ChTree.hpp in memory.
use k_mqttd.Base.{
  ==_swap, ℕ, true, false, ◌==◌, ◌≡◌, refl, ap, sym, ◌∙◌, none, some, List, [], ◌∷◌, arith,
  Bool-cases, Option-cases, inl, inr, ret,
}
use k_mqttd.Channels.{ChNode, ChNodes, node, Info, child, update_child, remove_path}
use k_mqttd.Channels.Store.{Store, collect, back, r_wrap, visit, unwind}
use k_mqttd.Channels.Store.Address.{
  differ, Tree, Trees, tree, address, plain, plain_all, has, has_any, kid, replace, load_held,
  find_if_held, child_found, child_missing, has_address, without,
}
use k_mqttd.Channels.Store.Grown.{Done, Grown, Lives, Grown-refl, Grown-trans, Grown-Lives}
use k_mqttd.Channels.Back.{goes, update_found, remove_path_known, remove_path_kept, remove_path-end}
use k_mqttd.Channels.Store.Replace.{kid-has, kid-Lives, plain-replace, Grown-replace}
use k_mqttd.Channels.Store.Detach.{
  plain-without, kid-replace, uncounted, without_kid, detach-kid, Grown-without_kid,
}
use k_mqttd.Channels.Store.Visit.{unwind-last, visit-goes}

pub record Removed (path : List (List ℕ)) (t : Tree) (s : Store) : Type 0 where
  pub trail : List ℕ
  pub collects : collect path (address t) s ≡ ret trail
  pub inside : has (back (address t) trail) t ≡ true
  pub done :
      Done
        (unwind (back (address t) trail) none (r_wrap (address t ∷ trail)) s)
        s
        t
        (remove_path path (plain t)).0
  pub ends : (remove_path path (plain t)).1 ≡ (address t == back (address t) trail)

-- A node of which one child is done, on the way back.
remove_up :
    (str : List ℕ) (rest : List (List ℕ)) (p last : ℕ) (i : Info) (ts : Trees) (k k' : Tree)
    (s s' : Store)
    → Lives s (tree p i ts)
    → kid str ts ≡ some k
    → p == last ≡ false
    → Grown s s' k k'
    → plain k' ≡ (remove_path rest (plain k)).0
    → (remove_path rest (plain k)).1 ≡ (address k == last)
    → Done
        (visit last (some (address k)) p s')
        s
        (tree p i ts)
        (remove_path (str ∷ rest) (node i (plain_all ts))).0
remove_up str rest p last i ts k k' s s' l found off g same ends =
    let t = tree p i ts in
    let t1 = tree p i (replace str k' ts) in
    let found' : child str (plain_all ts) ≡ some (plain k) = child_found str ts k found in
    let g1 = Grown-replace s s' p i str ts k k' l found g in
    let l1 = Grown-Lives s s' t t1 g1 in
    let ends' = ends ∙ ap (λ a. a == last) (sym g.same_address) in
    let at_p =
      ap (λ a. visit last (some a) p s') (sym g.same_address)
      ∙ visit-goes last p s' k' (remove_path rest (plain k)) off g.holds same ends' in
    elim (Bool-cases (goes (remove_path rest (plain k)))) [
      | inl gone ↦
          let (kid', without') = kid-replace str ts k k' found g.same_name in
          let shape' = tree p (uncounted i) (without str (replace str k' ts)) in
          record {
            store = without_kid str p i (replace str k' ts) s';
            shape = shape';
            runs = at_p ∙ rw gone (detach-kid str p i (replace str k' ts) k' s' l1 kid');
            grown =
                Grown-trans s s' (without_kid str p i (replace str k' ts) s') t t1 shape' g1
                  (Grown-without_kid str p i (replace str k' ts) s' l1);
            result =
                ap (λ us. node (uncounted i) (plain_all us)) without'
                ∙ ap (node (uncounted i)) (plain-without str ts)
                ∙ sym (
                    ap (λ r. r.0)
                      (remove_path_known str rest i (plain_all ts) (plain k) found' gone));
          }
      | inr stays ↦ record {
        store = s';
        shape = t1;
        runs = at_p ∙ rw stays refl;
        grown = g1;
        result =
            ap (node i) (
              plain-replace str ts k'
              ∙ ap (λ n. update_child str (λ _. n) (plain_all ts)) same
              ∙ update_found str (λ n. (remove_path rest n).0) (plain_all ts) (plain k) found')
            ∙ sym
                (ap (λ r. r.0) (remove_path_kept str rest i (plain_all ts) (plain k) found' stays));
      }
    ]

remove_path-not_end :
    (str : List ℕ) (rest : List (List ℕ)) (i : Info) (ks : ChNodes) (k : ChNode)
    → child str ks ≡ some k
    → (remove_path (str ∷ rest) (node i ks)).1 ≡ false
unfolding remove_path
remove_path-not_end str rest i ks k found = rw (found, remove_path) refl

-- A run that stops at the node itself.
alone-Removed :
    (path : List (List ℕ)) (t : Tree) (s : Store)
    → Lives s t
    → collect path (address t) s ≡ ret []
    → remove_path path (plain t) ≡ (plain t, true)
    → Removed path t s
unfolding unwind r_wrap visit
alone-Removed path t s l stops same =
    let at : address t == address t ≡ true = ground arith in
    record {
      trail = [];
      collects = stops;
      inside = has_address t;
      done = record {
        store = s;
        shape = t;
        runs = rw at refl;
        grown = Grown-refl s t l;
        result = sym (ap (λ r. r.0) same);
      };
      ends = ap (λ r. r.1) same ∙ sym at;
    }

pub remove-Removed : (path : List (List ℕ)) (t : Tree) (s : Store) → Lives s t → Removed path t s
unfolding collect remove_path r_wrap
remove-Removed [] t s l = alone-Removed [] t s l refl refl
remove-Removed (str ∷ rest) (tree p i ts) s l = elim (Option-cases (kid str ts)) [
  | inl missing ↦
      alone-Removed (str ∷ rest) (tree p i ts) s l
        (rw (load_held s p i ts l.holds, find_if_held str ts s l.holds.1, missing) refl)
        (remove_path-end str rest i (plain_all ts) (child_missing str ts missing))
  | inr (k, found) ↦
      let below =
        remove-Removed rest k s (
          kid-Lives s str ts k found l.holds.1 l.separate.1 λ a inside. l.below a (ground arith)) in
      let last = back (address k) below.trail in
      let there = kid-has str ts k last found below.inside in
      let alone = l.separate.0 in
      let off : p == last ≡ false =
        ==_swap last p (differ (λ x. has_any x ts) last p there alone) in
      let up =
        remove_up str rest p last i ts k below.done.shape s below.done.store l found off
          below.done.grown below.done.result below.ends in
      record {
        trail = address k ∷ below.trail;
        collects =
            rw (load_held s p i ts l.holds, find_if_held str ts s l.holds.1, found, below.collects)
              refl;
        inside = rw there (ground arith);
        done = record {
          store = up.store;
          shape = up.shape;
          runs =
              unwind-last last none (r_wrap below.trail) (address k) p s below.done.store
                below.done.runs
              ∙ up.runs;
          grown = up.grown;
          result = up.result;
        };
        ends =
            remove_path-not_end str rest i (plain_all ts) (plain k) (child_found str ts k found)
            ∙ sym off;
      }
]
