-- ===== src/Channels/Remove/Kept.antt =====
-- The channels that `removeChannel` of src/ChTree.hpp leaves in the tree.
use k_mqttd.Base.{
  ℕ, ◌^◌, ◌<◌, ◌≤◌, Bool, true, false, ◌≡◌, ◌≢◌, ◌==◌, refl, ap, sym, ◌∙◌, subst, some, List, [],
  ◌∷◌, bytes_eq, bytes_eq_iff, arith, Bool-cases, Option-cases, inl, inr,
}
use k_mqttd.Channels.{
  ChNode, ChNodes, node, nil, cons, Info, info, nodes, is_named, child, update_child, remove_child,
  remove_path, remove_channel,
}
use k_mqttd.Channels.Name.{is_channel}
use k_mqttd.Channels.Path.{path_of-pieces}
use k_mqttd.Channels.Lookup.{at_path, has_path, child-update_ne}
use k_mqttd.Channels.Add.{is_prefix}
use k_mqttd.Channels.Back.{goes, remove_path_elim, remove_path-name, remove_path_kept}
use k_mqttd.Channels.Shape.{count, IsCounted, child-IsCounted, remove_path-IsCounted}
use k_mqttd.Channels.Remove.{has_path_step, has_path_stop, left_child}
use k_mqttd.Text.Channel.{channel_pieces}

-- No node has so many children that its counter is 0 again.
abbrev mutual
  pub IsSmall : ChNode → Type 0
  IsSmall (node i kids) = (count kids < 2 ^ 32) × AllSmall kids

  pub AllSmall : ChNodes → Type 0
  AllSmall nil = Unit
  AllSmall (cons k ks) = IsSmall k × AllSmall ks

pub child-IsSmall :
    (str : List ℕ) (ks : ChNodes) (k : ChNode) → child str ks ≡ some k → AllSmall ks → IsSmall k
child-IsSmall str nil k e h = absurd (cc e)
child-IsSmall str (cons k' ks) k e (hk, hks) = elim (Bool-cases (is_named str k')) [
  | inl hit ↦ subst IsSmall (cc (rw hit at e)) hk
  | inr miss ↦ child-IsSmall str ks k (rw miss at e) hks
]

pub child-remove_ne :
    (q str : List ℕ) (ks : ChNodes) → q ≢ str → child q (remove_child str ks) ≡ child q ks
child-remove_ne q str nil apart = refl
child-remove_ne q str (cons k ks) apart = ground (
  arith,
  bytes_eq_iff q (info k).name,
  bytes_eq_iff str (info k).name,
  child-remove_ne q str ks apart,
)

count-remove_le : (str : List ℕ) (ks : ChNodes) → count (remove_child str ks) ≤ count ks
count-remove_le str nil = omega arith
count-remove_le str (cons k ks) = ground (arith, count-remove_le str ks)

count-update_le :
    (str : List ℕ) (f : ChNode → ChNode) (ks : ChNodes) → count (update_child str f ks) ≤ count ks
count-update_le str f nil = omega arith
count-update_le str f (cons k ks) = ground (arith, count-update_le str f ks)

remove_path-count :
    (p : List (List ℕ)) (n : ChNode) → count (nodes (remove_path p n).0) ≤ count (nodes n)
unfolding remove_path
remove_path-count [] n = omega arith
remove_path-count (str ∷ rest) (node i kids) =
    remove_path_elim (λ n. count (nodes n) ≤ count kids) str rest i kids (λ gone. omega arith)
      (λ k found gone. count-remove_le str kids)
      (λ k found stays. count-update_le str (λ n. (remove_path rest n).0) kids)

remove_path-users :
    (p : List (List ℕ)) (n : ChNode) → (info (remove_path p n).0).user_size ≡ (info n).user_size
unfolding remove_path
remove_path-users [] n = refl
remove_path-users (str ∷ rest) (node i kids) =
    remove_path_elim (λ n. (info n).user_size ≡ i.user_size) str rest i kids (λ gone. refl)
      (λ k found gone. refl) (λ k found stays. refl)

counted_child :
    (q : List ℕ) (qs : List (List ℕ)) (n : ChNode)
    → IsCounted n
    → count (nodes n) < 2 ^ 32
    → has_path (q ∷ qs) n ≡ true
    → ((info n).node_size == 0) ≡ false
counted_child q qs (node i nil) counted small there = absurd (cc there)
counted_child q qs (node i (cons k ks)) counted small there = ground arith

not_deepest :
    (str : List ℕ) (rest : List (List ℕ)) (n : ChNode)
    → has_path (str ∷ rest) n ≡ true
    → (remove_path (str ∷ rest) n).1 ≡ false
unfolding remove_path
not_deepest str rest (node i kids) there = elim (Option-cases (child str kids)) [
  | inl gone ↦ absurd (cc (there, has_path_stop str rest (node i kids) gone))
  | inr (k, found) ↦ rw (found, remove_path) refl
]

small_root : (n : ChNode) → IsSmall n → count (nodes n) < 2 ^ 32
small_root (node i kids) h = h.0

-- A child on the way to a node with users is not taken out.
stays :
    (p q : List (List ℕ)) (n k : ChNode)
    → IsCounted n
    → IsSmall n
    → has_path p n ≡ true
    → at_path q n ≡ some k
    → 0 < (info k).user_size
    → is_prefix p q ≡ false
    → has_path q (remove_path p n).0 ≡ true
    → goes (remove_path p n) ≡ false
stays [] q n k counted small there at_end used other below = absurd (cc other)
stays (s ∷ p) [] n k counted small there at_end used other below =
    let same : n ≡ k = cc at_end in
    let users = remove_path-users (s ∷ p) n in
    let busy : ((info (remove_path (s ∷ p) n).0).user_size == 0) ≡ false =
      rw (users, same) (ground arith) in
    rw (not_deepest s p n there, busy) (ground arith)
stays (s ∷ p) (t ∷ q) n k counted small there at_end used other below =
    let few = remove_path-count (s ∷ p) n in
    let kids =
      counted_child t q (remove_path (s ∷ p) n).0 (remove_path-IsCounted (s ∷ p) n counted)
        (omega (arith, small_root n small)) below in
    rw (not_deepest s p n there, kids) refl

has_path_of : (q : List (List ℕ)) (n k : ChNode) → at_path q n ≡ some k → has_path q n ≡ true
has_path_of q n k e = rw (has_path, e) refl

-- A child of another name.
other_child :
    (s : List ℕ) (p : List (List ℕ)) (t : List ℕ) (q : List (List ℕ)) (i : Info) (kids : ChNodes)
    → bytes_eq s t ≡ false
    → has_path (t ∷ q) (node i kids) ≡ true
    → has_path (t ∷ q) (remove_path (s ∷ p) (node i kids)).0 ≡ true
other_child s p t q i kids apart there =
    let ne : t ≢ s = λ e. cc (apart, (bytes_eq_iff s t).1 (sym e)) in
    remove_path_elim (λ n. has_path (t ∷ q) n ≡ true) s p i kids (λ gone. there)
      (λ k found gone. rw (has_path, at_path, child-remove_ne t s kids ne) there)
      (λ k found left.
        rw
          (
            has_path,
            at_path,
            child-update_ne t s (λ n. (remove_path p n).0) kids (remove_path-name p) ne,
          )
          there)

path_kept :
    (p q : List (List ℕ)) (n k : ChNode)
    → IsCounted n
    → IsSmall n
    → has_path p n ≡ true
    → at_path q n ≡ some k
    → 0 < (info k).user_size
    → is_prefix p q ≡ false
    → has_path q (remove_path p n).0 ≡ true
path_kept [] q n k counted small there at_end used other = absurd (cc other)
path_kept (s ∷ p) [] n k counted small there at_end used other = refl
path_kept (s ∷ p) (t ∷ q) (node i kids) k counted small there at_end used other =
    elim (Bool-cases (bytes_eq s t)) [
      | inr apart ↦ other_child s p t q i kids apart (has_path_of (t ∷ q) (node i kids) k at_end)
      | inl same ↦ elim (Option-cases (child s kids)) [
        | inl gone ↦ absurd (cc (there, has_path_stop s p (node i kids) gone))
        | inr (c, found) ↦
            let e : s ≡ t = (bytes_eq_iff s t).0 same in
            let found_t : child t kids ≡ some c = rw (sym e) found in
            let counted_c = child-IsCounted s kids c found counted.1 in
            let small_c = child-IsSmall s kids c found small.1 in
            let there_c = sym (has_path_step s p (node i kids) c found) ∙ there in
            let at_c = rw (found_t, at_path) at at_end in
            let other_c = rw same at other in
            let below = path_kept p q c k counted_c small_c there_c at_c used other_c in
            let left = stays p q c k counted_c small_c there_c at_c used other_c below in
            let kids' = update_child s (λ n. (remove_path p n).0) kids in
            let here = ap (λ x. child x kids') (sym e) ∙ left_child s p kids c found in
            ap (λ (r : ChNode × Bool). has_path (t ∷ q) r.0)
              (remove_path_kept s p i kids c found left)
            ∙ (has_path_step t q (node i kids') (remove_path p c).0 here ∙ below)
      ]
    ]

-- For a valid channel whose path is in the tree, where the counters are right and no node has 2 ^ 32
-- children or more: after `removeChannel` every path is still there that ends at a node with users and
-- does not go through the end of the channel's path.
remove_channel_keeps :
    (channel : List ℕ) (root : ChNode) (q : List (List ℕ)) (k : ChNode)
    → is_channel channel ≡ true
    → IsCounted root
    → IsSmall root
    → has_path (channel_pieces channel) root ≡ true
    → at_path q root ≡ some k
    → 0 < (info k).user_size
    → is_prefix (channel_pieces channel) q ≡ false
    → has_path q (remove_channel channel root) ≡ true
unfolding remove_channel
remove_channel_keeps channel root q k fits counted small there at_end used other =
    rw (fits, path_of-pieces channel fits)
      (path_kept (channel_pieces channel) q root k counted small there at_end used other)
