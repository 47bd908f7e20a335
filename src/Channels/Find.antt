-- ===== src/Channels/Find.antt =====
-- `findNode` and `findChannel` of src/ChTree.hpp after `addChannel`.
use k_mqttd.Base.{
  ℕ, true, ◌≡◌, ◌⊎◌, refl, ap, sym, ◌∙◌, none, some, List, [], ◌∷◌, bytes_eq_iff, ret, undef,
  Bool-cases, Option-cases, inl, inr,
}
use k_mqttd.Channels.{
  ChNode, ChNodes, nil, cons, info, nodes, is_named, child, find_node_by_name, find_channel_loop,
  find_channel, add_channel,
}
use k_mqttd.Channels.Name.{is_channel}
use k_mqttd.Channels.Lookup.{at_path, find_node-at_path}
use k_mqttd.Channels.Path.{path_of-pieces, channel_pieces_cons}
use k_mqttd.Channels.Add.{add_channel_there}
use k_mqttd.Text.Channel.{channel_pieces}

abbrev pub last_step : List (List ℕ) → List ℕ
last_step [] = []
last_step (p ∷ []) = p
last_step (p ∷ q ∷ ps) = last_step (q ∷ ps)

child-name :
    (str : List ℕ) (ks : ChNodes) (k : ChNode) → child str ks ≡ some k → (info k).name ≡ str
child-name str nil k e = absurd (cc e)
child-name str (cons k' ks) k e = elim (Bool-cases (is_named str k')) [
  | inl hit ↦
      let here : k' ≡ k = cc (rw hit at e) in
      ap (λ x. (info x).name) (sym here) ∙ sym ((bytes_eq_iff str (info k').name).0 hit)
  | inr miss ↦ child-name str ks k (rw miss at e)
]

at_path-name :
    (p : List ℕ) (ps : List (List ℕ)) (n k : ChNode)
    → at_path (p ∷ ps) n ≡ some k
    → (info k).name ≡ last_step (p ∷ ps)
at_path-name p [] n k e = elim (Option-cases (child p (nodes n))) [
  | inl gone ↦ absurd (cc (rw (gone, at_path) at e))
  | inr (k', found) ↦ child-name p (nodes n) k (found ∙ rw (found, at_path) at e)
]
at_path-name p (q ∷ qs) n k e = elim (Option-cases (child p (nodes n))) [
  | inl gone ↦ absurd (cc (rw (gone, at_path) at e))
  | inr (k', found) ↦ at_path-name q qs k' k (rw (found, at_path) at e)
]

-- For a valid channel: after `addChannel`, `findNode` of the same channel returns a node, and it is
-- named for the last step of the channel's path.
pub find_node_by_name-add_channel :
    (channel : List ℕ) (root : ChNode)
    → is_channel channel ≡ true
    → (k : ChNode) × (find_node_by_name channel (add_channel channel root) ≡ some k)
      × ((info k).name ≡ last_step (channel_pieces channel))
unfolding find_node_by_name
find_node_by_name-add_channel channel root fits =
    let (k, there) = add_channel_there channel root fits in
    let (p, ps, e) = channel_pieces_cons channel in
    let there' = (rw e at there) in
    (
      k,
      rw (fits, path_of-pieces channel fits, e)
          (find_node-at_path true p ps (add_channel channel root) k there'),
      rw e (at_path-name p ps (add_channel channel root) k there'),
    )

-- `findChannel` never returns a node, whatever is in the tree: the result is null, or the iterator
-- at the end of a list of children has been read.
pub find_channel-none :
    (channel : List ℕ) (root : ChNode)
    → (find_channel channel root ≡ ret none) ⊎ (find_channel channel root ≡ undef)
unfolding find_channel find_channel_loop
find_channel-none channel root = elim (Bool-cases (is_channel channel)) [
  | inr not_fits ↦ inl (rw not_fits refl)
  | inl fits ↦
      let (p, ps, e) = channel_pieces_cons channel in
      elim (Option-cases (child p (nodes root))) [
        | inl gone ↦ inr (rw (fits, path_of-pieces channel fits, e, find_channel_loop, gone) refl)
        | inr (k, found) ↦
            inl (rw (fits, path_of-pieces channel fits, e, find_channel_loop, found) refl)
      ]
]
