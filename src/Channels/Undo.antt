-- ===== src/Channels/Undo.antt =====
-- `removeChannel` of src/ChTree.hpp after `addChannel` of the same channel.
use k_mqttd.Base.{
  ℕ, ◌+◌, ◌-◌, ◌%◌, ◌^◌, ◌<◌, ◌≡◌, Bool, true, refl, ap, sym, ◌∙◌, none, some, List, [], ◌∷◌,
  bytes_eq_iff, arith, Bool-cases, inl, inr,
}
use k_mqttd.Channels.{
  ChNode, ChNodes, node, nil, cons, Info, info, new_node, is_named, child, remove_child, push_back,
  add_path, add_channel, remove_path, remove_channel,
}
use k_mqttd.Channels.Name.{is_channel}
use k_mqttd.Channels.Path.{path_of-pieces}
use k_mqttd.Channels.Lookup.{child-push_back}
use k_mqttd.Channels.Add.{add_path-KeepsName}
use k_mqttd.Channels.Back.{goes, remove_path_known}
use k_mqttd.Text.Channel.{channel_pieces}

remove-push_back :
    (str : List ℕ) (ks : ChNodes) (n : ChNode)
    → child str ks ≡ none
    → str ≡ (info n).name
    → remove_child str (push_back ks n) ≡ ks
remove-push_back str nil n gone named = rw ((bytes_eq_iff str (info n).name).1 named) refl
remove-push_back str (cons k ks) n gone named = elim (Bool-cases (is_named str k)) [
  | inl hit ↦ absurd (cc (rw hit at gone))
  | inr miss ↦ rw miss (ap (cons k) (remove-push_back str ks n (rw miss at gone) named))
]

-- The end of a path that `addChannel` has made is taken out again.
new_node-goes :
    (rest : List (List ℕ)) (str : List ℕ)
    → goes (remove_path rest (add_path rest (new_node str))) ≡ true
unfolding add_path remove_path
new_node-goes [] str = refl
new_node-goes (s ∷ rest) str =
    let new = add_path rest (new_node s) in
    let named : s ≡ (info new).name = sym (add_path-KeepsName rest (new_node s)) in
    let found : child s (cons new nil) ≡ some new = child-push_back s nil new refl named in
    let back = remove_path_known s rest _ (cons new nil) new found (new_node-goes rest s) in
    ap goes back

remove_path-add_path :
    (str : List ℕ) (rest : List (List ℕ)) (i : Info) (kids : ChNodes)
    → child str kids ≡ none
    → i.node_size < 2 ^ 32
    → (remove_path (str ∷ rest) (add_path (str ∷ rest) (node i kids))).0 ≡ node i kids
unfolding add_path
remove_path-add_path str rest i kids gone small =
    let new = add_path rest (new_node str) in
    let named : str ≡ (info new).name = sym (add_path-KeepsName rest (new_node str)) in
    let found = child-push_back str kids new gone named in
    let i' = record i { node_size = (i.node_size + 1) % 2 ^ 32 } in
    let back =
      remove_path_known str rest i' (push_back kids new) new found (new_node-goes rest str) in
    let size : (i'.node_size + 2 ^ 32 - 1) % 2 ^ 32 ≡ i.node_size = omega arith in
    rw (gone, add_path)
      (ap (λ (r : ChNode × Bool). r.0) back
        ∙ rw (size, remove-push_back str kids new gone named) refl)

-- Where the root has no child of the first step of a channel's path, `removeChannel` after
-- `addChannel` of the channel gives the tree as it was.
pub remove_channel-add_channel :
    (channel : List ℕ) (i : Info) (kids : ChNodes) (str : List ℕ) (rest : List (List ℕ))
    → channel_pieces channel ≡ str ∷ rest
    → child str kids ≡ none
    → i.node_size < 2 ^ 32
    → remove_channel channel (add_channel channel (node i kids)) ≡ node i kids
unfolding add_channel remove_channel
remove_channel-add_channel channel i kids str rest path gone small =
    elim (Bool-cases (is_channel channel)) [
      | inl fits ↦
          rw (fits, path_of-pieces channel fits, path)
            (remove_path-add_path str rest i kids gone small)
      | inr not_fits ↦ rw not_fits refl
    ]
