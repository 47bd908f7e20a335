-- ===== src/Channels/Add.antt =====
-- `ChTree::addChannel` of src/ChTree.hpp: what is in the tree afterwards.
use mathlib.Core.Option
use k_mqttd.Base.{
  ℕ, Bool, true, false, ◌≡◌, ◌≢◌, ◌&&◌, ◌||◌, refl, ap, sym, ◌∙◌, arith, none, some, List, [], ◌∷◌,
  bytes_eq, bytes_eq_iff, Bool-cases, Option-cases, inl, inr,
}
use k_mqttd.Channels.{ChNode, node, info, new_node, child, update_child, add_path, add_channel}
use k_mqttd.Channels.Name.{is_channel}
use k_mqttd.Channels.Path.{path_of-pieces}
use k_mqttd.Text.Channel.{channel_pieces}
use k_mqttd.Channels.Lookup.{
  KeepsName, child-update, child-update_ne, child-push_back, child-push_back_ne, update_child_same,
  at_path, has_path,
}

pub add_path-KeepsName : (p : List (List ℕ)) → KeepsName (add_path p)
unfolding add_path
add_path-KeepsName [] k = refl
add_path-KeepsName (str ∷ rest) (node i kids) = elim (Option-cases (child str kids)) [
  | inl gone ↦ rw (gone, add_path, info) refl
  | inr (k, found) ↦ rw (found, add_path, info) refl
]

-- Adding a path that is there changes nothing.
add_path_same : (p : List (List ℕ)) (n k : ChNode) → at_path p n ≡ some k → add_path p n ≡ n
unfolding add_path
add_path_same [] n k e = refl
add_path_same (str ∷ rest) (node i kids) k e = elim (Option-cases (child str kids)) [
  | inl gone ↦ absurd (cc (rw (gone, at_path) at e))
  | inr (k', found) ↦
      let below = add_path_same rest k' k (rw (found, at_path) at e) in
      rw (found, add_path) (ap (node i) (update_child_same str (add_path rest) kids k' found below))
]

is_named_refl : (str : List ℕ) → bytes_eq str str ≡ true
is_named_refl str = (bytes_eq_iff str str).1 refl

-- A path that starts another.
abbrev pub is_prefix : List (List ℕ) → List (List ℕ) → Bool
is_prefix [] p = true
is_prefix (q ∷ qs) [] = false
is_prefix (q ∷ qs) (p ∷ ps) = bytes_eq q p && is_prefix qs ps

-- Below a new node there is nothing.
has_path-new_node :
    (q rest : List (List ℕ)) (str : List ℕ)
    → (has_path q (new_node str) || is_prefix q rest) ≡ is_prefix q rest
has_path-new_node [] rest str = refl
has_path-new_node (s ∷ q) rest str = refl

-- After `addChannel` the tree has the paths it had and the prefixes of the added path, no other.
has_path-add_path :
    (q p : List (List ℕ)) (n : ChNode) → has_path q (add_path p n) ≡ (has_path q n || is_prefix q p)
unfolding add_path
has_path-add_path [] p n = refl
has_path-add_path (s ∷ q) [] n = ground arith
has_path-add_path (s ∷ q) (str ∷ rest) (node i kids) = elim (Option-cases (child str kids)) [
  | inl gone ↦
      let new = add_path rest (new_node str) in
      let named : (info new).name ≡ str = add_path-KeepsName rest (new_node str) in
      elim (Bool-cases (bytes_eq s str)) [
        | inl same ↦
            let e : s ≡ str = (bytes_eq_iff s str).0 same in
            let gone_s : child s kids ≡ none = rw e gone in
            rw
              (
                gone,
                add_path,
                same,
                has_path,
                at_path,
                gone_s,
                child-push_back s kids new gone_s (e ∙ sym named),
              )
              (has_path-add_path q rest (new_node str) ∙ has_path-new_node q rest str)
        | inr apart ↦
            rw
              (
                gone,
                add_path,
                apart,
                has_path,
                at_path,
                child-push_back_ne s kids new (rw named apart),
              )
              (ground arith)
      ]
  | inr (k, found) ↦ elim (Bool-cases (bytes_eq s str)) [
    | inl same ↦
        let e : s ≡ str = (bytes_eq_iff s str).0 same in
        let found_s : child s kids ≡ some k = rw e found in
        let kept : child s (update_child str (add_path rest) kids) ≡ some (add_path rest k) =
          ap (λ x. child x (update_child str (add_path rest) kids)) e
          ∙ (child-update str (add_path rest) kids (add_path-KeepsName rest)
              ∙ ap (Option.map (add_path rest)) found) in
        rw (found, add_path, same, has_path, at_path, kept, found_s) (has_path-add_path q rest k)
    | inr apart ↦
        let apart' : s ≢ str = λ e. cc (apart, (bytes_eq_iff s str).1 e) in
        let kept = child-update_ne s str (add_path rest) kids (add_path-KeepsName rest) apart' in
        rw (found, add_path, apart, has_path, at_path, kept) (ground arith)
  ]
]

-- For a valid channel: after `addChannel` the tree has the paths it had and the prefixes of the
-- channel's path, and no other.
pub has_path-add_channel :
    (q : List (List ℕ)) (channel : List ℕ) (root : ChNode)
    → is_channel channel ≡ true
    → has_path q (add_channel channel root)
      ≡ (has_path q root || is_prefix q (channel_pieces channel))
unfolding add_channel
has_path-add_channel q channel root fits =
    rw (fits, add_channel, path_of-pieces channel fits)
      (has_path-add_path q (channel_pieces channel) root)

is_prefix_refl : (p : List (List ℕ)) → is_prefix p p ≡ true
is_prefix_refl [] = refl
is_prefix_refl (q ∷ qs) = rw ((bytes_eq_iff q q).1 refl, is_prefix_refl qs) refl

at_path-has_path :
    (p : List (List ℕ)) (n : ChNode) → has_path p n ≡ true → (k : ChNode) × (at_path p n ≡ some k)
at_path-has_path p n h = elim (Option-cases (at_path p n)) [
  | inl gone ↦ absurd (cc (rw (gone, has_path) at h))
  | inr there ↦ there
]

-- The end of a valid channel's path is there after `addChannel`.
pub add_channel_there :
    (channel : List ℕ) (root : ChNode)
    → is_channel channel ≡ true
    → (k : ChNode) × (at_path (channel_pieces channel) (add_channel channel root) ≡ some k)
add_channel_there channel root fits =
    at_path-has_path (channel_pieces channel) (add_channel channel root) (
      has_path-add_channel (channel_pieces channel) channel root fits
      ∙ rw (is_prefix_refl (channel_pieces channel)) (ground arith))

-- Adding a channel again changes nothing, neither the nodes nor the counters.
add_channel_twice :
    (channel : List ℕ) (root : ChNode)
    → add_channel channel (add_channel channel root) ≡ add_channel channel root
unfolding add_channel
add_channel_twice channel root = elim (Bool-cases (is_channel channel)) [
  | inl fits ↦
      let (k, there) = add_channel_there channel root fits in
      let added : add_channel channel root ≡ add_path (channel_pieces channel) root =
        rw (fits, path_of-pieces channel fits) refl in
      rw (fits, path_of-pieces channel fits)
        (add_path_same (channel_pieces channel) _ k (rw added at there))
  | inr not_fits ↦ rw (not_fits, add_channel) refl
]
