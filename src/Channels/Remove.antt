-- ===== src/Channels/Remove.antt =====
-- `removeChannel` of src/ChTree.hpp: what is in the tree afterwards.
pub mod Kept
pub mod Cut
pub mod Exact
use mathlib.Core.Option
use k_mqttd.Base.{
  ℕ, Bool, true, false, ◌≡◌, ◌&&◌, ◌||◌, ◌==◌, refl, ap, sym, ◌∙◌, subst, none, some, List, [], ◌∷◌,
  Bool-cases, Option-cases, inl, inr,
}
use k_mqttd.Channels.{
  ChNode, ChNodes, node, info, nodes, child, update_child, remove_child, remove_path,
  remove_channel,
}
use k_mqttd.Channels.Name.{is_channel}
use k_mqttd.Channels.Path.{path_of-pieces, channel_pieces_cons}
use k_mqttd.Channels.Lookup.{at_path, has_path, child-update}
use k_mqttd.Channels.Back.{goes, remove_path_elim, remove_path-name}
use k_mqttd.Channels.Distinct.{IsDistinct, child-IsDistinct, remove_gone}
use k_mqttd.Text.Channel.{channel_pieces}

pub has_path_step :
    (str : List ℕ) (rest : List (List ℕ)) (n k : ChNode)
    → child str (nodes n) ≡ some k
    → has_path (str ∷ rest) n ≡ has_path rest k
has_path_step str rest n k found = rw (found, has_path, at_path) refl

pub has_path_stop :
    (str : List ℕ) (rest : List (List ℕ)) (n : ChNode)
    → child str (nodes n) ≡ none
    → has_path (str ∷ rest) n ≡ false
has_path_stop str rest n gone = rw (gone, has_path, at_path) refl

-- A child that `removeChannel` has gone through and left.
pub left_child :
    (str : List ℕ) (rest : List (List ℕ)) (kids : ChNodes) (k : ChNode)
    → child str kids ≡ some k
    → child str (update_child str (λ n. (remove_path rest n).0) kids) ≡ some (remove_path rest k).0
left_child str rest kids k found =
    child-update str (λ n. (remove_path rest n).0) kids (remove_path-name rest)
    ∙ ap (Option.map (λ n. (remove_path rest n).0)) found

remove_path_gone :
    (str : List ℕ) (rest : List (List ℕ)) (n : ChNode)
    → IsDistinct n
    → has_path (str ∷ rest) (remove_path (str ∷ rest) n).0 ≡ false
unfolding remove_path
remove_path_gone str [] (node i kids) h =
    remove_path_elim (λ n. has_path (str ∷ []) n ≡ false) str [] i kids
      (λ gone. has_path_stop str [] (node i kids) gone)
      (λ k found gone.
        has_path_stop str [] (node i (remove_child str kids)) (remove_gone str kids h))
      (λ k found stays. absurd (cc stays))
remove_path_gone str (next ∷ rest) (node i kids) h =
    remove_path_elim (λ n. has_path (str ∷ next ∷ rest) n ≡ false) str (next ∷ rest) i kids
      (λ gone. has_path_stop str (next ∷ rest) (node i kids) gone)
      (λ k found gone.
        has_path_stop str (next ∷ rest) (node i (remove_child str kids)) (remove_gone str kids h))
      (λ k found stays.
        has_path_step str (next ∷ rest) (node i _) (remove_path (next ∷ rest) k).0
          (left_child str (next ∷ rest) kids k found)
        ∙ remove_path_gone next rest k (child-IsDistinct str kids k found h))

-- For a valid channel, in a tree whose siblings have different names: after `removeChannel` the tree
-- does not have the channel's path.
remove_channel_gone :
    (channel : List ℕ) (root : ChNode)
    → is_channel channel ≡ true
    → IsDistinct root
    → has_path (channel_pieces channel) (remove_channel channel root) ≡ false
unfolding remove_channel
remove_channel_gone channel root fits h =
    let (str, rest, path) = channel_pieces_cons channel in
    rw (fits, path_of-pieces channel fits, path) (remove_path_gone str rest root h)
