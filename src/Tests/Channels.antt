-- ===== src/Tests/Channels.antt =====
-- Runs of src/ChTree.hpp.
use k_mqttd.Base.{
  ◌&&◌, not, ℕ, suc, ◌+◌, ◌-◌, ◌≤◌, ◌≡◌, ◌≢◌, ◌⊎◌, ◌||◌, refl, List, [], ◌∷◌, some, none, true,
  arith, length, get_elem?, bytes, ret, undef,
}
use k_mqttd.Text.{trim}
use k_mqttd.Text.Channel.{channel_pieces}
use k_mqttd.Channels.{
  ChNode, node, nil, cons, new_node, info, init_root, find_node_by_name, find_channel, add_channel,
  remove_channel,
}
use k_mqttd.Channels.Name.{is_channel, has_double_slash, hash_fits, plus_fits}
use k_mqttd.Channels.Name.Sound.{is_channel_lem}
use k_mqttd.Channels.Lookup.{has_path}
use k_mqttd.Channels.Add.{is_prefix, has_path-add_channel}
use k_mqttd.Channels.Find.{last_step, find_node_by_name-add_channel, find_channel-none}
use k_mqttd.Channels.Shape.{IsCounted}
use k_mqttd.Channels.Distinct.{IsDistinct}
use k_mqttd.Channels.Reach.{Reach, begin, next, added, removed, Reach-shape}
use k_mqttd.Channels.Undo.{remove_channel-add_channel}
use k_mqttd.Channels.Remove.Cut.{is_cut, cut_at}
use k_mqttd.Channels.Remove.Exact.{has_path-remove_channel}

abbrev room : List ℕ
room = bytes "home/hall/#"

room_fits : is_channel room ≡ true
unfolding is_channel has_double_slash hash_fits plus_fits trim
room_fits = refl

-- Of several `+` the first alone is tested.
second_plus_untested : is_channel (bytes "+/a+") ≡ true
unfolding is_channel has_double_slash hash_fits plus_fits trim
second_plus_untested = refl

has_path-add_channel_example : has_path (bytes "home" ∷ []) (add_channel room init_root) ≡ (
    has_path (bytes "home" ∷ []) init_root || is_prefix (bytes "home" ∷ []) (channel_pieces room))
has_path-add_channel_example = has_path-add_channel (bytes "home" ∷ []) room init_root room_fits

find_node_by_name-add_channel_example :
    (k : ChNode) × (find_node_by_name room (add_channel room init_root) ≡ some k)
    × ((info k).name ≡ last_step (channel_pieces room))
find_node_by_name-add_channel_example = find_node_by_name-add_channel room init_root room_fits

find_channel-none_example :
    (find_channel room (add_channel room init_root) ≡ ret none)
    ⊎ (find_channel room (add_channel room init_root) ≡ undef)
find_channel-none_example = find_channel-none room (add_channel room init_root)

is_channel_lem_example :
    (length room ≤ 0xffff)
    × ((i : ℕ) → get_elem? room i ≡ some b'/' → get_elem? room (suc i) ≢ some b'/')
    × (1 ≤ length (trim room))
    × ((i : ℕ)
        → get_elem? (trim room) i ≡ some b'#'
        → (i + 1 ≡ length (trim room)) × (1 ≤ i → get_elem? (trim room) (i - 1) ≡ some b'/'))
is_channel_lem_example = is_channel_lem room room_fits

with_room : Reach (remove_channel (bytes "a/b") (add_channel room init_root))
with_room =
    next (next begin (added room init_root)) (removed (bytes "a/b") (add_channel room init_root))

Reach-shape_example :
    IsCounted (remove_channel (bytes "a/b") (add_channel room init_root))
    × IsDistinct (remove_channel (bytes "a/b") (add_channel room init_root))
Reach-shape_example = Reach-shape with_room

room_path : channel_pieces room ≡ bytes "home" ∷ bytes "hall" ∷ bytes "#" ∷ []
room_path = refl

remove_channel-add_channel_example : remove_channel room (add_channel room init_root) ≡ init_root
remove_channel-add_channel_example =
    remove_channel-add_channel room (info init_root) nil (bytes "home")
      (bytes "hall" ∷ bytes "#" ∷ []) room_path refl (omega arith)

-- The channels a with one user and a/b without.
abbrev leaf : ChNode
leaf = new_node (bytes "b")

abbrev in_use : ChNode
in_use =
    node (record (info (new_node (bytes "a"))) { node_size = 1; user_size = 1 }) (cons leaf nil)

abbrev small_tree : ChNode
small_tree = node (record (info init_root) { node_size = 1 }) (cons in_use nil)

short_fits : is_channel (bytes "a/b") ≡ true
unfolding is_channel has_double_slash hash_fits plus_fits trim
short_fits = refl

-- There the cut is at a/b itself, since a has users.
has_path-remove_channel_example :
    has_path (bytes "a" ∷ bytes "b" ∷ []) (remove_channel (bytes "a/b") small_tree) ≡ (
      has_path (bytes "a" ∷ bytes "b" ∷ []) small_tree
      && not
          (is_cut (cut_at (channel_pieces (bytes "a/b")) small_tree) (bytes "a" ∷ bytes "b" ∷ [])))
has_path-remove_channel_example =
    has_path-remove_channel (bytes "a" ∷ bytes "b" ∷ []) (bytes "a/b") small_tree short_fits
      (refl, ((refl, ((refl, tt), tt)), tt))
      (omega arith, ((omega arith, ((omega arith, tt), tt)), tt)) ((tt, refl, tt), refl, tt)
