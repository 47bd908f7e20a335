-- ===== src/Channels/Remove/Exact.antt =====
-- Which paths `removeChannel` of src/ChTree.hpp takes out of the tree, and which it leaves.
use k_mqttd.Base.{
  ℕ, ◌+◌, ◌-◌, ◌%◌, ◌^◌, Bool, true, false, not, ◌&&◌, ◌≡◌, ◌≢◌, refl, ap, sym, ◌∙◌, subst, some,
  List, [], ◌∷◌, bytes_eq, bytes_eq_iff, Bool-cases, Option-cases, inl, inr,
}
use k_mqttd.Channels.{
  ChNode, ChNodes, node, Info, child, update_child, remove_child, remove_path, remove_channel,
}
use k_mqttd.Channels.Name.{is_channel}
use k_mqttd.Channels.Path.{path_of-pieces}
use k_mqttd.Channels.Lookup.{at_path, has_path, child-update_ne}
use k_mqttd.Channels.Add.{is_prefix}
use k_mqttd.Channels.Back.{
  goes, remove_path_elim, remove_path-name, remove_path_known, remove_path_kept, remove_path-end,
}
use k_mqttd.Channels.Shape.{IsCounted, child-IsCounted}
use k_mqttd.Channels.Distinct.{IsDistinct, child-IsDistinct, remove_gone}
use k_mqttd.Channels.Remove.{has_path_step, has_path_stop, left_child}
use k_mqttd.Channels.Remove.Kept.{IsSmall, child-IsSmall, child-remove_ne}
use k_mqttd.Text.Channel.{channel_pieces}
use k_mqttd.Channels.Remove.Cut.{falls, cut_at, is_cut, cut_found, cut_missing, goes-falls}

-- Another child is as it was.
other_child :
    (s t : List ℕ) (p q : List (List ℕ)) (i : Info) (kids : ChNodes)
    → bytes_eq s t ≡ false
    → has_path (t ∷ q) (remove_path (s ∷ p) (node i kids)).0 ≡ has_path (t ∷ q) (node i kids)
other_child s t p q i kids apart =
    let ne : t ≢ s = λ e. cc (apart, (bytes_eq_iff s t).1 (sym e)) in
    remove_path_elim (λ n. has_path (t ∷ q) n ≡ has_path (t ∷ q) (node i kids)) s p i kids
      (λ gone. refl) (λ k found gone. rw (has_path, at_path, child-remove_ne t s kids ne) refl)
      (λ k found left.
        rw
          (
            has_path,
            at_path,
            child-update_ne t s (λ n. (remove_path p n).0) kids (remove_path-name p) ne,
          )
          refl)

uncut : (b : Bool) → b ≡ (b && not false)
uncut true = refl
uncut false = refl

all_cut : (b : Bool) → false ≡ (b && not true)
all_cut true = refl
all_cut false = refl

is_cut_root : (c : List (List ℕ)) → is_cut c [] ≡ false
is_cut_root [] = refl
is_cut_root (x ∷ c) = refl

is_cut-is_prefix :
    (c q : List (List ℕ)) (k : ChNode) → falls c k ≡ false → is_cut c q ≡ is_prefix c q
is_cut-is_prefix [] q k e = absurd (cc e)
is_cut-is_prefix (x ∷ c) q k e = refl

-- What is left of a path, given the node and the cut.
left_of : List (List ℕ) → ChNode → List (List ℕ) → Bool
left_of q n c = has_path q n && not (is_cut c q)

-- Below the child on the path.
same_child :
    (s : List ℕ) (p q : List (List ℕ)) (i : Info) (kids : ChNodes) (k : ChNode)
    → IsCounted (node i kids)
    → IsSmall (node i kids)
    → IsDistinct (node i kids)
    → child s kids ≡ some k
    → has_path q (remove_path p k).0 ≡ left_of q k (cut_at p k)
    → has_path (s ∷ q) (remove_path (s ∷ p) (node i kids)).0
      ≡ left_of (s ∷ q) (node i kids) (cut_at (s ∷ p) (node i kids))
unfolding left_of
same_child s p q i kids k counted small distinct found below =
    let goes_is =
      goes-falls p k (child-IsCounted s kids k found counted.1)
        (child-IsSmall s kids k found small.1) in
    let self : bytes_eq s s ≡ true = (bytes_eq_iff s s).1 refl in
    elim (Bool-cases (goes (remove_path p k))) [
      | inl gone ↦
          ap (λ (r : ChNode × Bool). has_path (s ∷ q) r.0)
            (remove_path_known s p i kids k found gone)
          ∙ has_path_stop s q
              (node (record i { node_size = (i.node_size + 2 ^ 32 - 1) % 2 ^ 32 })
                (remove_child s kids))
              (remove_gone s kids distinct)
          ∙ all_cut (has_path (s ∷ q) (node i kids))
          ∙ rw (cut_found s p i kids k true found (sym goes_is ∙ gone), self) refl
      | inr stays ↦
          ap (λ (r : ChNode × Bool). has_path (s ∷ q) r.0)
            (remove_path_kept s p i kids k found stays)
          ∙ has_path_step s q (node i (update_child s (λ n. (remove_path p n).0) kids))
              (remove_path p k).0 (left_child s p kids k found)
          ∙ below
          ∙ rw
              (
                has_path_step s q (node i kids) k found,
                cut_found s p i kids k false found (sym goes_is ∙ stays),
                self,
                is_cut-is_prefix (cut_at p k) q k (sym goes_is ∙ stays),
              )
              refl
    ]

has_path-remove_path :
    (p q : List (List ℕ)) (n : ChNode)
    → IsCounted n
    → IsSmall n
    → IsDistinct n
    → has_path q (remove_path p n).0 ≡ left_of q n (cut_at p n)
unfolding remove_path cut_at left_of
has_path-remove_path [] q n counted small distinct = uncut (has_path q n)
has_path-remove_path (s ∷ p) [] (node i kids) counted small distinct =
    rw (is_cut_root (cut_at (s ∷ p) (node i kids))) refl
has_path-remove_path (s ∷ p) (t ∷ q) (node i kids) counted small distinct =
    elim (Option-cases (child s kids)) [
      | inl gone ↦
          ap (λ (r : ChNode × Bool). has_path (t ∷ q) r.0) (remove_path-end s p i kids gone)
          ∙ uncut (has_path (t ∷ q) (node i kids))
          ∙ ap (left_of (t ∷ q) (node i kids)) (sym (cut_missing s p i kids gone))
      | inr (k, found) ↦ elim (Bool-cases (bytes_eq s t)) [
        | inr apart ↦
            other_child s t p q i kids apart
            ∙ uncut (has_path (t ∷ q) (node i kids))
            ∙ rw (cut_found s p i kids k (falls (cut_at p k) k) found refl, apart) refl
        | inl same ↦
            let e : s ≡ t = (bytes_eq_iff s t).0 same in
            subst
              (λ x.
                has_path (x ∷ q) (remove_path (s ∷ p) (node i kids)).0
                ≡ left_of (x ∷ q) (node i kids) (cut_at (s ∷ p) (node i kids)))
              e
              (same_child s p q i kids k counted small distinct found (
                has_path-remove_path p q k (child-IsCounted s kids k found counted.1)
                  (child-IsSmall s kids k found small.1)
                  (child-IsDistinct s kids k found distinct)))
      ]
    ]

-- For a valid channel, in a tree whose siblings have different names, whose counters are right, and
-- where no node has 2 ^ 32 children or more: `removeChannel` takes out the paths that go through the cut,
-- and no other. The cut is at the deepest node of the channel's path that is there, or at the highest
-- node above it, below the root, from which down to it each node has one child and no users.
pub has_path-remove_channel :
    (q : List (List ℕ)) (channel : List ℕ) (root : ChNode)
    → is_channel channel ≡ true
    → IsCounted root
    → IsSmall root
    → IsDistinct root
    → has_path q (remove_channel channel root)
      ≡ (has_path q root && not (is_cut (cut_at (channel_pieces channel) root) q))
unfolding remove_channel left_of
has_path-remove_channel q channel root fits counted small distinct =
    rw (fits, path_of-pieces channel fits)
      (has_path-remove_path (channel_pieces channel) q root counted small distinct)
