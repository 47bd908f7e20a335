-- ===== src/Channels/Remove/Cut.antt =====
-- Where `removeChannel` of src/ChTree.hpp cuts the tree.
use k_mqttd.Base.{
  ℕ, ◌+◌, ◌-◌, ◌%◌, ◌^◌, ◌<◌, ◌≤◌, Bool, true, false, ◌&&◌, ◌≡◌, ◌≢◌, ◌==◌, refl, ap, sym, ◌∙◌,
  none, some, List, [], ◌∷◌, arith, Bool-cases, Option-cases, inl, inr, if◌then◌else◌,
}
use k_mqttd.Channels.{ChNode, ChNodes, node, nil, cons, Info, info, nodes, child, remove_path}
use k_mqttd.Channels.Add.{is_prefix}
use k_mqttd.Channels.Back.{goes, remove_path_known, remove_path_kept, remove_path-end}
use k_mqttd.Channels.Shape.{count, IsCounted, child-IsCounted}
use k_mqttd.Channels.Remove.Kept.{IsSmall, child-IsSmall}

-- Whether a node goes with what is cut below it: it ends the path, or its only child is cut and it has
-- no users.
abbrev pub falls : List (List ℕ) → ChNode → Bool
falls [] k = true
falls (str ∷ []) k = count (nodes k) == 1 && (info k).user_size == 0
falls (str ∷ next ∷ rest) k = false

-- The path from a node to where the tree is cut, on the way to the deepest node of a path; empty where
-- the node has no child on the path.
unfoldable pub cut_at : List (List ℕ) → ChNode → List (List ℕ)
cut_at [] n = []
cut_at (str ∷ rest) n = elim (child str (nodes n)) [
  | none ↦ []
  | some k ↦ str ∷ (if falls (cut_at rest k) k then [] else cut_at rest k)
]

-- Whether a path goes through a cut.
abbrev pub is_cut : List (List ℕ) → List (List ℕ) → Bool
is_cut [] q = false
is_cut (str ∷ rest) q = is_prefix (str ∷ rest) q

pub cut_found :
    (str : List ℕ) (rest : List (List ℕ)) (i : Info) (kids : ChNodes) (k : ChNode) (b : Bool)
    → child str kids ≡ some k
    → falls (cut_at rest k) k ≡ b
    → cut_at (str ∷ rest) (node i kids) ≡ str ∷ (if b then [] else cut_at rest k)
unfolding cut_at
cut_found str rest i kids k b found e = rw (found, cut_at, e) refl

pub cut_missing :
    (str : List ℕ) (rest : List (List ℕ)) (i : Info) (kids : ChNodes)
    → child str kids ≡ none
    → cut_at (str ∷ rest) (node i kids) ≡ []
unfolding cut_at
cut_missing str rest i kids gone = rw (gone, cut_at) refl

child-count : (str : List ℕ) (ks : ChNodes) (k : ChNode) → child str ks ≡ some k → 1 ≤ count ks
child-count str nil k found = absurd (cc found)
child-count str (cons k' ks) k found = omega arith

falls_above :
    (str : List ℕ) (c : List (List ℕ)) (k n : ChNode)
    → falls c k ≡ false
    → falls (str ∷ c) n ≡ false
falls_above str [] k n e = absurd (cc e)
falls_above str (x ∷ c) k n e = refl

one_left :
    (m n : ℕ) → m ≡ n % 2 ^ 32 → n < 2 ^ 32 → 1 ≤ n → ((m + 2 ^ 32 - 1) % 2 ^ 32 == 0) ≡ (n == 1)
one_left m n sized few more = elim (Bool-cases (n == 1)) [
  | inl one ↦
      let only : n ≡ 1 = ground arith in
      let zero' : (m + 2 ^ 32 - 1) % 2 ^ 32 ≡ 0 = omega arith in rw (zero', one) refl
  | inr other ↦
      let ne : n ≢ 1 = ground arith in
      let at : (m + 2 ^ 32 - 1) % 2 ^ 32 ≡ n - 1 = omega arith in
      let off : (n - 1 == 0) ≡ false = ground arith in rw (at, off, other) refl
]

pub goes-falls :
    (p : List (List ℕ)) (n : ChNode)
    → IsCounted n
    → IsSmall n
    → goes (remove_path p n) ≡ falls (cut_at p n) n
unfolding remove_path cut_at
goes-falls [] n counted small = refl
goes-falls (s ∷ p) (node i kids) counted small = elim (Option-cases (child s kids)) [
  | inl gone ↦ rw (remove_path-end s p i kids gone, cut_missing s p i kids gone) refl
  | inr (k, found) ↦
      let below =
        goes-falls p k (child-IsCounted s kids k found counted.1)
          (child-IsSmall s kids k found small.1) in
      let more = child-count s kids k found in
      let (sized, _) = counted in
      let (few, _) = small in
      let one : ((i.node_size + 2 ^ 32 - 1) % 2 ^ 32 == 0) ≡ (count kids == 1) =
        one_left i.node_size (count kids) sized few more in
      elim (Bool-cases (goes (remove_path p k))) [
        | inl falls_too ↦
            let cut = cut_found s p i kids k true found (sym below ∙ falls_too) in
            rw (remove_path_known s p i kids k found falls_too, cut)
              (ap (λ (b : Bool). b && (i.user_size == 0)) one)
        | inr stays ↦
            let cut = cut_found s p i kids k false found (sym below ∙ stays) in
            rw
              (
                remove_path_kept s p i kids k found stays,
                cut,
                falls_above s (cut_at p k) k (node i kids) (sym below ∙ stays),
              )
              (let some_left : (i.node_size == 0) ≡ false = ground arith in rw some_left refl)
      ]
]
