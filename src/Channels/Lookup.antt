-- ===== src/Channels/Lookup.antt =====
-- The list of children as a map from names, and paths into the tree.
use mathlib.Core.Option
use k_mqttd.Base.{
  ℕ, Bool, true, false, ◌≡◌, ◌≢◌, bytes_eq, refl, ap, Option, none, some, List, [], ◌∷◌,
  bytes_eq_iff, arith, Bool-cases, Option-cases, inl, inr,
}
use k_mqttd.Channels.{
  ChNode, ChNodes, nil, cons, info, nodes, is_named, child, update_child, push_back, find_node,
}

-- A change that leaves the name of every node.
abbrev pub KeepsName : (ChNode → ChNode) → Type 0
KeepsName f = (k : ChNode) → (info (f k)).name ≡ (info k).name

pub child-update :
    (str : List ℕ) (f : ChNode → ChNode) (ks : ChNodes)
    → KeepsName f
    → child str (update_child str f ks) ≡ Option.map f (child str ks)
child-update str f nil h = refl
child-update str f (cons k ks) h = elim (Bool-cases (is_named str k)) [
  | inl hit ↦ rw hit (rw (h k) (rw hit refl))
  | inr miss ↦ rw miss (rw miss (child-update str f ks h))
]

pub child-update_ne :
    (q str : List ℕ) (f : ChNode → ChNode) (ks : ChNodes)
    → KeepsName f
    → q ≢ str
    → child q (update_child str f ks) ≡ child q ks
child-update_ne q str f nil h apart = refl
child-update_ne q str f (cons k ks) h apart = ground (
  arith,
  h k,
  bytes_eq_iff q (info k).name,
  bytes_eq_iff str (info k).name,
  child-update_ne q str f ks h apart,
)

pub child-push_back :
    (q : List ℕ) (ks : ChNodes) (n : ChNode)
    → child q ks ≡ none
    → q ≡ (info n).name
    → child q (push_back ks n) ≡ some n
child-push_back q nil n gone named = rw ((bytes_eq_iff q (info n).name).1 named) refl
child-push_back q (cons k ks) n gone named = elim (Bool-cases (is_named q k)) [
  | inl hit ↦ absurd (cc (rw hit at gone))
  | inr miss ↦ rw miss (child-push_back q ks n (rw miss at gone) named)
]

pub child-push_back_ne :
    (q : List ℕ) (ks : ChNodes) (n : ChNode)
    → bytes_eq q (info n).name ≡ false
    → child q (push_back ks n) ≡ child q ks
child-push_back_ne q nil n apart = rw apart refl
child-push_back_ne q (cons k ks) n apart = rw (child-push_back_ne q ks n apart) refl

pub update_child_same :
    (str : List ℕ) (f : ChNode → ChNode) (ks : ChNodes) (k : ChNode)
    → child str ks ≡ some k
    → f k ≡ k
    → update_child str f ks ≡ ks
update_child_same str f nil k e same = refl
update_child_same str f (cons k' ks) k e same = elim (Bool-cases (is_named str k')) [
  | inl hit ↦
      let here : some k' ≡ some k = rw hit at e in rw hit (ap (λ x. cons x ks) (cc (here, same)))
  | inr miss ↦ rw miss (ap (cons k') (update_child_same str f ks k (rw miss at e) same))
]

-- The node at the end of a path, if each step of it is there.
abbrev pub at_path : List (List ℕ) → ChNode → Option ChNode
at_path [] n = some n
at_path (str ∷ rest) n = elim (child str (nodes n)) [ none ↦ none | some k ↦ at_path rest k ]

abbrev pub has_path : List (List ℕ) → ChNode → Bool
has_path p n = elim (at_path p n) [ none ↦ false | some k ↦ true ]

-- Where the whole path is there, the private `findNode` returns its end.
pub find_node-at_path :
    (at_root : Bool) (str : List ℕ) (rest : List (List ℕ)) (n k : ChNode)
    → at_path (str ∷ rest) n ≡ some k
    → find_node at_root (str ∷ rest) n ≡ some k
unfolding find_node
find_node-at_path at_root str [] n k e = elim (Option-cases (child str (nodes n))) [
  | inl gone ↦ absurd (cc (rw (gone, at_path) at e))
  | inr (k', found) ↦ rw (found, find_node) (rw (found, at_path) at e)
]
find_node-at_path at_root str (next ∷ rest) n k e = elim (Option-cases (child str (nodes n))) [
  | inl gone ↦ absurd (cc (rw (gone, at_path) at e))
  | inr (k', found) ↦
      rw (found, find_node) (find_node-at_path false next rest k' k (rw (found, at_path) at e))
]
