-- ===== src/Channels/Store/Address.antt =====
-- A tree of nodes with their addresses, and where it stands in memory.
use mathlib.Core.Option
use k_mqttd.Base.{
  false_if, subst, ap, ℕ, Bool, true, false, ◌||◌, ◌==◌, ◌≡◌, refl, ◌∙◌, Option, none, some, List,
  [], ◌∷◌, bytes_eq, if◌then◌else◌, arith, Bool-cases, inl, inr, ret,
}
use k_mqttd.Channels.{ChNode, ChNodes, node, nil, cons, Info, child}
use k_mqttd.Channels.Store.{Store, load, find_if}

-- Two addresses of which one has what the other has not.
pub differ : (P : ℕ → Bool) (a b : ℕ) → P a ≡ true → P b ≡ false → a == b ≡ false
differ P a b there away = false_if (a == b) λ clash.
    let same : a ≡ b = ground arith in
    let both = subst (λ x. P x ≡ true) same there in absurd (cc (both, away))

mutual
  pub data Tree : Type 0 where
    tree : ℕ → Info → Trees → Tree

  pub data Trees : Type 0 where
    none_left : Trees
    more : Tree → Trees → Trees

abbrev pub address : Tree → ℕ
address (tree p i ks) = p

abbrev pub tree_info : Tree → Info
tree_info (tree p i ks) = i

abbrev pub addresses : Trees → List ℕ
addresses none_left = []
addresses (more t ts) = address t ∷ addresses ts

-- The tree without its addresses.
abbrev mutual
  pub plain : Tree → ChNode
  plain (tree p i ts) = node i (plain_all ts)

  pub plain_all : Trees → ChNodes
  plain_all none_left = nil
  plain_all (more t ts) = cons (plain t) (plain_all ts)

-- Whether a node stands at an address.
abbrev mutual
  pub has : ℕ → Tree → Bool
  has a (tree p i ts) = a == p || has_any a ts

  pub has_any : ℕ → Trees → Bool
  has_any a none_left = false
  has_any a (more t ts) = has a t || has_any a ts

-- Each node is in memory at its address.
abbrev mutual
  pub Holds : Store → Tree → Type 0
  Holds s (tree p i ts) =
      (s.cell p ≡ some (record { info = i; nodes = addresses ts })) × HoldsAll s ts

  pub HoldsAll : Store → Trees → Type 0
  HoldsAll s none_left = Unit
  HoldsAll s (more t ts) = Holds s t × HoldsAll s ts

-- No two nodes have the same address.
abbrev mutual
  pub IsSeparate : Tree → Type 0
  IsSeparate (tree p i ts) = (has_any p ts ≡ false) × AllSeparate ts

  pub AllSeparate : Trees → Type 0
  AllSeparate none_left = Unit
  AllSeparate (more t ts) =
      IsSeparate t × ((a : ℕ) → has a t ≡ true → has_any a ts ≡ false) × AllSeparate ts

-- The first child of a name, the children with it replaced, and without it.
abbrev pub named : List ℕ → Tree → Bool
named str t = bytes_eq str (tree_info t).name

abbrev pub kid : List ℕ → Trees → Option Tree
kid str none_left = none
kid str (more t ts) = if named str t then some t else kid str ts

abbrev pub replace : List ℕ → Tree → Trees → Trees
replace str t' none_left = none_left
replace str t' (more t ts) = if named str t then more t' ts else more t (replace str t' ts)

abbrev pub without : List ℕ → Trees → Trees
without str none_left = none_left
without str (more t ts) = if named str t then ts else more t (without str ts)

abbrev pub at_end : Trees → Tree → Trees
at_end none_left t' = more t' none_left
at_end (more t ts) t' = more t (at_end ts t')

pub has_address : (t : Tree) → has (address t) t ≡ true
has_address (tree p i ts) = ground arith

pub load_held :
    (s : Store) (p : ℕ) (i : Info) (ts : Trees)
    → Holds s (tree p i ts)
    → load p s ≡ ret (record { info = i; nodes = addresses ts })
unfolding load
load_held s p i ts h = rw (h.0, load) refl

pub find_if_held :
    (str : List ℕ) (ts : Trees) (s : Store)
    → HoldsAll s ts
    → find_if str (addresses ts) s ≡ ret (Option.map address (kid str ts))
unfolding find_if
find_if_held str none_left s h = refl
find_if_held str (more (tree p i us) ts) s (h, hs) = elim (Bool-cases (bytes_eq str i.name)) [
  | inl hit ↦ rw (load_held s p i us h, hit) refl
  | inr miss ↦ rw (load_held s p i us h, miss) (find_if_held str ts s hs)
]

child-plain : (str : List ℕ) (ts : Trees) → child str (plain_all ts) ≡ Option.map plain (kid str ts)
child-plain str none_left = refl
child-plain str (more (tree p i us) ts) = elim (Bool-cases (bytes_eq str i.name)) [
  | inl hit ↦ rw hit refl
  | inr miss ↦ rw miss (child-plain str ts)
]

pub child_found :
    (str : List ℕ) (ts : Trees) (k : Tree)
    → kid str ts ≡ some k
    → child str (plain_all ts) ≡ some (plain k)
child_found str ts k found = child-plain str ts ∙ ap (Option.map plain) found

pub child_missing :
    (str : List ℕ) (ts : Trees) → kid str ts ≡ none → child str (plain_all ts) ≡ none
child_missing str ts missing = child-plain str ts ∙ ap (Option.map plain) missing

-- A change elsewhere leaves a tree where it is.
abbrev mutual
  pub frame :
      (s s' : Store) (t : Tree)
      → Holds s t
      → ((a : ℕ) → has a t ≡ true → s'.cell a ≡ s.cell a)
      → Holds s' t
  frame s s' (tree p i ts) (here, below) same =
      (same p (ground arith) ∙ here, frame_all s s' ts below λ a there. same a (ground arith))

  pub frame_all :
      (s s' : Store) (ts : Trees)
      → HoldsAll s ts
      → ((a : ℕ) → has_any a ts ≡ true → s'.cell a ≡ s.cell a)
      → HoldsAll s' ts
  frame_all s s' none_left h same = tt
  frame_all s s' (more t ts) (h, hs) same = (
    frame s s' t h (λ a there. same a (ground arith)),
    frame_all s s' ts hs λ a there. same a (ground arith),
  )
