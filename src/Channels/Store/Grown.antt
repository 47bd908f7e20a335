-- ===== src/Channels/Store/Grown.antt =====
-- The steps of `ChTree` in memory that change one tree of nodes and nothing else.
use k_mqttd.Base.{Exec, ret, ℕ, ◌<◌, ◌≤◌, true, false, ◌≡◌, refl, ◌∙◌, arith, Bool-cases, inl, inr}
use k_mqttd.Channels.{ChNode}
use k_mqttd.Channels.Store.{Store}
use k_mqttd.Channels.Store.Address.{plain, Tree, address, tree_info, has, Holds, IsSeparate}

-- The tree `t` of `s` is the tree `t'` of `s'`; its new nodes are new in memory, and the nodes
-- outside it are as they were.
pub record Grown (s s' : Store) (t t' : Tree) : Type 0 where
  pub holds : Holds s' t'
  pub separate : IsSeparate t'
  pub same_address : address t' ≡ address t
  pub same_name : (tree_info t').name ≡ (tree_info t).name
  pub new : (a : ℕ) → has a t' ≡ true → has a t ≡ false → s.next ≤ a
  pub below : (a : ℕ) → has a t' ≡ true → a < s'.next
  pub outside : (a : ℕ) → a < s.next → has a t ≡ false → s'.cell a ≡ s.cell a
  pub later : s.next ≤ s'.next

-- A tree that is all in memory, its addresses below `next`.
pub record Lives (s : Store) (t : Tree) : Type 0 where
  pub holds : Holds s t
  pub separate : IsSeparate t
  pub below : (a : ℕ) → has a t ≡ true → a < s.next

pub Grown-refl : (s : Store) (t : Tree) → Lives s t → Grown s s t t
Grown-refl s t l = record {
  holds = l.holds;
  separate = l.separate;
  same_address = refl;
  same_name = refl;
  new = λ a inside away. ground arith;
  below = l.below;
  outside = λ a old away. refl;
  later = omega arith;
}

pub Grown-Lives : (s s' : Store) (t t' : Tree) → Grown s s' t t' → Lives s' t'
Grown-Lives s s' t t' g = record { holds = g.holds; separate = g.separate; below = g.below }

outside_trans :
    (s s' s'' : Store) (t t' t'' : Tree) (a : ℕ)
    → Grown s s' t t'
    → Grown s' s'' t' t''
    → a < s.next
    → has a t ≡ false
    → s''.cell a ≡ s.cell a
outside_trans s s' s'' t t' t'' a g h old away =
    let still : has a t' ≡ false = elim (Bool-cases (has a t')) [
      | inl there ↦ let late = g.new a there away in ground arith
      | inr gone ↦ gone
    ] in
    let later = g.later in h.outside a (omega arith) still ∙ g.outside a old away

pub Grown-trans :
    (s s' s'' : Store) (t t' t'' : Tree) → Grown s s' t t' → Grown s' s'' t' t'' → Grown s s'' t t''
Grown-trans s s' s'' t t' t'' g h =
    let first = g.later in
    let second = h.later in
    record {
      holds = h.holds;
      separate = h.separate;
      same_address = h.same_address ∙ g.same_address;
      same_name = h.same_name ∙ g.same_name;
      new = λ a inside away. elim (Bool-cases (has a t')) [
        | inl there ↦ g.new a there away
        | inr gone ↦ let late = h.new a inside gone in omega arith
      ];
      below = h.below;
      outside = λ a old away. outside_trans s s' s'' t t' t'' a g h old away;
      later = omega arith;
    }

-- A run that is defined, leaves the tree `t'` where `t` was, and makes of it the node `n`.
pub record Done (run : Exec Store) (s : Store) (t : Tree) (n : ChNode) : Type 0 where
  pub store : Store
  pub shape : Tree
  pub runs : run ≡ ret store
  pub grown : Grown s store t shape
  pub result : plain shape ≡ n
