-- ===== src/Channels/Store/Visit.antt =====
-- The second loop of `removeChannel` of src/ChTree.hpp in memory.
use k_mqttd.Base.{
  ℕ, ◌&&◌, Bool, false, ◌||◌, ◌==◌, ◌≡◌, refl, sym, ◌∙◌, Option, some, List, [], ◌∷◌, ◌++◌,
  if◌then◌else◌, Bool-cases, inl, inr, >>=-elim, ret, undef, Exec, ◌>>=◌,
}
use k_mqttd.Channels.{ChNode, child, info}
use k_mqttd.Channels.Store.{Cell, Store, load, detach, visit, unwind}
use k_mqttd.Channels.Store.Address.{
  Tree, Trees, tree, address, tree_info, addresses, plain, Holds, load_held,
}
use k_mqttd.Channels.Back.{goes}

bind_ret {ℓ} : {A : Type ℓ} (m : Exec A) → (m >>= λ x. ret x) ≡ m
bind_ret (ret a) = refl
bind_ret undef = refl

abbrev kids : Tree → Trees
kids (tree p i ts) = ts

-- The rounds down to `q`, and the one that follows.
pub unwind-last :
    (last : ℕ) (child : Option ℕ) (ps : List ℕ) (q p : ℕ) (s s' : Store)
    → unwind last child (ps ++ (q ∷ [])) s ≡ ret s'
    → unwind last child ((ps ++ (q ∷ [])) ++ (p ∷ [])) s ≡ visit last (some q) p s'
unfolding unwind
unwind-last last child [] q p s s' e =
    >>=-elim (visit last child q s) (λ s1. ret s1) e
      λ s1 here same.
        let it : s1 ≡ s' = cc same in rw (here, it) (bind_ret (visit last (some q) p s'))
unwind-last last child (p' ∷ ps) q p s s' e =
    >>=-elim (visit last child p' s) (λ s1. unwind last (some p') (ps ++ (q ∷ [])) s1) e
      λ s1 here rest. rw here (unwind-last last (some p') ps q p s1 s' rest)

-- A round at a node whose child is not the deepest, or is.
visit_above :
    (last q p : ℕ) (c : Cell) (s : Store)
    → p == last ≡ false
    → load q s ≡ ret c
    → visit last (some q) p s ≡ (
        if q == last || (c.info.node_size == 0 && c.info.user_size == 0)
        then detach q p s
        else ret s)
unfolding visit
visit_above last q p c s off here =
    rw (off, here)
      (elim (Bool-cases (q == last)) [ inl hit ↦ rw hit refl | inr miss ↦ rw miss refl ])

load_tree :
    (t : Tree) (s : Store)
    → Holds s t
    → load (address t) s ≡ ret (record { info = tree_info t; nodes = addresses (kids t) })
load_tree (tree p i ts) s h = load_held s p i ts h

info-plain : (t : Tree) → info (plain t) ≡ tree_info t
info-plain (tree p i ts) = refl

-- One level on the way back.
pub visit-goes :
    (last p : ℕ) (s : Store) (k' : Tree) (r : ChNode × Bool)
    → p == last ≡ false
    → Holds s k'
    → plain k' ≡ r.0
    → r.1 ≡ (address k' == last)
    → visit last (some (address k')) p s ≡ (if goes r then detach (address k') p s else ret s)
visit-goes last p s k' r off h same ends =
    visit_above last (address k') p (record { info = tree_info k'; nodes = addresses (kids k') }) s
      off (load_tree k' s h)
    ∙ rw (sym same, ends, info-plain k') refl
