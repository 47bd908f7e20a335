-- ===== src/Channels/Store/Run.antt =====
-- Runs of `addChannel` and `removeChannel` of src/ChTree.hpp, in memory and on the tree.
use k_mqttd.Base.{ℕ, ◌≡◌, refl, subst, List, [], ◌∷◌, Bool-cases, inl, inr, arith, Exec, ret, ◌>>=◌}
use k_mqttd.Channels
use k_mqttd.Channels.{ChNode, path_of, init_root}
use k_mqttd.Channels.Name.{is_channel}
use k_mqttd.Channels.Store
use k_mqttd.Channels.Store.{Store, init}
use k_mqttd.Channels.Store.Address.{Tree, tree, none_left, address, plain}
use k_mqttd.Channels.Store.Grown.{Done, Lives, Grown-refl, Grown-Lives}
use k_mqttd.Channels.Store.Add.{add_loop-Grown}
use k_mqttd.Channels.Store.Remove.{remove-Removed}

pub data Call : Type 0 where
  adds : List ℕ → Call
  removes : List ℕ → Call

-- In memory, from the root at `root`, and on the tree.
abbrev pub call : Call → ℕ → Store → Exec Store
call (adds channel) root s = Store.add_channel channel root s
call (removes channel) root s = Store.remove_channel channel root s

abbrev pub calls : List Call → ℕ → Store → Exec Store
calls [] root s = ret s
calls (c ∷ cs) root s = do s' ← call c root s; calls cs root s'

abbrev pub change : Call → ChNode → ChNode
change (adds channel) n = Channels.add_channel channel n
change (removes channel) n = Channels.remove_channel channel n

abbrev pub changes : List Call → ChNode → ChNode
changes [] n = n
changes (c ∷ cs) n = changes cs (change c n)

call-Done :
    (c : Call) (t : Tree) (s : Store)
    → Lives s t
    → Done (call c (address t) s) s t (change c (plain t))
unfolding Store.add_channel Store.remove_channel Channels.add_channel Channels.remove_channel
call-Done (adds channel) t s l = elim (Bool-cases (is_channel channel)) [
  | inl good ↦ rw good (add_loop-Grown (path_of channel) t s l)
  | inr bad ↦
      rw bad (record { store = s; shape = t; runs = refl; grown = Grown-refl s t l; result = refl })
]
call-Done (removes channel) t s l = elim (Bool-cases (is_channel channel)) [
  | inl good ↦
      let r = remove-Removed (path_of channel) t s l in
      let d = r.done in
      rw good (record {
        store = d.store;
        shape = d.shape;
        runs = rw r.collects d.runs;
        grown = d.grown;
        result = d.result;
      })
  | inr bad ↦
      rw bad (record { store = s; shape = t; runs = refl; grown = Grown-refl s t l; result = refl })
]

-- A tree that stands in memory with its root at `root`, each node at an address of its own.
pub record Stands (s : Store) (root : ℕ) (n : ChNode) : Type 0 where
  pub shape : Tree
  pub lives : Lives s shape
  pub at_root : address shape ≡ root
  pub is : plain shape ≡ n

calls-Stands :
    (cs : List Call) (t : Tree) (s : Store)
    → Lives s t
    → (s' : Store) × (calls cs (address t) s ≡ ret s')
      × Stands s' (address t) (changes cs (plain t))
calls-Stands [] t s l = (s, refl, record { shape = t; lives = l; at_root = refl; is = refl })
calls-Stands (c ∷ cs) t s l =
    let d = call-Done c t s l in
    let (s', runs, stands) =
      calls-Stands cs d.shape d.store (Grown-Lives s d.store t d.shape d.grown) in
    let same = d.grown.same_address in
    (
      s',
      rw d.runs (subst (λ a. calls cs a d.store ≡ ret s') same runs),
      subst (λ a. Stands s' a (changes cs (change c (plain t)))) same
          (subst (λ n. Stands s' (address d.shape) (changes cs n)) d.result stands),
    )

pub init-Stands : Stands init 0 init_root
init-Stands = record {
  shape = tree 0 (Channels.info init_root) none_left;
  lives = record { holds = (refl, tt); separate = (refl, tt); below = λ a inside. ground arith };
  at_root = refl;
  is = refl;
}

-- Where a tree stands in memory, any run of calls is defined, and leaves the tree that the same calls
-- make.
calls_stand :
    (cs : List Call) (s : Store) (root : ℕ) (n : ChNode)
    → Stands s root n
    → (s' : Store) × (calls cs root s ≡ ret s') × Stands s' root (changes cs n)
calls_stand cs s root n stands =
    let leaves =
      λ (a : ℕ) (m : ChNode). (s' : Store) × (calls cs a s ≡ ret s') × Stands s' a (changes cs m) in
    subst (λ a. leaves a n) stands.at_root
      (subst (leaves (address stands.shape)) stands.is
        (calls-Stands cs stands.shape s stands.lives))

-- Any run of calls from a new tree is defined in memory, and what stands in memory is the tree
-- that the same calls make, with no two of its nodes at one address.
pub calls-changes :
    (cs : List Call) → (s : Store) × (calls cs 0 init ≡ ret s) × Stands s 0 (changes cs init_root)
calls-changes cs = calls_stand cs init 0 init_root init-Stands
