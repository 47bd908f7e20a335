-- ===== src/Channels/Store/Fresh.antt =====
-- A node of `ChTree` in memory that gets a new child.
use k_mqttd.Base.{
  ℕ, ◌+◌, ◌%◌, ◌^◌, ◌<◌, true, false, ◌||◌, ◌==◌, ◌≡◌, refl, ap, none, some, List, [], ◌∷◌, ◌++◌,
  arith, Bool-cases, inl, inr,
}
use k_mqttd.Channels.{cons, Info, push_back}
use k_mqttd.Channels.Store.{Store, put, alloc, new_cell}
use k_mqttd.Channels.Store.Address.{
  differ, Tree, Trees, tree, none_left, more, address, addresses, plain, plain_all, has, has_any,
  Holds, HoldsAll, IsSeparate, AllSeparate, named, kid, replace, frame_all, at_end,
}
use k_mqttd.Channels.Store.Grown.{Grown, Lives}

addresses-at_end :
    (ts : Trees) (k : Tree) → addresses (at_end ts k) ≡ addresses ts ++ (address k ∷ [])
addresses-at_end none_left k = refl
addresses-at_end (more t ts) k = ap (λ ps. address t ∷ ps) (addresses-at_end ts k)

has_any-at_end :
    (a : ℕ) (ts : Trees) (k : Tree) → has_any a (at_end ts k) ≡ (has_any a ts || has a k)
has_any-at_end a none_left k = ground arith
has_any-at_end a (more t ts) k = let below = has_any-at_end a ts k in ground arith

at_end-HoldsAll :
    (s : Store) (ts : Trees) (k : Tree) → HoldsAll s ts → Holds s k → HoldsAll s (at_end ts k)
at_end-HoldsAll s none_left k hs h = (h, tt)
at_end-HoldsAll s (more t ts) k (h', hs) h = (h', at_end-HoldsAll s ts k hs h)

at_end-AllSeparate :
    (ts : Trees) (k : Tree)
    → AllSeparate ts
    → IsSeparate k
    → ((a : ℕ) → has_any a ts ≡ true → has a k ≡ false)
    → AllSeparate (at_end ts k)
at_end-AllSeparate none_left k ds d apart = (d, (λ a inside. refl), tt)
at_end-AllSeparate (more t ts) k (d', apart', ds) d apart = (
  d',
  (λ a inside.
      let off = apart a (ground arith) in
      let off' = apart' a inside in let both = has_any-at_end a ts k in ground arith),
  at_end-AllSeparate ts k ds d λ a inside. apart a (ground arith),
)

pub kid-at_end :
    (str : List ℕ) (ts : Trees) (k : Tree)
    → kid str ts ≡ none
    → named str k ≡ true
    → kid str (at_end ts k) ≡ some k
kid-at_end str none_left k missing hit = rw hit refl
kid-at_end str (more t ts) k missing hit = elim (Bool-cases (named str t)) [
  | inl there ↦ let found : some t ≡ none = rw there at missing in ground arith
  | inr miss ↦ rw miss (kid-at_end str ts k (rw miss at missing) hit)
]

pub replace-at_end :
    (str : List ℕ) (ts : Trees) (k k' : Tree)
    → kid str ts ≡ none
    → named str k ≡ true
    → replace str k' (at_end ts k) ≡ at_end ts k'
replace-at_end str none_left k k' missing hit = rw hit refl
replace-at_end str (more t ts) k k' missing hit = elim (Bool-cases (named str t)) [
  | inl there ↦ let found : some t ≡ none = rw there at missing in ground arith
  | inr miss ↦ rw miss (ap (more t) (replace-at_end str ts k k' (rw miss at missing) hit))
]

pub plain-at_end :
    (ts : Trees) (k : Tree) → plain_all (at_end ts k) ≡ push_back (plain_all ts) (plain k)
plain-at_end none_left k = refl
plain-at_end (more t ts) k = ap (cons (plain t)) (plain-at_end ts k)

-- A node with one more child.
abbrev pub counted : Info → Info
counted i = record i { node_size = (i.node_size + 1) % 2 ^ 32 }

abbrev pub fresh_tree : List ℕ → ℕ → Tree
fresh_tree str p = tree p (new_cell str).info none_left

abbrev pub with_new : List ℕ → ℕ → Info → Trees → Store → Store
with_new str p i ts s =
    put p (record { info = counted i; nodes = addresses ts ++ (s.next ∷ []) })
      (alloc (new_cell str) s)

with_new-elsewhere :
    (str : List ℕ) (p : ℕ) (i : Info) (ts : Trees) (s : Store) (a : ℕ)
    → a < s.next
    → a == p ≡ false
    → (with_new str p i ts s).cell a ≡ s.cell a
unfolding put alloc
with_new-elsewhere str p i ts s a soon off =
    let away : a == s.next ≡ false = ground arith in rw (off, away) refl

pub Grown-with_new :
    (str : List ℕ) (p : ℕ) (i : Info) (ts : Trees) (s : Store)
    → Lives s (tree p i ts)
    → Grown s
        (with_new str p i ts s)
        (tree p i ts)
        (tree p (counted i) (at_end ts (fresh_tree str s.next)))
unfolding put alloc
Grown-with_new str p i ts s l =
    let k = fresh_tree str s.next in
    let (here, hs) = l.holds in
    let (alone, ds) = l.separate in
    let mine : p < s.next = l.below p (ground arith) in
    let old : (a : ℕ) → has_any a ts ≡ true → a < s.next = λ a inside. l.below a (ground arith) in
    let off : s.next == p ≡ false = ground arith in
    let at : p == p ≡ true = ground arith in
    let there : s.next == s.next ≡ true = ground arith in
    record {
      holds = (
        rw (at, addresses-at_end ts k) refl,
        at_end-HoldsAll (with_new str p i ts s) ts k
            (frame_all s (with_new str p i ts s) ts hs λ a inside.
              with_new-elsewhere str p i ts s a (old a inside)
                (differ (λ x. has_any x ts) a p inside alone))
            (rw (off, there) refl, tt),
      );
      separate = (
        rw (has_any-at_end p ts k)
            (let apart : p == s.next ≡ false = ground arith in rw (alone, apart) refl),
        at_end-AllSeparate ts k ds (refl, tt) λ a inside. let soon = old a inside in ground arith,
      );
      same_address = refl;
      same_name = refl;
      new = λ a inside away. let both = has_any-at_end a ts k in ground arith;
      below = λ a inside.
          let both = has_any-at_end a ts k in
          elim (Bool-cases (has a (tree p i ts))) [
            | inl was ↦ let soon = l.below a was in omega arith
            | inr fine ↦ let at_end_of : a ≡ s.next = ground arith in omega arith
          ];
      outside = λ a soon away. with_new-elsewhere str p i ts s a soon (ground arith);
      later = omega arith;
    }
