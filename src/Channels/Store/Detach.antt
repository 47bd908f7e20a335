-- ===== src/Channels/Store/Detach.antt =====
-- A node of `ChTree` in memory that loses a child.
use k_mqttd.Base.{
  false_if, ==_swap, ℕ, ◌+◌, ◌-◌, ◌%◌, ◌^◌, true, false, ◌||◌, ◌==◌, ◌≡◌, refl, ap, subst, some,
  List, ◌∷◌, bytes_eq, arith, Bool-cases, inl, inr, ret,
}
use k_mqttd.Channels.{cons, Info, remove_child}
use k_mqttd.Channels.Store.{Store, put, detach, remove_all}
use k_mqttd.Channels.Store.Address.{
  differ, Tree, Trees, tree, none_left, more, address, tree_info, addresses, plain, plain_all, has,
  has_any, HoldsAll, AllSeparate, named, kid, replace, frame_all, load_held, without, has_address,
}
use k_mqttd.Channels.Store.Grown.{Grown, Lives}
use k_mqttd.Channels.Store.Replace.{kid-has}

kid-named : (str : List ℕ) (ts : Trees) (k : Tree) → kid str ts ≡ some k → named str k ≡ true
kid-named str none_left k found = ground arith
kid-named str (more t ts) k found = elim (Bool-cases (named str t)) [
  | inl hit ↦
      let here : some t ≡ some k = rw hit at found in
      let it : t ≡ k = cc here in subst (λ x. named str x ≡ true) it hit
  | inr miss ↦ kid-named str ts k (rw miss at found)
]

remove_all-absent :
    (q : ℕ) (ts : Trees) → has_any q ts ≡ false → remove_all q (addresses ts) ≡ addresses ts
unfolding remove_all
remove_all-absent q none_left away = refl
remove_all-absent q (more t ts) away =
    let self = has_address t in
    let off : address t == q ≡ false = differ (λ x. has x t) (address t) q self (ground arith) in
    rw off (ap (λ ps. address t ∷ ps) (remove_all-absent q ts (ground arith)))

remove_all-addresses :
    (str : List ℕ) (ts : Trees) (k : Tree)
    → kid str ts ≡ some k
    → AllSeparate ts
    → remove_all (address k) (addresses ts) ≡ addresses (without str ts)
unfolding remove_all
remove_all-addresses str none_left k found ds = refl
remove_all-addresses str (more t ts) k found (d, apart, ds) = elim (Bool-cases (named str t)) [
  | inl hit ↦
      let here : some t ≡ some k = rw hit at found in
      let it : t ≡ k = cc here in
      let at : address t == address k ≡ true = rw it (ground arith) in
      let away : has_any (address k) ts ≡ false =
        apart (address k) (subst (λ x. has (address x) t ≡ true) it (has_address t)) in
      rw (hit, at) (remove_all-absent (address k) ts away)
  | inr miss ↦
      let rest : kid str ts ≡ some k = rw miss at found in
      let inside = kid-has str ts k (address k) rest (has_address k) in
      let away = apart (address t) (has_address t) in
      let off : address t == address k ≡ false =
        ==_swap (address k) (address t)
          (differ (λ x. has_any x ts) (address k) (address t) inside away) in
      rw (miss, off) (ap (λ ps. address t ∷ ps) (remove_all-addresses str ts k rest ds))
]

without-has :
    (str : List ℕ) (ts : Trees) (a : ℕ) → has_any a (without str ts) ≡ true → has_any a ts ≡ true
without-has str none_left a inside = inside
without-has str (more t ts) a inside = elim (Bool-cases (named str t)) [
  | inl hit ↦ let there : has_any a ts ≡ true = rw hit at inside in ground arith
  | inr miss ↦
      let there : has a t || has_any a (without str ts) ≡ true = rw miss at inside in
      elim (Bool-cases (has a t)) [
        | inl first ↦ ground arith
        | inr later ↦ let below = without-has str ts a (ground arith) in ground arith
      ]
]

without-HoldsAll :
    (s : Store) (str : List ℕ) (ts : Trees) → HoldsAll s ts → HoldsAll s (without str ts)
without-HoldsAll s str none_left hs = hs
without-HoldsAll s str (more t ts) (h, hs) = elim (Bool-cases (named str t)) [
  | inl hit ↦ rw hit hs
  | inr miss ↦ rw miss (h, without-HoldsAll s str ts hs)
]

without-AllSeparate : (str : List ℕ) (ts : Trees) → AllSeparate ts → AllSeparate (without str ts)
without-AllSeparate str none_left ds = ds
without-AllSeparate str (more t ts) (d, apart, ds) = elim (Bool-cases (named str t)) [
  | inl hit ↦ rw hit ds
  | inr miss ↦ rw miss (
    d,
    (λ a inside.
        (false_if (has_any a (without str ts)) λ clash.
          let there = without-has str ts a clash in let gone = apart a inside in ground arith)),
    without-AllSeparate str ts ds,
  )
]

pub plain-without :
    (str : List ℕ) (ts : Trees) → plain_all (without str ts) ≡ remove_child str (plain_all ts)
plain-without str none_left = refl
plain-without str (more (tree p i us) ts) = elim (Bool-cases (bytes_eq str i.name)) [
  | inl hit ↦ rw hit refl
  | inr miss ↦ rw miss (ap (cons (plain (tree p i us))) (plain-without str ts))
]

pub kid-replace :
    (str : List ℕ) (ts : Trees) (k k' : Tree)
    → kid str ts ≡ some k
    → (tree_info k').name ≡ (tree_info k).name
    → (kid str (replace str k' ts) ≡ some k') × (without str (replace str k' ts) ≡ without str ts)
kid-replace str none_left k k' found same = ground arith
kid-replace str (more t ts) k k' found same = elim (Bool-cases (named str t)) [
  | inl hit ↦
      let here = kid-named str (more t ts) k found in
      let there : named str k' ≡ true = rw same here in rw (hit, there) (refl, refl)
  | inr miss ↦
      let below = kid-replace str ts k k' (rw miss at found) same in
      rw miss (rw miss (below.0, ap (more t) below.1))
]

abbrev pub uncounted : Info → Info
uncounted i = record i { node_size = (i.node_size + 2 ^ 32 - 1) % 2 ^ 32 }

-- What `detach` leaves in memory.
abbrev pub without_kid : List ℕ → ℕ → Info → Trees → Store → Store
without_kid str p i ts s =
    put p (record { info = uncounted i; nodes = addresses (without str ts) }) s

pub detach-kid :
    (str : List ℕ) (p : ℕ) (i : Info) (ts : Trees) (k : Tree) (s : Store)
    → Lives s (tree p i ts)
    → kid str ts ≡ some k
    → detach (address k) p s ≡ ret (without_kid str p i ts s)
unfolding detach
detach-kid str p i ts k s l found =
    rw (load_held s p i ts l.holds, remove_all-addresses str ts k found l.separate.1) refl

without_kid-elsewhere :
    (str : List ℕ) (p : ℕ) (i : Info) (ts : Trees) (s : Store) (a : ℕ)
    → a == p ≡ false
    → (without_kid str p i ts s).cell a ≡ s.cell a
unfolding put
without_kid-elsewhere str p i ts s a off = rw off refl

pub Grown-without_kid :
    (str : List ℕ) (p : ℕ) (i : Info) (ts : Trees) (s : Store)
    → Lives s (tree p i ts)
    → Grown s (without_kid str p i ts s) (tree p i ts) (tree p (uncounted i) (without str ts))
unfolding put
Grown-without_kid str p i ts s l =
    let (here, hs) = l.holds in
    let (alone, ds) = l.separate in
    let at : p == p ≡ true = ground arith in
    record {
      holds = (
        rw at refl,
        without-HoldsAll (without_kid str p i ts s) str ts (
            frame_all s (without_kid str p i ts s) ts hs λ a inside.
              without_kid-elsewhere str p i ts s a (differ (λ x. has_any x ts) a p inside alone)),
      );
      separate = (
        (false_if (has_any p (without str ts))
            λ clash. let there = without-has str ts p clash in ground arith),
        without-AllSeparate str ts ds,
      );
      same_address = refl;
      same_name = refl;
      new = λ a inside away. elim (Bool-cases (has_any a (without str ts))) [
        | inl clash ↦ let there = without-has str ts a clash in ground arith
        | inr fine ↦ ground arith
      ];
      below = λ a inside. elim (Bool-cases (has_any a (without str ts))) [
        | inl clash ↦ let there = without-has str ts a clash in l.below a (ground arith)
        | inr fine ↦ l.below a (ground arith)
      ];
      outside = λ a soon away. without_kid-elsewhere str p i ts s a (ground arith);
      later = omega arith;
    }
