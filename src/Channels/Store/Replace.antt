-- ===== src/Channels/Store/Replace.antt =====
-- A node of `ChTree` in memory of which one child changes.
use k_mqttd.Base.{
  false_if, ℕ, ◌<◌, ◌≤◌, true, false, ◌||◌, ◌==◌, ◌≡◌, refl, ap, sym, ◌∙◌, subst, some, List, ◌∷◌,
  bytes_eq, arith, Bool-cases, inl, inr,
}
use k_mqttd.Channels.{cons, Info, update_child}
use k_mqttd.Channels.Store.{Store}
use k_mqttd.Channels.Store.Address.{
  Tree, Trees, tree, none_left, more, address, addresses, plain, plain_all, has, has_any, HoldsAll,
  AllSeparate, named, kid, replace, frame, frame_all,
}
use k_mqttd.Channels.Store.Grown.{Grown, Lives}

-- A child that changes inside its own addresses.
pub kid-has :
    (str : List ℕ) (ts : Trees) (k : Tree) (a : ℕ)
    → kid str ts ≡ some k
    → has a k ≡ true
    → has_any a ts ≡ true
kid-has str none_left k a found inside = ground arith
kid-has str (more t ts) k a found inside = elim (Bool-cases (named str t)) [
  | inl hit ↦
      let here : some t ≡ some k = rw hit at found in
      let same : t ≡ k = cc here in let it : has a t ≡ true = rw same inside in rw it refl
  | inr miss ↦ let below = kid-has str ts k a (rw miss at found) inside in ground arith
]

replace-addresses :
    (str : List ℕ) (ts : Trees) (k k' : Tree)
    → kid str ts ≡ some k
    → address k' ≡ address k
    → addresses (replace str k' ts) ≡ addresses ts
replace-addresses str none_left k k' found same = refl
replace-addresses str (more t ts) k k' found same = elim (Bool-cases (named str t)) [
  | inl hit ↦
      let here : some t ≡ some k = rw hit at found in
      let it : t ≡ k = cc here in rw (hit, it, same) refl
  | inr miss ↦
      rw miss (ap (λ ps. address t ∷ ps) (replace-addresses str ts k k' (rw miss at found) same))
]

replace-HoldsAll :
    (s s' : Store) (str : List ℕ) (ts : Trees) (k k' : Tree)
    → kid str ts ≡ some k
    → Grown s s' k k'
    → HoldsAll s ts
    → AllSeparate ts
    → ((a : ℕ) → has_any a ts ≡ true → a < s.next)
    → HoldsAll s' (replace str k' ts)
replace-HoldsAll s s' str none_left k k' found g h d old = tt
replace-HoldsAll s s' str (more t ts) k k' found g (h, hs) (d, apart, ds) old =
    elim (Bool-cases (named str t)) [
      | inl hit ↦
          let here : some t ≡ some k = rw hit at found in
          let it : t ≡ k = cc here in
          rw hit (
            g.holds,
            frame_all s s' ts hs λ a inside.
                let away : has a t ≡ false =
                  (false_if (has a t) λ clash. let no = apart a clash in ground arith) in
                let away' : has a k ≡ false = subst (λ x. has a x ≡ false) it away in
                g.outside a (old a (ground arith)) away',
          )
      | inr miss ↦
          let rest = rw miss at found in
          rw miss (
            frame s s' t h (λ a inside.
                let away : has a k ≡ false =
                  (false_if (has a k) λ clash.
                    let no = apart a inside in
                    let yes = kid-has str ts k a rest clash in ground arith) in
                g.outside a (old a (ground arith)) away),
            replace-HoldsAll s s' str ts k k' rest g hs ds λ a inside. old a (ground arith),
          )
    ]

replace-new :
    (s s' : Store) (str : List ℕ) (ts : Trees) (k k' : Tree) (a : ℕ)
    → kid str ts ≡ some k
    → Grown s s' k k'
    → has_any a (replace str k' ts) ≡ true
    → has_any a ts ≡ false
    → s.next ≤ a
replace-new s s' str none_left k k' a found g inside away = ground arith
replace-new s s' str (more t ts) k k' a found g inside away = elim (Bool-cases (named str t)) [
  | inl hit ↦
      let here : some t ≡ some k = rw hit at found in
      let it : t ≡ k = cc here in
      let away' : has a k ≡ false = subst (λ x. has a x ≡ false) it (ground arith) in
      let inside' : has a k' || has_any a ts ≡ true = rw hit at inside in
      g.new a (ground arith) away'
  | inr miss ↦
      let inside' : has a t || has_any a (replace str k' ts) ≡ true = rw miss at inside in
      replace-new s s' str ts k k' a (rw miss at found) g (ground arith) (ground arith)
]

replace-below :
    (s s' : Store) (str : List ℕ) (ts : Trees) (k k' : Tree) (a : ℕ)
    → kid str ts ≡ some k
    → Grown s s' k k'
    → has_any a (replace str k' ts) ≡ true
    → has_any a ts ≡ false
    → a < s'.next
replace-below s s' str none_left k k' a found g inside away = ground arith
replace-below s s' str (more t ts) k k' a found g inside away = elim (Bool-cases (named str t)) [
  | inl hit ↦
      let inside' : has a k' || has_any a ts ≡ true = rw hit at inside in g.below a (ground arith)
  | inr miss ↦
      let inside' : has a t || has_any a (replace str k' ts) ≡ true = rw miss at inside in
      replace-below s s' str ts k k' a (rw miss at found) g (ground arith) (ground arith)
]

replace-AllSeparate :
    (s s' : Store) (str : List ℕ) (ts : Trees) (k k' : Tree)
    → kid str ts ≡ some k
    → Grown s s' k k'
    → AllSeparate ts
    → ((a : ℕ) → has_any a ts ≡ true → a < s.next)
    → AllSeparate (replace str k' ts)
replace-AllSeparate s s' str none_left k k' found g d old = tt
replace-AllSeparate s s' str (more t ts) k k' found g (d, apart, ds) old =
    elim (Bool-cases (named str t)) [
      | inl hit ↦
          let here : some t ≡ some k = rw hit at found in
          let it : t ≡ k = cc here in
          rw hit (
            g.separate,
            (λ a inside.
                (false_if (has_any a ts) λ clash. elim (Bool-cases (has a k)) [
                  | inl was ↦ apart a (subst (λ x. has a x ≡ true) (sym it) was)
                  | inr gone ↦
                      let late = g.new a inside gone in
                      let soon = old a (ground arith) in ground arith
                ])),
            ds,
          )
      | inr miss ↦
          let rest = rw miss at found in
          rw miss (
            d,
            (λ a inside.
                (false_if (has_any a (replace str k' ts)) λ clash.
                  let late = replace-new s s' str ts k k' a rest g clash (apart a inside) in
                  let soon = old a (ground arith) in ground arith)),
            replace-AllSeparate s s' str ts k k' rest g ds λ a inside. old a (ground arith),
          )
    ]

pub plain-replace :
    (str : List ℕ) (ts : Trees) (k' : Tree)
    → plain_all (replace str k' ts) ≡ update_child str (λ _. plain k') (plain_all ts)
plain-replace str none_left k' = refl
plain-replace str (more (tree p i us) ts) k' = elim (Bool-cases (bytes_eq str i.name)) [
  | inl hit ↦ rw hit refl
  | inr miss ↦ rw miss (ap (cons (plain (tree p i us))) (plain-replace str ts k'))
]

pub kid-Lives :
    (s : Store) (str : List ℕ) (ts : Trees) (k : Tree)
    → kid str ts ≡ some k
    → HoldsAll s ts
    → AllSeparate ts
    → ((a : ℕ) → has_any a ts ≡ true → a < s.next)
    → Lives s k
kid-Lives s str none_left k found h d old = ground arith
kid-Lives s str (more t ts) k found (h, hs) (d, apart, ds) old = elim (Bool-cases (named str t)) [
  | inl hit ↦
      let here : some t ≡ some k = rw hit at found in
      let it : t ≡ k = cc here in
      subst (Lives s) it
        (record { holds = h; separate = d; below = λ a inside. old a (ground arith) })
  | inr miss ↦ kid-Lives s str ts k (rw miss at found) hs ds λ a inside. old a (ground arith)
]

pub Grown-replace :
    (s s' : Store) (p : ℕ) (i : Info) (str : List ℕ) (ts : Trees) (k k' : Tree)
    → Lives s (tree p i ts)
    → kid str ts ≡ some k
    → Grown s s' k k'
    → Grown s s' (tree p i ts) (tree p i (replace str k' ts))
Grown-replace s s' p i str ts k k' l found g =
    let (here, hs) = l.holds in
    let (alone, ds) = l.separate in
    let old : (a : ℕ) → has_any a ts ≡ true → a < s.next = λ a inside. l.below a (ground arith) in
    let mine : p < s.next = l.below p (ground arith) in
    let grows = g.later in
    let inside_k : (a : ℕ) → has_any a ts ≡ false → has a k ≡ false = λ a away.
      (false_if (has a k) λ clash. let same = kid-has str ts k a found clash in ground arith) in
    record {
      holds = (
        g.outside p mine (inside_k p alone)
            ∙ here
            ∙ ap (λ ps. some (record { info = i; nodes = ps }))
                (sym (replace-addresses str ts k k' found g.same_address)),
        replace-HoldsAll s s' str ts k k' found g hs ds old,
      );
      separate = (
        (false_if (has_any p (replace str k' ts))
            λ clash. let late = replace-new s s' str ts k k' p found g clash alone in ground arith),
        replace-AllSeparate s s' str ts k k' found g ds old,
      );
      same_address = refl;
      same_name = refl;
      new = λ a inside away. replace-new s s' str ts k k' a found g (ground arith) (ground arith);
      below = λ a inside. elim (Bool-cases (a == p)) [
        | inl at ↦ ground arith
        | inr off ↦ elim (Bool-cases (has_any a ts)) [
          | inl was ↦ let soon = old a was in omega arith
          | inr fresh ↦ replace-below s s' str ts k k' a found g (ground arith) fresh
        ]
      ];
      outside = λ a soon away. g.outside a soon (inside_k a (ground arith));
      later = grows;
    }
