-- ===== src/Channels/Shape.antt =====
-- The counters `node_size` of the tree of src/ChTree.hpp: what `addChannel` and `removeChannel`
-- keep.
use k_mqttd.Base.{
  ℕ, suc, ◌%◌, ◌^◌, ◌&&◌, ◌||◌, ◌≡◌, refl, subst, List, [], ◌∷◌, some, ◌==◌, arith, Bool-cases,
  Option-cases, inl, inr,
}
use k_mqttd.Channels.{
  ChNode, ChNodes, node, nil, cons, info, new_node, init_root, is_named, child, update_child,
  remove_child, push_back, path_of, add_path, add_channel, remove_path, remove_channel,
}
use k_mqttd.Channels.Name.{is_channel}

abbrev pub count : ChNodes → ℕ
count nil = 0
count (cons k ks) = suc (count ks)

-- In a subtree each counter is the number of children, as a 32-bit integer.
abbrev mutual
  pub IsCounted : ChNode → Type 0
  IsCounted (node i kids) = (i.node_size ≡ count kids % 2 ^ 32) × AllCounted kids

  pub AllCounted : ChNodes → Type 0
  AllCounted nil = Unit
  AllCounted (cons k ks) = IsCounted k × AllCounted ks

count-update :
    (str : List ℕ) (f : ChNode → ChNode) (ks : ChNodes) → count (update_child str f ks) ≡ count ks
count-update str f nil = refl
count-update str f (cons k ks) = ground (arith, count-update str f ks)

count-push_back : (ks : ChNodes) (n : ChNode) → count (push_back ks n) ≡ suc (count ks)
count-push_back nil n = refl
count-push_back (cons k ks) n = rw (count-push_back ks n) refl

count-remove :
    (str : List ℕ) (ks : ChNodes) (k : ChNode)
    → child str ks ≡ some k
    → suc (count (remove_child str ks)) ≡ count ks
count-remove str nil k e = absurd (cc e)
count-remove str (cons k' ks) k e = elim (Bool-cases (is_named str k')) [
  | inl hit ↦ rw hit refl
  | inr miss ↦ rw miss (omega (arith, count-remove str ks k (rw miss at e)))
]

update-AllCounted :
    (str : List ℕ) (f : ChNode → ChNode) (ks : ChNodes)
    → ((k : ChNode) → IsCounted k → IsCounted (f k))
    → AllCounted ks
    → AllCounted (update_child str f ks)
update-AllCounted str f nil keeps h = tt
update-AllCounted str f (cons k ks) keeps (hk, hks) = elim (Bool-cases (is_named str k)) [
  | inl hit ↦ rw hit (keeps k hk, hks)
  | inr miss ↦ rw miss (hk, update-AllCounted str f ks keeps hks)
]

push_back-AllCounted :
    (ks : ChNodes) (n : ChNode) → AllCounted ks → IsCounted n → AllCounted (push_back ks n)
push_back-AllCounted nil n h hn = (hn, tt)
push_back-AllCounted (cons k ks) n (hk, hks) hn = (hk, push_back-AllCounted ks n hks hn)

remove-AllCounted : (str : List ℕ) (ks : ChNodes) → AllCounted ks → AllCounted (remove_child str ks)
remove-AllCounted str nil h = tt
remove-AllCounted str (cons k ks) (hk, hks) = elim (Bool-cases (is_named str k)) [
  | inl hit ↦ rw hit hks
  | inr miss ↦ rw miss (hk, remove-AllCounted str ks hks)
]

pub child-IsCounted :
    (str : List ℕ) (ks : ChNodes) (k : ChNode) → child str ks ≡ some k → AllCounted ks → IsCounted k
child-IsCounted str nil k e h = absurd (cc e)
child-IsCounted str (cons k' ks) k e (hk, hks) = elim (Bool-cases (is_named str k')) [
  | inl hit ↦ subst IsCounted (cc (rw hit at e)) hk
  | inr miss ↦ child-IsCounted str ks k (rw miss at e) hks
]

add_path-IsCounted : (p : List (List ℕ)) (n : ChNode) → IsCounted n → IsCounted (add_path p n)
unfolding add_path
add_path-IsCounted [] n h = h
add_path-IsCounted (str ∷ rest) (node i kids) (sized, h) = elim (Option-cases (child str kids)) [
  | inl gone ↦
      let new = add_path-IsCounted rest (new_node str) (refl, tt) in
      rw (gone, add_path)
        (
          omega (arith, sized, count-push_back kids (add_path rest (new_node str))),
          push_back-AllCounted kids (add_path rest (new_node str)) h new,
        )
  | inr (k, found) ↦
      rw (found, add_path)
        (
          omega (arith, sized, count-update str (add_path rest) kids),
          update-AllCounted str (add_path rest) kids (add_path-IsCounted rest) h,
        )
]

pub remove_path-IsCounted :
    (p : List (List ℕ)) (n : ChNode) → IsCounted n → IsCounted (remove_path p n).0
unfolding remove_path
remove_path-IsCounted [] n h = h
remove_path-IsCounted (str ∷ rest) (node i kids) (sized, h) = elim (Option-cases (child str kids)) [
  | inl gone ↦ rw (gone, remove_path) (sized, h)
  | inr (k, found) ↦
      let below = remove_path-IsCounted rest k (child-IsCounted str kids k found h) in
      let k' = (remove_path rest k).0 in
      let goes = (remove_path rest k).1 || ((info k').node_size == 0 && (info k').user_size == 0) in
      elim (Bool-cases goes) [
        | inl gone ↦
            rw (found, remove_path, gone)
              (omega (arith, sized, count-remove str kids k found), remove-AllCounted str kids h)
        | inr stays ↦
            rw (found, remove_path, stays)
              (
                omega (arith, sized, count-update str (λ _. k') kids),
                update-AllCounted str (λ _. k') kids (λ _ _. below) h,
              )
      ]
]

-- `initRoot` makes a root whose counters are right.
pub init_root-IsCounted : IsCounted init_root
init_root-IsCounted = (refl, tt)

-- `addChannel` keeps the counters of all nodes equal to the numbers of their children.
pub add_channel-IsCounted :
    (channel : List ℕ) (root : ChNode) → IsCounted root → IsCounted (add_channel channel root)
unfolding add_channel
add_channel-IsCounted channel root h = elim (Bool-cases (is_channel channel)) [
  | inl fits ↦ rw (fits, add_channel) (add_path-IsCounted (path_of channel) root h)
  | inr not_fits ↦ rw (not_fits, add_channel) h
]

-- So does `removeChannel`, whose `node_size -= 1` never wraps around for want of a child.
pub remove_channel-IsCounted :
    (channel : List ℕ) (root : ChNode) → IsCounted root → IsCounted (remove_channel channel root)
unfolding remove_channel
remove_channel-IsCounted channel root h = elim (Bool-cases (is_channel channel)) [
  | inl fits ↦ rw (fits, remove_channel) (remove_path-IsCounted (path_of channel) root h)
  | inr not_fits ↦ rw (not_fits, remove_channel) h
]
