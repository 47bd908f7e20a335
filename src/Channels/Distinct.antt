-- ===== src/Channels/Distinct.antt =====
-- Siblings in the tree of src/ChTree.hpp have different names.
use k_mqttd.Base.{
  ℕ, ◌≡◌, true, false, refl, ap, sym, ◌∙◌, subst, none, some, List, [], ◌∷◌, bytes_eq, bytes_eq_iff,
  arith, Bool-cases, Option-cases, inl, inr,
}
use k_mqttd.Channels.{
  ChNode, ChNodes, node, nil, cons, info, new_node, is_named, child, update_child, remove_child,
  push_back, path_of, add_path, add_channel, remove_path, remove_channel,
}
use k_mqttd.Channels.Name.{is_channel}
use k_mqttd.Channels.Lookup.{KeepsName, child-push_back_ne}
use k_mqttd.Channels.Add.{add_path-KeepsName}
use k_mqttd.Channels.Back.{remove_path_elim, remove_path-name}

abbrev mutual
  pub IsDistinct : ChNode → Type 0
  IsDistinct (node i kids) = AllDistinct kids

  pub AllDistinct : ChNodes → Type 0
  AllDistinct nil = Unit
  AllDistinct (cons k ks) = IsDistinct k × (child (info k).name ks ≡ none) × AllDistinct ks

update_none :
    (q str : List ℕ) (f : ChNode → ChNode) (ks : ChNodes)
    → KeepsName f
    → child q ks ≡ none
    → child q (update_child str f ks) ≡ none
update_none q str f nil keeps gone = refl
update_none q str f (cons k ks) keeps gone = ground (arith, keeps k, update_none q str f ks)

update-AllDistinct :
    (str : List ℕ) (f : ChNode → ChNode) (ks : ChNodes)
    → KeepsName f
    → ((k : ChNode) → IsDistinct k → IsDistinct (f k))
    → AllDistinct ks
    → AllDistinct (update_child str f ks)
update-AllDistinct str f nil named keeps h = tt
update-AllDistinct str f (cons k ks) named keeps (hk, alone, hks) =
    elim (Bool-cases (is_named str k)) [
      | inl hit ↦ rw hit (keeps k hk, ap (λ q. child q ks) (named k) ∙ alone, hks)
      | inr miss ↦ rw miss (
        hk,
        update_none (info k).name str f ks named alone,
        update-AllDistinct str f ks named keeps hks,
      )
    ]

bytes_eq_swap : (s t : List ℕ) → bytes_eq s t ≡ false → bytes_eq t s ≡ false
bytes_eq_swap s t apart = elim (Bool-cases (bytes_eq t s)) [
  | inl same ↦
      let swapped : bytes_eq s t ≡ true = (bytes_eq_iff s t).1 (sym ((bytes_eq_iff t s).0 same)) in
      absurd (cc (apart, swapped))
  | inr apart' ↦ apart'
]

push_back-AllDistinct :
    (ks : ChNodes) (n : ChNode)
    → AllDistinct ks
    → IsDistinct n
    → child (info n).name ks ≡ none
    → AllDistinct (push_back ks n)
push_back-AllDistinct nil n h hn new = (hn, refl, tt)
push_back-AllDistinct (cons k ks) n (hk, alone, hks) hn new =
    elim (Bool-cases (is_named (info n).name k)) [
      | inl hit ↦ absurd (cc (rw hit at new))
      | inr miss ↦
          let apart = bytes_eq_swap (info n).name (info k).name miss in
          (
            hk,
            child-push_back_ne (info k).name ks n apart ∙ alone,
            push_back-AllDistinct ks n hks hn (rw miss at new),
          )
    ]

remove_none :
    (q str : List ℕ) (ks : ChNodes) → child q ks ≡ none → child q (remove_child str ks) ≡ none
remove_none q str nil gone = refl
remove_none q str (cons k ks) gone = ground (arith, remove_none q str ks)

remove-AllDistinct :
    (str : List ℕ) (ks : ChNodes) → AllDistinct ks → AllDistinct (remove_child str ks)
remove-AllDistinct str nil h = tt
remove-AllDistinct str (cons k ks) (hk, alone, hks) = elim (Bool-cases (is_named str k)) [
  | inl hit ↦ rw hit hks
  | inr miss ↦ rw miss (hk, remove_none (info k).name str ks alone, remove-AllDistinct str ks hks)
]

pub child-IsDistinct :
    (str : List ℕ) (ks : ChNodes) (k : ChNode)
    → child str ks ≡ some k
    → AllDistinct ks
    → IsDistinct k
child-IsDistinct str nil k e h = absurd (cc e)
child-IsDistinct str (cons k' ks) k e (hk, alone, hks) = elim (Bool-cases (is_named str k')) [
  | inl hit ↦ subst IsDistinct (cc (rw hit at e)) hk
  | inr miss ↦ child-IsDistinct str ks k (rw miss at e) hks
]

-- A child that is taken out by its name is gone.
pub remove_gone :
    (str : List ℕ) (ks : ChNodes) → AllDistinct ks → child str (remove_child str ks) ≡ none
remove_gone str nil h = refl
remove_gone str (cons k ks) (hk, alone, hks) = elim (Bool-cases (is_named str k)) [
  | inl hit ↦
      let named : str ≡ (info k).name = (bytes_eq_iff str (info k).name).0 hit in
      rw hit (ap (λ q. child q ks) named ∙ alone)
  | inr miss ↦ rw miss (rw miss (remove_gone str ks hks))
]

add_path-IsDistinct : (p : List (List ℕ)) (n : ChNode) → IsDistinct n → IsDistinct (add_path p n)
unfolding add_path
add_path-IsDistinct [] n h = h
add_path-IsDistinct (str ∷ rest) (node i kids) h = elim (Option-cases (child str kids)) [
  | inl gone ↦
      let new = add_path rest (new_node str) in
      let named : (info new).name ≡ str = add_path-KeepsName rest (new_node str) in
      rw (gone, add_path)
        (push_back-AllDistinct kids new h (add_path-IsDistinct rest (new_node str) tt)
          (ap (λ q. child q kids) named ∙ gone))
  | inr (k, found) ↦
      rw (found, add_path)
        (update-AllDistinct str (add_path rest) kids (add_path-KeepsName rest)
          (add_path-IsDistinct rest) h)
]

remove_path-IsDistinct :
    (p : List (List ℕ)) (n : ChNode) → IsDistinct n → IsDistinct (remove_path p n).0
unfolding remove_path
remove_path-IsDistinct [] n h = h
remove_path-IsDistinct (str ∷ rest) (node i kids) h =
    remove_path_elim IsDistinct str rest i kids (λ gone. h)
      (λ k found gone. remove-AllDistinct str kids h)
      (λ k found stays.
        update-AllDistinct str (λ n. (remove_path rest n).0) kids (remove_path-name rest)
          (remove_path-IsDistinct rest) h)

pub add_channel-IsDistinct :
    (channel : List ℕ) (root : ChNode) → IsDistinct root → IsDistinct (add_channel channel root)
unfolding add_channel
add_channel-IsDistinct channel root h = elim (Bool-cases (is_channel channel)) [
  | inl fits ↦ rw (fits, add_channel) (add_path-IsDistinct (path_of channel) root h)
  | inr not_fits ↦ rw (not_fits, add_channel) h
]

pub remove_channel-IsDistinct :
    (channel : List ℕ) (root : ChNode) → IsDistinct root → IsDistinct (remove_channel channel root)
unfolding remove_channel
remove_channel-IsDistinct channel root h = elim (Bool-cases (is_channel channel)) [
  | inl fits ↦ rw (fits, remove_channel) (remove_path-IsDistinct (path_of channel) root h)
  | inr not_fits ↦ rw (not_fits, remove_channel) h
]
