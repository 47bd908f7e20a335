-- ===== src/Channels/Back.antt =====
-- One level of `removeChannel` of src/ChTree.hpp, on the way back.
use k_mqttd.Base.{
  ℕ, ◌+◌, ◌-◌, ◌%◌, ◌^◌, ◌≡◌, Bool, true, false, ◌&&◌, ◌||◌, ◌==◌, refl, ap, sym, subst, none, some,
  List, [], ◌∷◌, Bool-cases, Option-cases, inl, inr,
}
use k_mqttd.Channels.{
  ChNode, ChNodes, node, nil, cons, Info, info, is_named, child, update_child, remove_child,
  remove_path,
}

-- Whether `removeChannel` takes out a child that it has come back from.
abbrev pub goes : ChNode × Bool → Bool
goes r = r.1 || ((info r.0).node_size == 0 && (info r.0).user_size == 0)

-- What it leaves of a node with a child on the path.
pub remove_path_known :
    (str : List ℕ) (rest : List (List ℕ)) (i : Info) (kids : ChNodes) (k : ChNode)
    → child str kids ≡ some k
    → goes (remove_path rest k) ≡ true
    → remove_path (str ∷ rest) (node i kids) ≡ (
      node (record i { node_size = (i.node_size + 2 ^ 32 - 1) % 2 ^ 32 }) (remove_child str kids),
      false,
    )
unfolding remove_path
remove_path_known str rest i kids k found gone = rw (found, remove_path, gone) refl

pub update_found :
    (str : List ℕ) (f : ChNode → ChNode) (ks : ChNodes) (k : ChNode)
    → child str ks ≡ some k
    → update_child str (λ _. f k) ks ≡ update_child str f ks
update_found str f nil k e = refl
update_found str f (cons k' ks) k e = elim (Bool-cases (is_named str k')) [
  | inl hit ↦
      let here : some k' ≡ some k = rw hit at e in
      let same : k' ≡ k = cc here in rw hit (ap (λ x. cons (f x) ks) (sym same))
  | inr miss ↦ rw miss (ap (cons k') (update_found str f ks k (rw miss at e)))
]

pub remove_path_kept :
    (str : List ℕ) (rest : List (List ℕ)) (i : Info) (kids : ChNodes) (k : ChNode)
    → child str kids ≡ some k
    → goes (remove_path rest k) ≡ false
    → remove_path (str ∷ rest) (node i kids)
      ≡ (node i (update_child str (λ n. (remove_path rest n).0) kids), false)
unfolding remove_path
remove_path_kept str rest i kids k found stays =
    rw (found, remove_path, stays)
      (ap (λ ks. (node i ks, false)) (update_found str (λ n. (remove_path rest n).0) kids k found))

pub remove_path-end :
    (str : List ℕ) (rest : List (List ℕ)) (i : Info) (kids : ChNodes)
    → child str kids ≡ none
    → remove_path (str ∷ rest) (node i kids) ≡ (node i kids, true)
unfolding remove_path
remove_path-end str rest i kids gone = rw (gone, remove_path) refl

-- A property of what `removeChannel` leaves, by the three cases.
pub remove_path_elim {ℓ} :
    (P : ChNode → Type ℓ) (str : List ℕ) (rest : List (List ℕ)) (i : Info) (kids : ChNodes)
    → (child str kids ≡ none → P (node i kids))
    → ((k : ChNode)
        → child str kids ≡ some k
        → goes (remove_path rest k) ≡ true
        → P (
            node
              (record i { node_size = (i.node_size + 2 ^ 32 - 1) % 2 ^ 32 })
              (remove_child str kids)))
    → ((k : ChNode)
        → child str kids ≡ some k
        → goes (remove_path rest k) ≡ false
        → P (node i (update_child str (λ n. (remove_path rest n).0) kids)))
    → P (remove_path (str ∷ rest) (node i kids)).0
remove_path_elim P str rest i kids at_end known kept =
    let at = λ (r : ChNode × Bool). P r.0 in
    elim (Option-cases (child str kids)) [
      | inl gone ↦ subst at (sym (remove_path-end str rest i kids gone)) (at_end gone)
      | inr (k, found) ↦ elim (Bool-cases (goes (remove_path rest k))) [
        | inl gone ↦
            subst at (sym (remove_path_known str rest i kids k found gone)) (known k found gone)
        | inr stays ↦
            subst at (sym (remove_path_kept str rest i kids k found stays)) (kept k found stays)
      ]
    ]

pub remove_path-name :
    (p : List (List ℕ)) (n : ChNode) → (info (remove_path p n).0).name ≡ (info n).name
unfolding remove_path
remove_path-name [] n = refl
remove_path-name (str ∷ rest) (node i kids) =
    remove_path_elim (λ n. (info n).name ≡ i.name) str rest i kids (λ gone. refl)
      (λ k found gone. refl) (λ k found stays. refl)
