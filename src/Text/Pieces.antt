-- ===== src/Text/Pieces.antt =====
-- The reference for the two splitting functions: the pieces between the bytes that pass a test.
use k_mqttd.Base.{
  ◌||◌, Option-cases, subst, ==_iff, length-drop, ◌==◌, ℕ, zero, suc, ◌+◌, ◌-◌, ◌≤◌, ◌<◌, ◌≡◌, refl,
  ap, ◌∙◌, sym, Bool, false, none, some, List, [], ◌∷◌, ◌++◌, if◌then◌else◌, length, take, drop,
  arith, Bool-cases, inl, inr,
}
use k_mqttd.Text.{index_of, find_first_of, member}

abbrev cons_head : ℕ → List (List ℕ) → List (List ℕ)
cons_head c [] = (c ∷ []) ∷ []
cons_head c (p ∷ ps) = (c ∷ p) ∷ ps

abbrev pub pieces : (ℕ → Bool) → List ℕ → List (List ℕ)
pieces p [] = [] ∷ []
pieces p (c ∷ cs) = let rest = pieces p cs in if p c then [] ∷ rest else cons_head c rest

abbrev pub join : List ℕ → List (List ℕ) → List ℕ
join d [] = []
join d (p ∷ []) = p
join d (p ∷ q ∷ ps) = p ++ (d ++ join d (q ∷ ps))

pieces-none : (p : ℕ → Bool) (s : List ℕ) → index_of p s ≡ none → pieces p s ≡ s ∷ []
pieces-none p [] e = refl
pieces-none p (c ∷ cs) e = ground (arith, pieces-none p cs)

pieces-some :
    (p : ℕ → Bool) (s : List ℕ) (i : ℕ)
    → index_of p s ≡ some i
    → (pieces p s ≡ take i s ∷ pieces p (drop (suc i) s)) × (i < length s)
pieces-some p [] i e = ground arith
pieces-some p (c ∷ cs) zero e = ground arith
pieces-some p (c ∷ cs) (suc i) e = ground (arith, pieces-some p cs i)

drop-nil {ℓ} : {A : Type ℓ} (n : ℕ) → drop {A = A} n [] ≡ []
drop-nil zero = refl
drop-nil (suc n) = refl

drop-drop {ℓ} : {A : Type ℓ} (m n : ℕ) (xs : List A) → drop m (drop n xs) ≡ drop (n + m) xs
drop-drop m zero xs = let e : zero + m ≡ m = omega arith in rw e
drop-drop m (suc n) [] = rw (drop-nil m, drop-nil (suc n + m))
drop-drop m (suc n) (x ∷ xs) =
    let e : suc n + m ≡ suc (n + m) = omega arith in rw e (drop-drop m n xs)

-- The same at a position of a text, in the terms of `find_first_of`.
pub find_none :
    (s delim : List ℕ) (last : ℕ)
    → find_first_of s delim last ≡ none
    → pieces (λ c. member c delim) (drop last s) ≡ drop last s ∷ []
unfolding find_first_of
find_none s delim last e = ground (arith, pieces-none (λ c. member c delim) (drop last s))

find_at :
    (s delim : List ℕ) (last i : ℕ)
    → index_of (λ c. member c delim) (drop last s) ≡ some i
    → (pieces (λ c. member c delim) (drop last s)
        ≡ take (last + i - last) (drop last s)
          ∷ pieces (λ c. member c delim) (drop (last + i + 1) s))
      × (last ≤ last + i)
      × (last + i < length s)
find_at s delim last i e =
    let (cut, within) = pieces-some (λ c. member c delim) (drop last s) i e in
    let back : last + i - last ≡ i = omega arith in
    let on : last + i + 1 ≡ last + suc i = omega arith in
    (rw (back, on, ← drop-drop (suc i) last s) cut, omega arith, omega (arith, length-drop last s))

pub find_some :
    (s delim : List ℕ) (last index : ℕ)
    → find_first_of s delim last ≡ some index
    → (pieces (λ c. member c delim) (drop last s)
        ≡ take (index - last) (drop last s) ∷ pieces (λ c. member c delim) (drop (index + 1) s))
      × (last ≤ index)
      × (index < length s)
unfolding find_first_of
find_some s delim last index e =
    elim (Option-cases (index_of (λ c. member c delim) (drop last s))) [
      | inl nothing ↦ absurd (cc (nothing, e))
      | inr (i, found) ↦
          subst
            (λ k.
              (pieces (λ c. member c delim) (drop last s)
                ≡ take (k - last) (drop last s) ∷ pieces (λ c. member c delim) (drop (k + 1) s))
              × (last ≤ k)
              × (k < length s))
            (cc (found, e)) (find_at s delim last i found)
    ]

pub pieces_cons :
    (p : ℕ → Bool) (s : List ℕ) → (q : List ℕ) × (qs : List (List ℕ)) × (pieces p s ≡ q ∷ qs)
pieces_cons p [] = ([], [], refl)
pieces_cons p (c ∷ cs) = elim (Bool-cases (p c)) [
  | inl hit ↦ ([], pieces p cs, rw hit)
  | inr miss ↦ let (q, qs, e) = pieces_cons p cs in (c ∷ q, qs, rw (miss, e))
]

join-cons_head :
    (d : List ℕ) (c : ℕ) (q : List ℕ) (qs : List (List ℕ))
    → join d (cons_head c (q ∷ qs)) ≡ c ∷ join d (q ∷ qs)
join-cons_head d c q [] = refl
join-cons_head d c q (r ∷ qs) = refl

-- With one byte for the delimiter nothing is lost.
pub join-pieces : (d : ℕ) (s : List ℕ) → join (d ∷ []) (pieces (λ c. member c (d ∷ [])) s) ≡ s
join-pieces d [] = refl
join-pieces d (c ∷ cs) = elim (Bool-cases (c == d || false)) [
  | inl hit ↦
      let (q, qs, e) = pieces_cons (λ c. member c (d ∷ [])) cs in
      let same : c ≡ d = ground (arith, ==_iff c d) in
      rw (hit, e) (cc (ap (join (d ∷ [])) e, join-pieces d cs, same))
  | inr miss ↦
      let (q, qs, e) = pieces_cons (λ c. member c (d ∷ [])) cs in
      rw (miss, e)
        (join-cons_head (d ∷ []) c q qs
          ∙ ap (◌∷◌ c) (ap (join (d ∷ [])) (sym e) ∙ join-pieces d cs))
]
