-- ===== src/Text/Trim.antt =====
-- `CppUtils::trim`: the text without the white space at its ends, and nothing else taken off.
use k_mqttd.Base.{
  ℕ, suc, ◌+◌, ◌≡◌, refl, ap, ◌∙◌, sym, Bool, true, false, not, none, some, ◌==◌, List, [], ◌∷◌,
  ◌++◌, if◌then◌else◌, length, take, drop, All, arith, Bool-cases, Option-cases, inl, inr,
}
use k_mqttd.Text.{member, index_of, last_index_of, whitespace, erase_front, erase_back, trim}

abbrev is_black : ℕ → Bool
is_black c = not (member c whitespace)

-- All bytes fail a test; the first passes it; the last passes it.
module _ (p : ℕ → Bool) where
  abbrev pub AllFail : List ℕ → Type 0
  AllFail = All (λ c. p c ≡ false)

  abbrev pub Starts : List ℕ → Type 0
  Starts [] = Unit
  Starts (c ∷ cs) = p c ≡ true

  abbrev pub Ends : List ℕ → Type 0
  Ends [] = Unit
  Ends (c ∷ []) = p c ≡ true
  Ends (c ∷ d ∷ cs) = Ends (d ∷ cs)

-- What the two erasures leave of a text with one more byte in front, for any test of a byte.
module _ (p : ℕ → Bool) where
  abbrev from_first : List ℕ → List ℕ
  from_first s = elim (index_of p s) [ none ↦ [] | some i ↦ drop i s ]

  abbrev to_last : List ℕ → List ℕ
  to_last s = elim (last_index_of p s) [ none ↦ [] | some i ↦ take (i + 1) s ]

  from_first_miss : (c : ℕ) (cs : List ℕ) → p c ≡ false → from_first (c ∷ cs) ≡ from_first cs
  from_first_miss c cs miss = ground arith

  from_first_hit : (c : ℕ) (cs : List ℕ) → p c ≡ true → from_first (c ∷ cs) ≡ c ∷ cs
  from_first_hit c cs hit = ground arith

  to_last-some :
      (c : ℕ) (cs : List ℕ) (i : ℕ)
      → last_index_of p cs ≡ some i
      → to_last (c ∷ cs) ≡ c ∷ to_last cs
  to_last-some c cs i found =
      let e : suc i + 1 ≡ suc (i + 1) = omega arith in rw (found, to_last, e) refl

  to_last_cons :
      (s : List ℕ) (i : ℕ)
      → last_index_of p s ≡ some i
      → (d : ℕ) × (ds : List ℕ) × (to_last s ≡ d ∷ ds)
  to_last_cons [] i found = absurd (cc found)
  to_last_cons (d ∷ ds) i found =
      let e : i + 1 ≡ suc i = omega arith in (d, take i ds, rw (to_last, found, e) refl)

  to_last-none :
      (c : ℕ) (cs : List ℕ)
      → last_index_of p cs ≡ none
      → to_last (c ∷ cs) ≡ (if p c then c ∷ [] else [])
  to_last-none c cs gone = ground arith

  from_first_lem :
      (s : List ℕ)
      → (front : List ℕ) × AllFail p front × (s ≡ front ++ from_first s) × Starts p (from_first s)
  from_first_lem [] = ([], tt, refl, tt)
  from_first_lem (c ∷ cs) = elim (Bool-cases (p c)) [
    | inl hit ↦ let e = from_first_hit c cs hit in ([], tt, sym e, rw e hit)
    | inr miss ↦
        let (front, all, cut, starts) = from_first_lem cs in
        let e = from_first_miss c cs miss in
        (c ∷ front, (miss, all), rw e (ap (λ t. c ∷ t) cut), rw e starts)
  ]

  Ends-cons : (c : ℕ) (s : List ℕ) (d : ℕ) (ds : List ℕ) → s ≡ d ∷ ds → Ends p s → Ends p (c ∷ s)
  Ends-cons c s d ds e h = rw e (rw e at h)

  to_last_lem :
      (s : List ℕ) → (back : List ℕ) × AllFail p back × (s ≡ to_last s ++ back) × Ends p (to_last s)
  to_last_lem [] = ([], tt, refl, tt)
  to_last_lem (c ∷ cs) =
      let (back, all, cut, ends) = to_last_lem cs in
      elim (Option-cases (last_index_of p cs)) [
        | inl gone ↦
            let e = to_last-none c cs gone in
            let empty : to_last cs ≡ [] = rw (to_last, gone) refl in
            let rest : cs ≡ back = cut ∙ rw empty refl in
            elim (Bool-cases (p c)) [
              | inl hit ↦
                  let f : to_last (c ∷ cs) ≡ c ∷ [] = rw hit at e in
                  (back, all, rw f (ap (λ t. c ∷ t) rest), rw f hit)
              | inr miss ↦
                  let f : to_last (c ∷ cs) ≡ [] = rw miss at e in
                  (c ∷ back, (miss, all), rw f (ap (λ t. c ∷ t) rest), rw f tt)
            ]
        | inr (i, found) ↦
            let e = to_last-some c cs i found in
            (
              back,
              all,
              rw e (ap (λ t. c ∷ t) cut),
              let (d, ds, full) = to_last_cons cs i found in
                  rw e (Ends-cons c (to_last cs) d ds full ends),
            )
      ]

  Starts-to_last : (s : List ℕ) → Starts p s → Starts p (to_last s)
  Starts-to_last [] h = tt
  Starts-to_last (c ∷ cs) h = elim (Option-cases (last_index_of p cs)) [
    | inl gone ↦ rw (to_last-none c cs gone, h) h
    | inr (i, found) ↦ rw (to_last-some c cs i found) h
  ]

trim_nil : trim [] ≡ []
unfolding trim
trim_nil = refl

trim_cons : (c : ℕ) (cs : List ℕ) → trim (c ∷ cs) ≡ to_last is_black (from_first is_black (c ∷ cs))
unfolding trim erase_front erase_back
trim_cons c cs = let full : (length (c ∷ cs) == 0) ≡ false = ground arith in rw (trim, full) refl

-- `trim` takes white space off the two ends, and what is left neither begins nor ends with one.
trim_lem :
    (s : List ℕ)
    → (front : List ℕ) × (back : List ℕ) × AllFail is_black front
      × AllFail is_black back
      × (s ≡ front ++ (trim s ++ back))
      × Starts is_black (trim s)
      × Ends is_black (trim s)
trim_lem [] = ([], [], tt, tt, rw trim_nil refl, rw trim_nil tt, rw trim_nil tt)
trim_lem (c ∷ cs) =
    let s = c ∷ cs in
    let e = trim_cons c cs in
    let (front, front_white, cut, starts) = from_first_lem is_black s in
    let (back, back_white, cut', ends) = to_last_lem is_black (from_first is_black s) in
    (
      front,
      back,
      front_white,
      back_white,
      rw e (cut ∙ ap (λ t. front ++ t) cut'),
      rw e (Starts-to_last is_black (from_first is_black s) starts),
      rw e ends,
    )
