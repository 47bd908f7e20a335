-- ===== src/Text/Split.antt =====
-- `CppUtils::split`, `startWith` and `endWith`.
use k_mqttd.Base.{
  ℕ, zero, suc, ◌+◌, ◌-◌, ◌≤◌, ◌<◌, ◌≡◌, refl, ap, ◌∙◌, sym, Bool, false, none, some, List, [], ◌∷◌,
  ◌++◌, ◌==◌, if◌then◌else◌, length, length-append, length-drop, take, drop, arith, Option-cases,
  inl, inr, append_assoc,
}
use k_mqttd.Text.{
  member, npos, find_first_of, substr, push_last, split_loop, split, start_with, end_with,
  last_index_of,
}
use k_mqttd.Text.Pieces.{pieces, join, find_none, find_some, join-pieces}

take_all {ℓ} : {A : Type ℓ} (n : ℕ) (xs : List A) → length xs ≤ n → take n xs ≡ xs
take_all zero [] h = refl
take_all (suc n) [] h = refl
take_all zero (x ∷ xs) h = absurd (omega arith)
take_all (suc n) (x ∷ xs) h = ap (◌∷◌ x) (take_all n xs (omega arith))

-- The rest of a text that fits memory is pushed whole.
pub push_last_lem :
    (s : List ℕ) (last : ℕ) (out : List (List ℕ))
    → length s < npos
    → last ≤ length s
    → push_last s last out ≡ out ++ (drop last s ∷ [])
unfolding push_last substr
push_last_lem s last out h within =
    ground (arith, take_all (npos - last) (drop last s), length-drop last s)

split_loop-pieces :
    (rounds : ℕ) (s delim : List ℕ) (last : ℕ) (out : List (List ℕ))
    → length s < npos
    → last ≤ length s
    → length s - last < rounds
    → split_loop rounds s delim last out ≡ some (out ++ pieces (λ c. member c delim) (drop last s))
unfolding split_loop substr
split_loop-pieces zero s delim last out h within enough = absurd (omega arith)
split_loop-pieces (suc rounds) s delim last out h within enough =
    elim (Option-cases (find_first_of s delim last)) [
      | inl e ↦
          rw (e, split_loop) (rw (find_none s delim last e, push_last_lem s last out h within))
      | inr (index, e) ↦
          let (cut, forth, inside) = find_some s delim last index e in
          rw (e, split_loop)
            (split_loop-pieces rounds s delim (index + 1)
                (out ++ (take (index - last) (drop last s) ∷ [])) h (omega arith) (omega arith)
              ∙ ap some (append_assoc out _ _ ∙ ap (◌++◌ out) (sym cut)))
    ]

-- `split` ends on every text and returns its pieces between the bytes of `delim`, the empty ones
-- included.
split-pieces :
    (s delim : List ℕ) → length s < npos → split s delim ≡ some (pieces (λ c. member c delim) s)
unfolding split
split-pieces s delim h = split_loop-pieces (length s + 1) s delim 0 [] h (omega arith) (omega arith)

-- `split` at one byte ends on every text, and joining the pieces by that byte gives the text back.
join-split :
    (s : List ℕ) (d : ℕ)
    → length s < npos
    → (ps : List (List ℕ)) × (split s (d ∷ []) ≡ some ps) × (join (d ∷ []) ps ≡ s)
join-split s d h = (pieces (λ c. member c (d ∷ [])) s, split-pieces s (d ∷ []) h, join-pieces d s)

-- `startWith` looks at the first byte alone: it holds where that is one of the bytes of `delim`.
start_with_lem : (c : ℕ) (s delim : List ℕ) → start_with (c ∷ s) delim ≡ member c delim
unfolding start_with find_first_of
start_with_lem c s delim = ground arith

last_index_of-append :
    (p : ℕ → Bool) (s : List ℕ) (c : ℕ)
    → last_index_of p (s ++ (c ∷ [])) ≡ (if p c then some (length s) else last_index_of p s)
last_index_of-append p [] c = ground arith
last_index_of-append p (x ∷ s) c = ground (arith, last_index_of-append p s c)

last_index_of-lt : (p : ℕ → Bool) (s : List ℕ) (i : ℕ) → last_index_of p s ≡ some i → i < length s
last_index_of-lt p [] i e = ground arith
last_index_of-lt p (x ∷ s) zero e = omega arith
last_index_of-lt p (x ∷ s) (suc i) e = ground (arith, last_index_of-lt p s i)

end_with_stop :
    (s delim : List ℕ)
    → (elim (last_index_of (λ c. member c delim) s) [ none ↦ false | some i ↦ i == length s ])
      ≡ false
end_with_stop s delim = elim (Option-cases (last_index_of (λ c. member c delim) s)) [
  | inl e ↦ rw e
  | inr (i, e) ↦ rw e (ground (arith, last_index_of-lt (λ c. member c delim) s i))
]

-- `endWith` looks at the last byte alone.
end_with_lem :
    (s : List ℕ) (c : ℕ) (delim : List ℕ) → end_with (s ++ (c ∷ [])) delim ≡ member c delim
unfolding end_with
end_with_lem s c delim = ground (
  arith,
  last_index_of-append (λ x. member x delim) s c,
  last_index_of-lt (λ x. member x delim) s (length s),
  length-append s (c ∷ []),
  end_with_stop s delim,
)

-- `startWith` looks at the first byte alone, and `endWith` at the last: each holds exactly where that
-- byte is among the bytes of `delim`.
ends_lem :
    (c : ℕ) (s delim : List ℕ)
    → (start_with (c ∷ s) delim ≡ member c delim)
      × (end_with (s ++ (c ∷ [])) delim ≡ member c delim)
ends_lem c s delim = (start_with_lem c s delim, end_with_lem s c delim)

-- On every text shorter than 2 ^ 64 - 1 bytes `split` ends: it returns all pieces between the bytes of
-- the delimiters, the empty ones included; and where it splits at one byte, joining its pieces by that
-- byte gives the text back.
pub split_lem :
    (s delim : List ℕ) (d : ℕ)
    → length s < npos
    → (split s delim ≡ some (pieces (λ c. member c delim) s))
      × ((ps : List (List ℕ)) × (split s (d ∷ []) ≡ some ps) × (join (d ∷ []) ps ≡ s))
split_lem s delim d short = (split-pieces s delim short, join-split s d short)
