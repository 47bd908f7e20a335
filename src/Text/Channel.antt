-- ===== src/Text/Channel.antt =====
-- `CppUtils::splitChannel`.
use k_mqttd.Base.{
  ℕ, zero, suc, ◌+◌, ◌-◌, ◌≤◌, ◌<◌, ◌≡◌, ◌≢◌, refl, ap, ◌∙◌, sym, Bool, true, false, some, List, [],
  ◌∷◌, ◌++◌, ◌==◌, if◌then◌else◌, length, length-drop, length-take, take, drop, arith, Bool-cases,
  Option-cases, inl, inr, append_assoc,
}
use k_mqttd.Text.{
  member, slash, npos, find_first_of, substr, channel_loop, split_rooted, split_channel,
}
use k_mqttd.Text.Pieces.{pieces, pieces_cons, find_none, find_some}
use k_mqttd.Text.Split.{push_last_lem}

-- Every piece but the last is dropped if it is empty.
abbrev pub keep : List (List ℕ) → List (List ℕ)
keep [] = []
keep (p ∷ []) = p ∷ []
keep (p ∷ q ∷ ps) = let rest = keep (q ∷ ps) in if length p == 0 then rest else p ∷ rest

abbrev pub is_slash : ℕ → Bool
is_slash c = member c slash

keep_some :
    (p q : List ℕ) (ps : List (List ℕ)) → length p ≢ 0 → keep (p ∷ q ∷ ps) ≡ p ∷ keep (q ∷ ps)
keep_some p q ps h = ground arith

keep_none : (p q : List ℕ) (ps : List (List ℕ)) → length p ≡ 0 → keep (p ∷ q ∷ ps) ≡ keep (q ∷ ps)
keep_none p q ps h = ground arith

module _ (p rest : List ℕ) (whole : List (List ℕ)) (cut : whole ≡ p ∷ pieces is_slash rest) where
  keep-cut_empty : length p ≡ 0 → keep whole ≡ keep (pieces is_slash rest)
  keep-cut_empty h =
      let (q, qs, more) = pieces_cons is_slash rest in rw (cut, more) (keep_none p q qs h)

  keep-cut : length p ≢ 0 → keep whole ≡ p ∷ keep (pieces is_slash rest)
  keep-cut h = let (q, qs, more) = pieces_cons is_slash rest in rw (cut, more) (keep_some p q qs h)

channel_loop-keep :
    (rounds : ℕ) (s : List ℕ) (last : ℕ) (out : List (List ℕ))
    → length s < npos
    → last ≤ length s
    → length s - last < rounds
    → channel_loop rounds s last out ≡ some (out ++ keep (pieces is_slash (drop last s)))
unfolding channel_loop substr
channel_loop-keep zero s last out h within enough = absurd (omega arith)
channel_loop-keep (suc rounds) s last out h within enough =
    elim (Option-cases (find_first_of s slash last)) [
      | inl e ↦
          rw (e, channel_loop) (rw (find_none s slash last e, push_last_lem s last out h within))
      | inr (index, e) ↦
          let (cut, forth, inside) = find_some s slash last index e in
          let piece = take (index - last) (drop last s) in
          let size = length-take (index - last) (drop last s) in
          let ih = λ (o : List (List ℕ)).
            channel_loop-keep rounds s (index + 1) o h (omega arith) (omega arith) in
          elim (Bool-cases (index == last)) [
            | inl here ↦
                rw (e, channel_loop)
                  (rw here (
                    ih out
                    ∙ ap (λ ks. some (out ++ ks))
                        (sym (
                          keep-cut_empty piece (drop (index + 1) s) _ cut
                            (let same : index ≡ last = ground arith in omega (arith, size))))))
            | inr there ↦
                rw (e, channel_loop)
                  (rw there (
                    ih _
                    ∙ ap some (
                        append_assoc out _ _
                        ∙ ap (◌++◌ out) (
                            sym (
                              keep-cut piece (drop (index + 1) s) _ cut (
                                let apart : index ≢ last = ground arith in
                                omega (arith, size, length-drop last s)))))))
          ]
    ]

-- A text that begins with a slash: its first piece keeps the slash, unless it is the only piece.
abbrev pub rooted : List (List ℕ) → List (List ℕ)
rooted [] = []
rooted (p ∷ []) = p ∷ []
rooted (p ∷ q ∷ ps) = (b'/' ∷ p) ∷ keep (q ∷ ps)

abbrev pub channel_pieces : List ℕ → List (List ℕ)
channel_pieces [] = [] ∷ []
channel_pieces (c ∷ cs) =
    if is_slash c then rooted (pieces is_slash cs) else keep (pieces is_slash (c ∷ cs))

rooted-cut :
    (p rest : List ℕ) (whole : List (List ℕ))
    → whole ≡ p ∷ pieces is_slash rest
    → rooted whole ≡ (b'/' ∷ p) ∷ keep (pieces is_slash rest)
rooted-cut p rest whole cut = let (q, qs, more) = pieces_cons is_slash rest in rw (cut, more) refl

take_slash : (n : ℕ) (cs : List ℕ) → 1 ≤ n → take n (b'/' ∷ cs) ≡ b'/' ∷ take (n - 1) cs
take_slash zero cs h = absurd (omega arith)
take_slash (suc n) cs h = let e : suc n - 1 ≡ n = omega arith in rw e

split_rooted_lem :
    (cs : List ℕ)
    → length (b'/' ∷ cs) < npos
    → split_rooted (b'/' ∷ cs) ≡ some (rooted (pieces is_slash cs))
unfolding split_rooted substr
split_rooted_lem cs h = elim (Option-cases (find_first_of (b'/' ∷ cs) slash 1)) [
  | inl e ↦
      rw (e, split_rooted)
        (rw (push_last_lem (b'/' ∷ cs) 1 [] h (omega arith))
          (ap some (ap rooted (sym (find_none (b'/' ∷ cs) slash 1 e)))))
  | inr (index, e) ↦
      let (cut, forth, inside) = find_some (b'/' ∷ cs) slash 1 index e in
      rw (e, split_rooted)
        (channel_loop-keep _ (b'/' ∷ cs) (index + 1) _ h (omega arith) (omega arith)
          ∙ ap some (
              ap (λ front. (front ∷ []) ++ keep (pieces is_slash (drop (index + 1) (b'/' ∷ cs))))
                (take_slash index cs forth)
              ∙ sym (rooted-cut _ (drop (index + 1) (b'/' ∷ cs)) _ cut)))
]

whole_loop :
    (s : List ℕ)
    → length s < npos
    → channel_loop (length s + 1) s 0 [] ≡ some (keep (pieces is_slash s))
whole_loop s h = channel_loop-keep (length s + 1) s 0 [] h (omega arith) (omega arith)

find_slash_later :
    (c : ℕ) (cs : List ℕ) (index : ℕ)
    → is_slash c ≡ false
    → find_first_of (c ∷ cs) slash 0 ≡ some index
    → (index == 0) ≡ false
unfolding find_first_of
find_slash_later c cs index miss e = ground arith

find_slash_first :
    (c : ℕ) (cs : List ℕ) → is_slash c ≡ true → find_first_of (c ∷ cs) slash 0 ≡ some 0
unfolding find_first_of
find_slash_first c cs hit = ground arith

-- `splitChannel` ends on every text. It returns the pieces between the slashes without the empty
-- ones, but for the last piece, which is always there. Where the text begins with a slash and has
-- another, the first piece keeps the leading slash.
pub split_channel-pieces :
    (s : List ℕ) → length s < npos → split_channel s ≡ some (channel_pieces s)
unfolding split_channel
split_channel-pieces [] h = unfold find_first_of in whole_loop [] h
split_channel-pieces (c ∷ cs) h = elim (Bool-cases (is_slash c)) [
  | inl hit ↦
      let same : c ≡ b'/' = ground arith in
      rw (find_slash_first c cs hit, split_channel) (rw hit (rw same (split_rooted_lem cs h)))
  | inr miss ↦ elim (Option-cases (find_first_of (c ∷ cs) slash 0)) [
    | inl e ↦ rw (e, split_channel) (rw miss (rw miss at (whole_loop (c ∷ cs) h)))
    | inr (index, e) ↦
        rw (e, split_channel)
          (rw (find_slash_later c cs index miss e) (rw miss (rw miss at (whole_loop (c ∷ cs) h))))
  ]
]
