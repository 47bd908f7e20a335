-- ===== src/Session/Read/Pieces.antt =====
-- The length field does not depend on how the socket cuts it into pieces.
use mathlib.Core.Option
use k_mqttd.Base.{
  ℕ, ◌+◌, ◌≤◌, ◌≡◌, refl, sym, ap, ◌∙◌, Option, none, some, List, [], ◌∷◌, ◌++◌, append-nil,
  append_assoc, length, length-append, take, ◌==◌, map, true, false, arith, Bool-cases,
  Option-cases, inl, inr, Exec, ret, undef, ◌>>=◌,
}
use k_mqttd.Wire.Length.{dec_len}
use k_mqttd.Session.Read.{complete, LenRead, done, after_step, read_len}
use k_mqttd.Session.Read.Ending.{
  field_size, field_size-pos, field_size-append_later, field_size-append_now, take-append,
  len_step-later, len_step-now,
}

abbrev pub concat : List (List ℕ) → List ℕ
concat [] = []
concat (c ∷ cs) = c ++ concat cs

bind_again :
    (rest : Exec LenRead) (m : Exec ℕ) (n b : ℕ)
    → ((m >>= λ len. ret (complete len n b)) >>= after_step rest) ≡ (m >>= λ v. ret (done v n b))
unfolding after_step
bind_again rest (ret v) n b = refl
bind_again rest undef n b = refl

-- Where no byte of a piece ends the field, the reading goes on behind it.
read_len-later :
    (len : ℕ) (got c : List ℕ) (rs : List (Option (List ℕ)))
    → (length got == len) ≡ false
    → field_size c ≡ none
    → read_len len got (some c ∷ rs) ≡ read_len len (got ++ c) rs
unfolding read_len
read_len-later len got c rs room e = rw (room, read_len, len_step-later got c e) refl

read_len-now :
    (len : ℕ) (got c : List ℕ) (rs : List (Option (List ℕ))) (k : ℕ)
    → (length got == len) ≡ false
    → field_size c ≡ some k
    → read_len len got (some c ∷ rs) ≡ (do
      v ← dec_len (take (length got + k) (got ++ c))
      ret (done v (length got + k) (length got + length c)))
unfolding read_len
read_len-now len got c rs k room e =
    rw (room, read_len, len_step-now got c k e)
      (bind_again _ (dec_len (take (length got + k) (got ++ c))) (length got + k)
        (length got + length c))

no_room :
    (len : ℕ) (got t : List ℕ) (n : ℕ)
    → (length got == len) ≡ true
    → length (got ++ t) ≤ len
    → ¬ (Option.map (λ m. length got + m) (field_size t) ≡ some n)
no_room len got t n full fits ends = elim (Option-cases (field_size t)) [
  | inl gone ↦ cc (rw gone at ends)
  | inr (m, found) ↦
      let one = field_size-pos t m found in
      let (again, inside) = field_size-append_now t [] m found in
      ground (arith, length-append got t)
]

-- However the socket cuts the bytes of a length field into pieces: if no byte read so far ends the
-- field, and the field ends within the buffer, then `do_read_len` decodes the field by `decLen` and
-- runs the callback with that number, with the size of the field, and with a number of bytes read
-- between that size and the buffer's.
pub read_len-field :
    (len : ℕ) (got : List ℕ) (cs : List (List ℕ)) (n : ℕ)
    → field_size got ≡ none
    → length (got ++ concat cs) ≤ len
    → field_size (got ++ concat cs) ≡ some n
    → (b : ℕ) × (read_len len got (map some cs)
        ≡ (do v ← dec_len (take n (got ++ concat cs)); ret (done v n b)))
      × (n ≤ b)
      × (b ≤ len)
unfolding read_len
read_len-field len got [] n begun fits ends =
    absurd (cc (ap field_size (sym (append-nil got)) ∙ ends, begun, append-nil got))
read_len-field len got (c ∷ cs) n begun fits ends =
    let e : (got ++ c) ++ concat cs ≡ got ++ (c ++ concat cs) = append_assoc got c (concat cs) in
    let behind = field_size-append_later got (c ++ concat cs) begun in
    elim (Bool-cases (length got == len)) [
      | inl full ↦ absurd (no_room len got (c ++ concat cs) n full fits (sym behind ∙ ends))
      | inr room ↦ elim (Option-cases (field_size c)) [
        | inl later ↦
            let still : field_size (got ++ c) ≡ none =
              field_size-append_later got c begun ∙ rw later refl in
            let (b, run, low, high) =
              read_len-field len (got ++ c) cs n still (rw e fits) (ap field_size e ∙ ends) in
            (b, read_len-later len got c (map some cs) room later ∙ rw e at run, low, high)
        | inr (k, now) ↦
            let (first, inside) = field_size-append_now c (concat cs) k now in
            let total : length got + k ≡ n = cc (rw first at (sym behind ∙ ends)) in
            let within : n ≤ length (got ++ c) = omega (arith, length-append got c) in
            let field : take n (got ++ (c ++ concat cs)) ≡ take n (got ++ c) =
              ap (take n) (sym e) ∙ take-append n (got ++ c) (concat cs) within in
            (
              length got + length c,
              read_len-now len got c (map some cs) k room now ∙ rw (total, field) refl,
              omega arith,
              omega (arith, length-append got (c ++ concat cs), length-append c (concat cs)),
            )
      ]
    ]
