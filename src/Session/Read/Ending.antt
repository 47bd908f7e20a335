-- ===== src/Session/Read/Ending.antt =====
-- Where a length field ends, and what `length_ending` finds.
use mathlib.Core.Option
use k_mqttd.Base.{
  ℕ, zero, suc, ◌+◌, ◌≤◌, ◌≡◌, refl, ap, ◌∙◌, pos, Option, none, some, List, [], ◌∷◌, ◌++◌, length,
  take, ltb, if◌then◌else◌, arith, Bool-cases, Option-cases, inl, inr, ret, ◌>>=◌, ℤ, >>=-elim,
  negsuc,
}
use k_mqttd.Wire.Length.{dec_len}
use k_mqttd.Session.Read.{length_ending, scan, len_step, complete, partial, after_ending}

-- The number of bytes of a length field: up to the first byte below 128.
abbrev pub field_size : List ℕ → Option ℕ
field_size [] = none
field_size (b ∷ bs) = if ltb b 0x80 then some 1 else Option.map suc (field_size bs)

pub field_size-pos : (s : List ℕ) (n : ℕ) → field_size s ≡ some n → 1 ≤ n
field_size-pos [] n e = absurd (cc e)
field_size-pos (b ∷ bs) zero e = ground (arith, field_size-pos bs)
field_size-pos (b ∷ bs) (suc n) e = omega arith

-- The byte is found also where the loop could run past the bytes.
scan-some :
    (rounds i : ℕ) (s : List ℕ) (n : ℕ)
    → n ≤ rounds
    → field_size s ≡ some n
    → scan rounds i s ≡ ret (pos (i + n))
unfolding scan
scan-some rounds i [] n h e = absurd (cc e)
scan-some zero i (b ∷ bs) n h e = absurd (let one = field_size-pos (b ∷ bs) n e in omega arith)
scan-some (suc rounds) i (b ∷ bs) n h e = elim (Bool-cases (ltb b 0x80)) [
  | inl last ↦ ground arith
  | inr more ↦ elim (Option-cases (field_size bs)) [
    | inl gone ↦ absurd (cc (rw (more, field_size, gone) at e))
    | inr (k, found) ↦
        let size : suc k ≡ n = ground arith in
        let here = scan-some rounds (i + 1) bs k (omega arith) found in
        let same : i + 1 + k ≡ i + n = omega arith in
        rw (more, scan) (here ∙ ap (λ m. ret (pos m)) same)
  ]
]

scan-none : (i : ℕ) (s : List ℕ) → field_size s ≡ none → scan (length s) i s ≡ ret (pos 0)
unfolding scan
scan-none i [] e = refl
scan-none i (b ∷ bs) e = ground (arith, scan-none (i + 1) bs)

pub field_size-append_later :
    (s t : List ℕ)
    → field_size s ≡ none
    → field_size (s ++ t) ≡ Option.map (λ n. length s + n) (field_size t)
field_size-append_later [] t e = ground arith
field_size-append_later (b ∷ bs) t e = ground (arith, field_size-append_later bs t)

pub field_size-append_now :
    (s t : List ℕ) (n : ℕ) → field_size s ≡ some n → (field_size (s ++ t) ≡ some n) × (n ≤ length s)
field_size-append_now [] t n e = absurd (cc e)
field_size-append_now (b ∷ bs) t zero e = ground arith
field_size-append_now (b ∷ bs) t (suc n) e = ground (arith, field_size-append_now bs t n)

pub take-append : (n : ℕ) (s t : List ℕ) → n ≤ length s → take n (s ++ t) ≡ take n s
take-append zero s t h = refl
take-append (suc n) [] t h = absurd (omega arith)
take-append (suc n) (b ∷ bs) t h = rw (take-append n bs t (omega arith)) refl

pub length_ending-some :
    (s : List ℕ) (len n : ℕ)
    → n ≤ len
    → field_size s ≡ some n
    → (k : ℕ) × (n ≡ suc k) × (length_ending s len ≡ ret (pos (suc k)))
unfolding length_ending
length_ending-some s len zero h e = absurd (let one = field_size-pos s 0 e in omega arith)
length_ending-some s zero (suc k) h e = absurd (omega arith)
length_ending-some s (suc len) (suc k) h e =
    let same : 0 + suc k ≡ suc k = omega arith in
    (k, refl, scan-some (suc len) 0 s (suc k) h e ∙ ap (λ m. ret (pos m)) same)

pub len_step-later :
    (got c : List ℕ) → field_size c ≡ none → len_step got c ≡ ret (partial (got ++ c))
unfolding len_step length_ending
len_step-later got [] e = refl
len_step-later got (b ∷ bs) e = rw (len_step, scan-none 0 (b ∷ bs) e) refl

pub len_step-now :
    (got c : List ℕ) (k : ℕ)
    → field_size c ≡ some k
    → len_step got c ≡ (do
      len ← dec_len (take (length got + k) (got ++ c))
      ret (complete len (length got + k) (length got + length c)))
unfolding len_step
len_step-now got c k e =
    let (j, size, ending) =
      length_ending-some c (length c) k (field_size-append_now c [] k e).1 e in
    rw (len_step, ending, size) refl

complete-ne-partial : {n k m : ℕ} {got : List ℕ} → ¬ (ret (complete n k m) ≡ ret (partial got))
complete-ne-partial e = cc

after_ending-partial :
    (got chunk rest : List ℕ) (ending : ℤ)
    → after_ending got chunk ending ≡ ret (partial rest)
    → rest ≡ got ++ chunk
unfolding after_ending
after_ending-partial got chunk rest (pos (suc e)) run =
    let cut = take (length got + suc e) (got ++ chunk) in
    >>=-elim (dec_len cut) _ run λ len known done. absurd (complete-ne-partial done)
after_ending-partial got chunk rest (pos zero) run = cc run
after_ending-partial got chunk rest (negsuc n) run = cc run

-- Where the reading of the length field goes on, all bytes are kept.
pub len_step-partial :
    (got chunk rest : List ℕ) → len_step got chunk ≡ ret (partial rest) → rest ≡ got ++ chunk
unfolding len_step
len_step-partial got chunk rest run =
    >>=-elim (length_ending chunk (length chunk)) _ run
      λ ending known after. after_ending-partial got chunk rest ending after

scan_within : (rounds i : ℕ) (s : List ℕ) (k : ℕ) → scan rounds i s ≡ ret (pos k) → k ≤ i + rounds
unfolding scan
scan_within zero i s k e = let none_found : 0 ≡ k = cc e in omega arith
scan_within (suc rounds) i [] k e = absurd (cc e)
scan_within (suc rounds) i (b ∷ bs) k e = elim (Bool-cases (ltb b 0x80)) [
  | inl last ↦ let here : i + 1 ≡ k = cc (rw last at e) in omega arith
  | inr more ↦ let later = scan_within rounds (i + 1) bs k (rw more at e) in omega arith
]

-- The end that `length_ending` finds lies within the bytes that it is given.
length_ending_within : (s : List ℕ) (n k : ℕ) → length_ending s n ≡ ret (pos k) → k ≤ n
unfolding length_ending
length_ending_within s zero k e = absurd (cc e)
length_ending_within s (suc n) k e = let within = scan_within (suc n) 0 s k e in omega arith

after_ending-complete :
    (got chunk : List ℕ) (ending : ℤ) (len len_size buffer_size : ℕ)
    → ((k : ℕ) → ending ≡ pos k → k ≤ length chunk)
    → after_ending got chunk ending ≡ ret (complete len len_size buffer_size)
    → (1 ≤ len_size) × (len_size ≤ buffer_size) × (buffer_size ≡ length got + length chunk)
unfolding after_ending
after_ending-complete got chunk (pos (suc e)) len len_size buffer_size within run =
    let inside = within (suc e) refl in
    >>=-elim (dec_len (take (length got + suc e) (got ++ chunk))) _ run λ n known done.
      let size : length got + suc e ≡ len_size = cc done in
      let all : length got + length chunk ≡ buffer_size = cc done in
      (omega arith, omega arith, omega arith)
after_ending-complete got chunk (pos zero) len len_size buffer_size within run = absurd (cc run)
after_ending-complete got chunk (negsuc n) len len_size buffer_size within run = absurd (cc run)

-- Where the length field is complete, it has a byte at least, and lies within the bytes that were read.
pub len_step-complete :
    (got chunk : List ℕ) (len len_size buffer_size : ℕ)
    → len_step got chunk ≡ ret (complete len len_size buffer_size)
    → (1 ≤ len_size) × (len_size ≤ buffer_size) × (buffer_size ≡ length got + length chunk)
unfolding len_step
len_step-complete got chunk len len_size buffer_size run =
    >>=-elim (length_ending chunk (length chunk)) _ run λ ending known after.
      after_ending-complete got chunk ending len len_size buffer_size
        (λ k is. length_ending_within chunk (length chunk) k (known ∙ ap ret is)) after
