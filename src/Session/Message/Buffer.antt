-- ===== src/Session/Message/Buffer.antt =====
-- The vectors that `do_read_message` fills.
use k_mqttd.Base.{
  ℕ, zero, suc, ◌+◌, ◌≤◌, ◌≡◌, refl, ap, ◌∙◌, List, [], ◌∷◌, ◌++◌, append-nil, length,
  length-append, length-take, length-drop, take, drop, arith,
}
use k_mqttd.Session.Read.Ending.{take-append}
use k_mqttd.Session.Message.{zeros, write_at}

pub length-zeros : (n : ℕ) → length (zeros n) ≡ n
length-zeros zero = refl
length-zeros (suc n) = ap suc (length-zeros n)

pub take_all : (s : List ℕ) → take (length s) s ≡ s
take_all [] = refl
take_all (b ∷ bs) = ap (λ t. b ∷ t) (take_all bs)

pub drop-zeros : (n k : ℕ) → drop n (zeros (n + k)) ≡ zeros k
drop-zeros zero k = let e : 0 + k ≡ k = omega arith in rw e refl
drop-zeros (suc n) k = let e : suc n + k ≡ suc (n + k) = omega arith in rw e (drop-zeros n k)

-- The vector that the first read leaves: the bytes that were read, and zeros.
pub filled :
    (head more : List ℕ) (len : ℕ)
    → write_at 0 (take (length head) (head ++ more)) (zeros (length head + len)) ≡ head ++ zeros len
filled head more len =
    let copied : take (length head) (head ++ more) ≡ head =
      take-append (length head) head more (omega arith) ∙ take_all head in
    let start : 0 + length head ≡ length head = omega arith in
    rw (copied, start, drop-zeros (length head) len) refl

drop_end : (n : ℕ) (s : List ℕ) → length s ≤ n → drop n s ≡ []
drop_end zero [] h = refl
drop_end zero (b ∷ bs) h = absurd (omega arith)
drop_end (suc n) [] h = refl
drop_end (suc n) (b ∷ bs) h = drop_end n bs (omega arith)

pub written :
    (head chunk : List ℕ)
    → write_at (length head) chunk (head ++ zeros (length chunk)) ≡ head ++ chunk
written head chunk =
    let kept : take (length head) (head ++ zeros (length chunk)) ≡ head =
      take-append (length head) head (zeros (length chunk)) (omega arith) ∙ take_all head in
    let ended : drop (length head + length chunk) (head ++ zeros (length chunk)) ≡ [] =
      drop_end (length head + length chunk) (head ++ zeros (length chunk))
        (omega (arith, length-append head (zeros (length chunk)), length-zeros (length chunk))) in
    rw (kept, ended) (ap (λ t. head ++ t) (append-nil chunk))

-- Bytes that are written within a vector leave its size.
pub length-write_at :
    (n : ℕ) (xs pdata : List ℕ)
    → n + length xs ≤ length pdata
    → length (write_at n xs pdata) ≡ length pdata
length-write_at n xs pdata room = omega (
  arith,
  length-append (take n pdata) (xs ++ drop (n + length xs) pdata),
  length-append xs (drop (n + length xs) pdata),
  length-take n pdata,
  length-drop (n + length xs) pdata,
)
