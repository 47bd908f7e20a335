-- ===== src/Protocol/Frame/Read.antt =====
-- What the reading steps of `decode` can give.
use native.Mathlib.Decide.{dec_lt}
use k_mqttd.Base.{
  undef_of_not_ret, ap, ◌>>=◌, Exec, ℕ, zero, suc, ◌+◌, ◌≤◌, ◌<◌, ◌≡◌, refl, List, ◌∷◌, ◌++◌, arith,
  replicate, ret, undef, >>=-elim,
}
use k_mqttd.Wire.Words.{htons, htonl}
use k_mqttd.Wire.Length.{dec_len}
use k_mqttd.Protocol.Header.{MqttHeader}
use k_mqttd.Protocol.Frame.{
  read_text, read_header, at, copy_range, copy_into16, read_length, length_width,
}

-- `buf_len` begins with a zero, so the length that `decLen` finds in it is 0.
dec_len-replicate : (ll : ℕ) (bs : List ℕ) → 1 ≤ ll → dec_len (replicate ll 0 ++ bs) ≡ ret 0
unfolding dec_len
dec_len-replicate zero bs h = absurd (omega arith)
dec_len-replicate (suc ll) bs h = refl

length_width-ge :
    (rounds : ℕ) (buf : List ℕ) (i ll w : ℕ) → length_width rounds buf i ll ≡ ret w → ll ≤ w
unfolding length_width
length_width-ge zero buf i ll w e = ground arith
length_width-ge (suc rounds) buf i ll w e =
    ground (arith, length_width-ge rounds buf (i + 1) (ll + 1) w)

-- Every length field is read as 0, and the step is at least 2.
read_length_lem :
    (buf : List ℕ) (size step : ℕ) → read_length buf ≡ ret (size, step) → (size ≡ 0) × (2 ≤ step)
unfolding read_length htonl
read_length_lem buf size step e = >>=-elim (length_width 4 buf 1 1) _ e λ ll e1 rest.
    >>=-elim (copy_range buf 1 ll) _ rest
      λ bs e2 rest'. ground (arith, length_width-ge 4 buf 1 1 ll, dec_len-replicate ll bs)

-- A one-byte length field.
read_length_short : (a b : ℕ) (rest : List ℕ) → b < 0x80 → read_length (a ∷ b ∷ rest) ≡ ret (0, 2)
unfolding read_length htonl at dec_len
read_length_short a b rest h = ground arith

-- From step 2 the identifier's range is empty.
copy_into16_empty : (t a b : ℕ) (rest : List ℕ) → copy_into16 t (a ∷ b ∷ rest) 2 2 ≡ ret t
unfolding copy_into16
copy_into16_empty t a b rest = ground arith

-- Behind a longer length field it runs backwards.
copy_range_backwards :
    (buf : List ℕ) (first last : ℕ) → last < first → copy_range buf first last ≡ undef
unfolding copy_range
copy_range_backwards buf first last h = ground arith

copy_into16_at_two : (t : ℕ) (buf : List ℕ) (t' : ℕ) → copy_into16 t buf 2 2 ≡ ret t' → t' ≡ t
unfolding copy_into16
copy_into16_at_two t buf t' e = ground arith

copy_into16_backwards :
    (t : ℕ) (buf : List ℕ) (step : ℕ) → 2 < step → copy_into16 t buf step 2 ≡ undef
unfolding copy_into16
copy_into16_backwards t buf step h = ground arith

-- From step 2 on, the two bytes of an identifier or of a length are never copied: the variable
-- keeps its value.
copy_into16_keeps :
    (t : ℕ) (buf : List ℕ) (step t' : ℕ)
    → 2 ≤ step
    → copy_into16 t buf step 2 ≡ ret t'
    → (t' ≡ t) × (step ≡ 2)
copy_into16_keeps t buf step t' h e = elim (dec_lt 2 step) [
  | yes far ↦ cc (copy_into16_backwards t buf step far)
  | no near ↦
      let at_two : step ≡ 2 = omega arith in (copy_into16_at_two t buf t' (rw at_two at e), at_two)
]

-- What precedes the variable header gives size 0 and a step of at least 2.
pub read_prefix {ℓ κ} :
    {B : Type ℓ} {P : Type κ} (buf : List ℕ) (k : MqttHeader → ℕ → ℕ → Exec B) {x : B}
    → (read_header buf >>= λ header. read_length buf >>= λ p. k header p.0 p.1) ≡ ret x
    → ((header : MqttHeader) (step : ℕ)
        → read_header buf ≡ ret header
        → 2 ≤ step
        → k header 0 step ≡ ret x
        → P)
    → P
read_prefix buf k e use_it = >>=-elim (read_header buf) _ e λ header e1 rest.
    >>=-elim (read_length buf) _ rest λ p e2 rest'.
      let (zero_size, far) = read_length_lem buf p.0 p.1 e2 in
      use_it header p.1 e1 far (rw zero_size at rest')

-- The same with the identifier, which keeps the 0 of its variable.
pub read_id_prefix {ℓ κ} :
    {B : Type ℓ} {P : Type κ} (buf : List ℕ) (k : MqttHeader → ℕ → ℕ → ℕ → Exec B) {x : B}
    → (read_header buf >>= λ header.
        read_length buf >>= λ p. copy_into16 0 buf p.1 2 >>= λ t. k header p.0 p.1 t)
      ≡ ret x
    → ((header : MqttHeader) → read_header buf ≡ ret header → k header 0 2 0 ≡ ret x → P)
    → P
read_id_prefix buf k e use_it =
    read_prefix buf (λ header size step. copy_into16 0 buf step 2 >>= k header size step) e
      λ header step e1 far rest. >>=-elim (copy_into16 0 buf step 2) _ rest λ t e2 rest'.
        let (kept, at_two) = copy_into16_keeps 0 buf step t far e2 in
        use_it header e1 (rw (kept, at_two) at rest')

htons_zero : (step : ℕ) → htons 0 < step + 2
unfolding htons
htons_zero step = omega arith

-- A text whose length variable holds 0 is never read: its range runs backwards.
pub read_text_undef : (buf : List ℕ) (step : ℕ) → 2 ≤ step → read_text 0 buf step ≡ undef
unfolding read_text
read_text_undef buf step h = undef_of_not_ret _ λ x e.
    >>=-elim (copy_into16 0 buf step 2) _ e λ t e1 rest.
      let (kept, _) = copy_into16_keeps 0 buf step t h e1 in
      cc (
        copy_range_backwards buf (step + 2) (htons 0) (htons_zero step),
        rest,
        ap (λ (u : ℕ). copy_range buf (step + 2) (htons u)) kept,
      )
