-- ===== src/Session/Message/Whole.antt =====
-- A message whose length field is complete in the first read.
use k_mqttd.Base.{
  ℕ, zero, suc, ◌+◌, ◌-◌, ◌/◌, ◌^◌, ◌≤◌, ◌<◌, ◌≡◌, refl, sym, ap, ◌∙◌, true, leb, false, none, some,
  List, [], ◌∷◌, ◌++◌, length, length-append, take, ltb, arith, Bool-cases, inl, inr, ret,
  Exec-cases, ge→ltb, lt→ltb, le→leb, ◌>>=◌,
}
use k_mqttd.Wire.Length.{dec_len}
use k_mqttd.Wire.Length.Varint.{varint_upto, varint, length-varint_upto}
use k_mqttd.Wire.Length.Decode.{dec_len-varint}
use k_mqttd.Protocol.Header.{MqttHeader, Stale, header_of_byte}
use k_mqttd.Session.Read.Ending.{field_size, field_size-append_now, take-append, length_ending-some}
use k_mqttd.Protocol.Message.{Message}
use k_mqttd.Session.Parse.{parse_mqtt}
use k_mqttd.Session.State.{
  Phase, reading_head, reading_rest, MqttSession, do_close, do_error, call_un_login,
}
use k_mqttd.Session.Message.Buffer.{length-zeros, take_all, filled, written}
use k_mqttd.Session.Message.{
  head_size, zeros, fail, on_message, finish, do_read_remainder, write_at, on_rest, after_head,
  on_head, on_phase, on_read,
}

pub do_read_remainder_asks :
    (st : Stale) (now : ℕ) (pdata : List ℕ) (n : ℕ) (mh : MqttHeader) (size : ℕ) (s : MqttSession)
    → 0 < size
    → do_read_remainder st now pdata n mh size s
      ≡ ret (record s { phase = reading_rest pdata n mh size })
unfolding do_read_remainder
do_read_remainder_asks st now pdata n mh size s more =
    rw (do_read_remainder, lt→ltb 0 size more) refl

-- Where `length_ending` finds an end in the head and the bytes up to there are the length `len`, the
-- session goes on to the rest with a vector of the bytes that are there and `len` zeros.
pub on_head-reads :
    (st : Stale) (now first b : ℕ) (bs : List ℕ) (k len : ℕ) (s : MqttSession)
    → k ≤ length (first ∷ b ∷ bs)
    → field_size ((b ∷ bs) ++ zeros (head_size - length (first ∷ b ∷ bs))) ≡ some k
    → dec_len (take k ((b ∷ bs) ++ zeros (head_size - length (first ∷ b ∷ bs)))) ≡ ret len
    → on_head st now (some (first ∷ b ∷ bs)) s
      ≡ do_read_remainder st now
          ((first ∷ b ∷ bs) ++ zeros len)
          (length (first ∷ b ∷ bs))
          (header_of_byte first)
          len
          s
unfolding on_head
on_head-reads st now first b bs k len s inside found size =
    let head = first ∷ b ∷ bs in
    let pbuf = (b ∷ bs) ++ zeros (head_size - length head) in
    let (e, same, ending) = length_ending-some pbuf (length head) k inside found in
    let len_is : dec_len (take (suc e) pbuf) ≡ ret len =
      ap (λ m. dec_len (take m pbuf)) (sym same) ∙ size in
    rw (on_head, ending, after_head, len_is)
      (ap (λ v. do_read_remainder st now v (length head) (header_of_byte first) len s)
        (filled head (zeros (head_size - length head)) len))

-- It then asks for `len` bytes behind all the bytes that are there.
pub on_head-found :
    (st : Stale) (now first b : ℕ) (bs : List ℕ) (k len : ℕ) (s : MqttSession)
    → k ≤ length (first ∷ b ∷ bs)
    → field_size ((b ∷ bs) ++ zeros (head_size - length (first ∷ b ∷ bs))) ≡ some k
    → dec_len (take k ((b ∷ bs) ++ zeros (head_size - length (first ∷ b ∷ bs)))) ≡ ret len
    → 0 < len
    → on_head st now (some (first ∷ b ∷ bs)) s
      ≡ ret (record s {
        phase =
            reading_rest
              ((first ∷ b ∷ bs) ++ zeros len)
              (length (first ∷ b ∷ bs))
              (header_of_byte first)
              len;
      })
on_head-found st now first b bs k len s inside found size more =
    let head = first ∷ b ∷ bs in
    on_head-reads st now first b bs k len s inside found size
    ∙ do_read_remainder_asks st now (head ++ zeros len) (length head) (header_of_byte first) len s
        more

-- Where the first bytes have a whole length field in them.
pub on_head-known :
    (st : Stale) (now first b : ℕ) (bs : List ℕ) (k len : ℕ) (s : MqttSession)
    → length bs ≤ 3
    → field_size (b ∷ bs) ≡ some k
    → dec_len (take k (b ∷ bs)) ≡ ret len
    → 0 < len
    → on_head st now (some (first ∷ b ∷ bs)) s
      ≡ ret (record s {
        phase =
            reading_rest
              ((first ∷ b ∷ bs) ++ zeros len)
              (length (first ∷ b ∷ bs))
              (header_of_byte first)
              len;
      })
on_head-known st now first b bs k len s short field size more =
    let pad = zeros (head_size - length (first ∷ b ∷ bs)) in
    let (found, inside) = field_size-append_now (b ∷ bs) pad k field in
    let cut : take k ((b ∷ bs) ++ pad) ≡ take k (b ∷ bs) = take-append k (b ∷ bs) pad inside in
    on_head-found st now first b bs k len s (omega arith) found (ap dec_len cut ∙ size) more

-- The handlers set the phase anew.
fail_phase : (s : MqttSession) (p : Phase) → fail (record s { phase = p }) ≡ fail s
unfolding fail do_error call_un_login do_close
fail_phase s p = elim (Bool-cases s.client.has_un_login) [
  | inl set ↦ rw set refl
  | inr unset ↦ rw unset refl
]

on_message_phase :
    (st : Stale) (now : ℕ) (m : Message) (s : MqttSession) (p : Phase)
    → on_message st now m (record s { phase = p }) ≡ on_message st now m s
unfolding on_message
on_message_phase st now m s p = refl

pub finish_phase :
    (st : Stale) (now : ℕ) (mh : MqttHeader) (pdata : List ℕ) (s : MqttSession) (p : Phase)
    → finish st now mh pdata (record s { phase = p }) ≡ finish st now mh pdata s
unfolding finish
finish_phase st now mh pdata s p = elim (Exec-cases (parse_mqtt st mh pdata)) [
  | inl e ↦ rw (e, finish) refl
  | inr (none, e) ↦ rw (e, finish) (ap ret (fail_phase s p))
  | inr (some m, e) ↦ rw (e, finish) (on_message_phase st now m s p)
]

field_size-varint_upto :
    (k n : ℕ) → n < 128 ^ suc k → field_size (varint_upto k n) ≡ some (length (varint_upto k n))
unfolding varint_upto
field_size-varint_upto zero n h = ground arith
field_size-varint_upto (suc k) n h = ground (arith, field_size-varint_upto k (n / 128))

pub field_size-varint : (n : ℕ) → n < 2 ^ 28 → field_size (varint n) ≡ some (length (varint n))
unfolding varint
field_size-varint n h = field_size-varint_upto 3 n (omega arith)

cons_of_length : (s : List ℕ) → 1 ≤ length s → (b : ℕ) × (bs : List ℕ) × (s ≡ b ∷ bs)
cons_of_length [] h = absurd (omega arith)
cons_of_length (b ∷ bs) h = (b, bs, refl)

varint_cons : (n : ℕ) (early : List ℕ) → (b : ℕ) × (bs : List ℕ) × (varint n ++ early ≡ b ∷ bs)
unfolding varint
varint_cons n early =
    cons_of_length (varint n ++ early)
      (omega (arith, length-varint_upto 3 n, length-append (varint n) early))

pub on_rest_end :
    (st : Stale) (now first : ℕ) (head rest : List ℕ) (n : ℕ) (s : MqttSession)
    → 1 ≤ length head
    → length rest ≡ n
    → on_rest st now (head ++ zeros n) (length head) (header_of_byte first) n (some rest) s
      ≡ finish st now (header_of_byte first) (head ++ rest) s
unfolding on_rest
on_rest_end st now first head rest n s some_read size =
    let read_all : ltb (length head + length rest) n ≡ false = ge→ltb _ _ (omega arith) in
    let same : write_at (length head) rest (head ++ zeros n) ≡ head ++ rest =
      rw (sym size) (written head rest) in
    let room : leb (length head + length rest) (length (head ++ zeros n)) ≡ true =
      le→leb _ _ (omega (arith, length-append head (zeros n), length-zeros n)) in
    rw (on_rest, room, read_all) (ap (λ v. finish st now (header_of_byte first) v s) same)

-- What the first read of such a message asks for.
abbrev pub asks_for : ℕ → List ℕ → ℕ → MqttSession → MqttSession
asks_for first head n s = record s {
  phase = reading_rest (head ++ zeros n) (length head) (header_of_byte first) n;
}

-- The first read has the header byte, the whole length field and the bytes `early`: the session asks
-- for `n` more bytes.
pub on_read-asks :
    (st : Stale) (t first n : ℕ) (early : List ℕ) (s : MqttSession)
    → s.phase ≡ reading_head
    → 0 < n
    → n < 2 ^ 28
    → length (varint n ++ early) ≤ 4
    → on_read st t (some (first ∷ (varint n ++ early))) s
      ≡ ret (asks_for first (first ∷ (varint n ++ early)) n s)
unfolding on_read
on_read-asks st t first n early s begun more small short =
    let (b, bs, e) = varint_cons n early in
    let (field, inside) =
      field_size-append_now (varint n) early (length (varint n)) (field_size-varint n small) in
    let whole : dec_len (take (length (varint n)) (varint n ++ early)) ≡ ret n =
      ap dec_len
        (take-append (length (varint n)) (varint n) early (omega arith) ∙ take_all (varint n))
      ∙ dec_len-varint n small in
    let few : length bs ≤ 3 = omega (arith, ap (length {A = ℕ}) e) in
    rw e (
      ap (λ p. on_phase p st t (some (first ∷ b ∷ bs)) s) begun
      ∙ on_head-known st t first b bs (length (varint n)) n s few (rw e at field) (rw e at whole)
          more)

-- A message of `n` bytes behind its length field, whose first read has the header byte, the whole
-- length field and the bytes `early`, and whose second read has `n` more bytes: `parseMqtt` is given
-- all these bytes. So the message is read as it was sent where `early` is empty, and otherwise with as
-- many bytes too many as `early` has.
pub on_read_twice :
    (st : Stale) (t t' first n : ℕ) (early rest : List ℕ) (s : MqttSession)
    → s.phase ≡ reading_head
    → 0 < n
    → n < 2 ^ 28
    → length (varint n ++ early) ≤ 4
    → length rest ≡ n
    → (on_read st t (some (first ∷ (varint n ++ early))) s >>= on_read st t' (some rest))
      ≡ finish st t' (header_of_byte first) (first ∷ ((varint n ++ early) ++ rest)) s
unfolding on_read
on_read_twice st t t' first n early rest s begun more small short size =
    let head = first ∷ (varint n ++ early) in
    let asked = asks_for first head n s in
    ap (λ r. r >>= on_read st t' (some rest))
      (on_read-asks st t first n early s begun more small short)
    ∙ (on_rest_end st t' first head rest n asked (omega arith) size
        ∙ finish_phase st t' (header_of_byte first) (head ++ rest) s asked.phase)
