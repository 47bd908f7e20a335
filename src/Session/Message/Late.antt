-- ===== src/Session/Message/Late.antt =====
-- A message whose header byte comes alone, and then its length field.
use k_mqttd.Base.{
  ℕ, suc, ◌+◌, ◌^◌, ◌<◌, ◌≤◌, ◌≡◌, refl, sym, ap, ◌∙◌, some, List, [], ◌∷◌, ◌++◌, append_assoc,
  length, length-append, length-take, take, leb, true, arith, ret, ◌>>=◌, le→leb,
}
use k_mqttd.Wire.Length.{dec_len}
use k_mqttd.Wire.Length.Varint.{varint, length-varint_upto}
use k_mqttd.Wire.Length.Decode.{dec_len-varint}
use k_mqttd.Protocol.Header.{Stale, header_of_byte}
use k_mqttd.Session.Read.{len_step, complete}
use k_mqttd.Session.Read.Ending.{len_step-now}
use k_mqttd.Session.State.{MqttSession, reading_head, reading_len, reading_rest}
use k_mqttd.Session.Message.{
  zeros, finish, write_at, do_read_len, do_read_remainder, on_length, after_len_step, on_len,
  on_head, on_phase, on_read, on_rest,
}
use k_mqttd.Session.Message.Buffer.{length-zeros, take_all, drop-zeros}
use k_mqttd.Session.Message.Whole.{
  do_read_remainder_asks, field_size-varint, on_rest_end, finish_phase,
}

-- The vector with the head's first bytes, and a gap of one byte.
gapped :
    (head : List ℕ) (k n : ℕ)
    → length head ≡ k
    → write_at 0 head (zeros (1 + k + n)) ≡ (head ++ (0 ∷ [])) ++ zeros n
gapped head k n size =
    let at_end : 0 + length head ≡ k = omega arith in
    let more : 1 + k + n ≡ k + suc n = omega arith in
    rw (at_end, more, drop-zeros k (suc n)) (sym (append_assoc head (0 ∷ []) (zeros n)))

on_length_asks :
    (st : Stale) (now first : ℕ) (field : List ℕ) (n : ℕ) (s : MqttSession)
    → 1 ≤ length field
    → 0 < n
    → on_length st now first field n (length field) (length field) s
      ≡ ret (record s {
        phase =
            reading_rest
              ((take (length field) (first ∷ field) ++ (0 ∷ [])) ++ zeros n)
              (1 + length field)
              (header_of_byte first)
              n;
      })
unfolding on_length
on_length_asks st now first field n s some_field more =
    let head = take (length field) (first ∷ field) in
    let k = length field in
    let total = 1 + k + n in
    let size : length head ≡ k = omega (arith, length-take k (first ∷ field)) in
    let room : leb k (length (zeros total)) ≡ true =
      le→leb k (length (zeros total)) (omega (arith, length-zeros total)) in
    rw (on_length, room)
      (ap (λ v. do_read_remainder st now v (1 + k) (header_of_byte first) n s)
          (gapped head k n size)
        ∙ do_read_remainder_asks st now ((head ++ (0 ∷ [])) ++ zeros n) (1 + k)
            (header_of_byte first) n s more)

length-varint_pos : (n : ℕ) → 1 ≤ length (varint n)
unfolding varint
length-varint_pos n = omega (arith, length-varint_upto 3 n)

on_len_asks :
    (st : Stale) (now first n : ℕ) (s : MqttSession)
    → 0 < n
    → n < 2 ^ 28
    → on_len st now first [] (some (varint n)) s
      ≡ ret (record s {
        phase =
            reading_rest
              ((take (length (varint n)) (first ∷ varint n) ++ (0 ∷ [])) ++ zeros n)
              (1 + length (varint n))
              (header_of_byte first)
              n;
      })
unfolding on_len after_len_step
on_len_asks st now first n s more small =
    let k = length (varint n) in
    let nothing : 0 + k ≡ k = omega arith in
    let value : dec_len (take k (varint n)) ≡ ret n =
      ap dec_len (take_all (varint n)) ∙ dec_len-varint n small in
    let step : len_step [] (varint n) ≡ ret (complete n k k) =
      len_step-now [] (varint n) k (field_size-varint n small) ∙ rw (nothing, value) refl in
    rw step (on_length_asks st now first (varint n) n s (length-varint_pos n) more)

gapped_length :
    (first : ℕ) (field : List ℕ)
    → length (take (length field) (first ∷ field) ++ (0 ∷ [])) ≡ 1 + length field
gapped_length first field =
    let head = take (length field) (first ∷ field) in
    omega (arith, length-take (length field) (first ∷ field), length-append head (0 ∷ []))

-- A message of `n` bytes behind its length field, whose header byte comes alone, then its length field,
-- then its `n` bytes: `parseMqtt` is given the header byte, the length field but for its last byte, a
-- zero, and the `n` bytes.
pub on_read_thrice :
    (st : Stale) (t t' t'' first n : ℕ) (rest : List ℕ) (s : MqttSession)
    → s.phase ≡ reading_head
    → 0 < n
    → n < 2 ^ 28
    → length rest ≡ n
    → ((on_read st t (some (first ∷ [])) s >>= on_read st t' (some (varint n)))
        >>= on_read st t'' (some rest))
      ≡ finish st t''
          (header_of_byte first)
          ((take (length (varint n)) (first ∷ varint n) ++ (0 ∷ [])) ++ rest)
          s
unfolding on_read on_phase on_head do_read_len
on_read_thrice st t t' t'' first n rest s begun more small size =
    let head = take (length (varint n)) (first ∷ varint n) ++ (0 ∷ []) in
    let k = length (varint n) in
    let waits = record s { phase = reading_len first [] } in
    let asks = record s {
      phase = reading_rest (head ++ zeros n) (1 + k) (header_of_byte first) n;
    } in
    let begin : on_read st t (some (first ∷ [])) s ≡ ret waits =
      ap (λ p. on_phase p st t (some (first ∷ [])) s) begun in
    let long = gapped_length first (varint n) in
    ap (λ r. (r >>= on_read st t' (some (varint n))) >>= on_read st t'' (some rest)) begin
    ∙ (ap (λ r. r >>= on_read st t'' (some rest)) (on_len_asks st t' first n waits more small)
        ∙ (ap (λ m. on_rest st t'' (head ++ zeros n) m (header_of_byte first) n (some rest) asks)
              (sym long)
            ∙ (on_rest_end st t'' first head rest n asks (omega arith) size
                ∙ finish_phase st t'' (header_of_byte first) (head ++ rest) s asks.phase)))
