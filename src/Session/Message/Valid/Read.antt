-- ===== src/Session/Message/Valid/Read.antt =====
-- The handlers of the reads keep `IsValid`.
use k_mqttd.Base.{
  Bool, true, false, leb→le, ge→ltb, ℕ, zero, suc, ◌+◌, ◌-◌, ◌≤◌, ◌≡◌, refl, ap, ◌∙◌, none, some,
  List, [], ◌∷◌, ◌++◌, length, length-append, length-take, take, ret, arith, ltb, leb, demand,
  >>=-elim, ℤ, pos, negsuc,
}
use k_mqttd.Wire.Length.{dec_len}
use k_mqttd.Protocol.Header.{MqttHeader, Stale, header_of_byte}
use k_mqttd.Session.Read.{length_ending, LenStep, complete, partial, len_step}
use k_mqttd.Session.Read.Ending.{len_step-partial, len_step-complete}
use k_mqttd.Session.Message.Buffer.{length-zeros, length-write_at}
use k_mqttd.Session.State.{
  Phase, reading_head, reading_len, reading_rest, stalled, resting, MqttSession,
}
use k_mqttd.Session.Message.{
  head_size, zeros, write_at, on_rest, on_length, after_len_step, on_len, after_head, on_head,
  on_phase, on_read, Gives, give_head, give_len, give_rest,
}
use k_mqttd.Session.Message.Valid.{
  IsValid, returned, fail-IsValid, finish-IsValid, do_read_remainder-IsValid, do_read_len-IsValid,
}

demanded : (b : Bool) {u : Unit {0}} → demand b ≡ ret u → b ≡ true
demanded true e = refl
demanded false e = absurd (cc e)

-- `async_read` gives all the bytes that it was asked for, so that the message is whole.
on_rest-IsValid :
    (st : Stale) (now : ℕ) (pdata : List ℕ) (n : ℕ) (mh : MqttHeader) (size : ℕ) (chunk : List ℕ)
    (s s' : MqttSession)
    → length chunk ≡ size
    → IsValid s
    → on_rest st now pdata n mh size (some chunk) s ≡ ret s'
    → IsValid s'
unfolding on_rest
on_rest-IsValid st now pdata n mh size chunk s s' whole v e =
    let last : ltb (n + length chunk) size ≡ false = ge→ltb _ _ (omega arith) in
    >>=-elim (demand (leb (n + length chunk) (length pdata))) _ e
      λ u inside rest. finish-IsValid st now mh _ s s' v (rw last at rest)

after_len_step-IsValid :
    (st : Stale) (now first : ℕ) (all : List ℕ) (s s' : MqttSession) (step : LenStep)
    → length all ≤ head_size - 1
    → ((len len_size buffer_size : ℕ)
        → step ≡ complete len len_size buffer_size
        → (1 ≤ len_size) × (len_size ≤ buffer_size) × (buffer_size ≡ length all))
    → ((rest : List ℕ) → step ≡ partial rest → length rest ≤ head_size - 1)
    → IsValid s
    → after_len_step st now first all s step ≡ ret s'
    → IsValid s'
unfolding after_len_step on_length
after_len_step-IsValid st now first all s s' (complete len len_size buffer_size) few found room v
      e =
    let (some_field, field_read, all_read) = found len len_size buffer_size refl in
    let vec = zeros (1 + len_size + len) in
    let copied = take buffer_size (first ∷ all) in
    >>=-elim (demand (leb buffer_size (length vec))) _ e λ u inside rest.
      let fits = leb→le buffer_size (length vec) (demanded _ inside) in
      let size : length (write_at 0 copied vec) ≡ 1 + len_size + len =
        length-write_at 0 copied vec (omega (arith, length-take buffer_size (first ∷ all)))
        ∙ length-zeros (1 + len_size + len) in
      do_read_remainder-IsValid st now (write_at 0 copied vec) (1 + buffer_size)
        (header_of_byte first) len s s' (omega arith) (omega arith) v rest
after_len_step-IsValid st now first all s s' (partial got) few found room v e =
    returned e (do_read_len-IsValid first got s (room got refl) v)

on_len-IsValid :
    (st : Stale) (now first : ℕ) (got chunk : List ℕ) (s s' : MqttSession)
    → length got + length chunk ≤ head_size - 1
    → IsValid s
    → on_len st now first got (some chunk) s ≡ ret s'
    → IsValid s'
unfolding on_len
on_len-IsValid st now first got chunk s s' room v e =
    >>=-elim (len_step got chunk) _ e λ step known rest.
      after_len_step-IsValid st now first (got ++ chunk) s s' step
        (omega (arith, length-append got chunk))
        (λ len len_size buffer_size is.
          let (some_field, field_read, all_read) =
            len_step-complete got chunk len len_size buffer_size (known ∙ ap ret is) in
          (some_field, field_read, omega (arith, length-append got chunk)))
        (λ left is.
          let kept = len_step-partial got chunk left (known ∙ ap ret is) in
          omega (arith, ap (length {A = ℕ}) kept, length-append got chunk))
        v rest

after_head-IsValid :
    (st : Stale) (now first : ℕ) (pbuf : List ℕ) (n : ℕ) (s s' : MqttSession) (ending : ℤ)
    → n ≤ head_size
    → n ≤ suc (length pbuf)
    → IsValid s
    → after_head st now first pbuf n s ending ≡ ret s'
    → IsValid s'
unfolding after_head
after_head-IsValid st now first pbuf n s s' (pos (suc e)) room there v run =
    >>=-elim (dec_len (take (suc e) pbuf)) _ run λ len known rest.
      let head = take n (first ∷ pbuf) in
      let all : length head ≡ n = omega (arith, length-take n (first ∷ pbuf)) in
      let size : length (write_at 0 head (zeros (n + len))) ≡ n + len =
        length-write_at 0 head (zeros (n + len)) (omega (arith, length-zeros (n + len)))
        ∙ length-zeros (n + len) in
      do_read_remainder-IsValid st now (write_at 0 head (zeros (n + len))) n (header_of_byte first)
        len s s' (omega arith) (omega arith) v rest
after_head-IsValid st now first pbuf n s s' (pos zero) room there v run =
    returned run
      (do_read_len-IsValid first (take (n - 1) pbuf) s (omega (arith, length-take (n - 1) pbuf)) v)
after_head-IsValid st now first pbuf n s s' (negsuc k) room there v run =
    returned run (fail-IsValid s v)

on_head-IsValid :
    (st : Stale) (now : ℕ) (chunk : List ℕ) (s s' : MqttSession)
    → length chunk ≤ head_size
    → IsValid s
    → on_head st now (some chunk) s ≡ ret s'
    → IsValid s'
unfolding on_head
on_head-IsValid st now [] s s' room v e = returned e (fail-IsValid s v)
on_head-IsValid st now (first ∷ []) s s' room v e =
    returned e (do_read_len-IsValid first [] s (omega arith) v)
on_head-IsValid st now (first ∷ b ∷ bs) s s' room v e =
    let n = length (first ∷ b ∷ bs) in
    let pbuf = b ∷ (bs ++ zeros (head_size - n)) in
    >>=-elim (length_ending pbuf n) _ e λ ending known rest.
      after_head-IsValid st now first pbuf n s s' ending room
        (omega (arith, length-append bs (zeros (head_size - n)))) v rest

on_phase-IsValid :
    (p : Phase) (st : Stale) (now : ℕ) (chunk : List ℕ) (s s' : MqttSession)
    → Gives p chunk
    → IsValid s
    → on_phase p st now (some chunk) s ≡ ret s'
    → IsValid s'
unfolding on_phase
on_phase-IsValid reading_head st now chunk s s' (give_head _ some_read room) v e =
    on_head-IsValid st now chunk s s' room v e
on_phase-IsValid (reading_len first got) st now chunk s s' (give_len _ _ _ some_read room) v e =
    on_len-IsValid st now first got chunk s s' room v e
on_phase-IsValid (reading_rest pdata n mh size) st now chunk s s' (give_rest _ _ _ _ _ all_read) v
      e =
    on_rest-IsValid st now pdata n mh size chunk s s' all_read v e
on_phase-IsValid stalled st now chunk s s' gives v e = elim gives [ ]
on_phase-IsValid resting st now chunk s s' gives v e = elim gives [ ]

pub on_read-IsValid :
    (st : Stale) (now : ℕ) (chunk : List ℕ) (s s' : MqttSession)
    → Gives s.phase chunk
    → IsValid s
    → on_read st now (some chunk) s ≡ ret s'
    → IsValid s'
unfolding on_read
on_read-IsValid st now chunk s s' gives v e = on_phase-IsValid s.phase st now chunk s s' gives v e

on_phase_error-IsValid :
    (p : Phase) (st : Stale) (now : ℕ) (s s' : MqttSession)
    → IsValid s
    → on_phase p st now none s ≡ ret s'
    → IsValid s'
unfolding on_phase on_head on_len on_rest
on_phase_error-IsValid reading_head st now s s' v e = returned e (fail-IsValid s v)
on_phase_error-IsValid (reading_len first got) st now s s' v e = returned e (fail-IsValid s v)
on_phase_error-IsValid (reading_rest pdata n mh size) st now s s' v e =
    returned e (fail-IsValid s v)
on_phase_error-IsValid stalled st now s s' v e = returned e v
on_phase_error-IsValid resting st now s s' v e = returned e v

pub on_read_error-IsValid :
    (st : Stale) (now : ℕ) (s s' : MqttSession)
    → IsValid s
    → on_read st now none s ≡ ret s'
    → IsValid s'
unfolding on_read
on_read_error-IsValid st now s s' v e = on_phase_error-IsValid s.phase st now s s' v e
