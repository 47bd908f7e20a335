-- ===== src/Protocol/Frame.antt =====
-- What the `encode` and `decode` functions of src/mqtt/Protocol.cpp have in common.
pub mod Write
pub mod Read
use k_mqttd.Base.{
  ℕ, zero, suc, ◌+◌, ◌-◌, ◌*◌, ◌/◌, ◌&&◌, Option, none, some, List, [], ◌∷◌, ◌++◌, ltb, leb,
  if◌then◌else◌, length, take, drop, replicate, get_elem?, Exec, ret, undef, demand, ◌>>=◌, ◌>>◌, ℤ,
  negsuc, int_of_size,
}
use k_mqttd.Wire.Words.{htons, htonl, memory16}
use k_mqttd.Wire.Length.{enc_len, dec_len}
use k_mqttd.Protocol.Header.{MqttHeader, byte_of_header, header_of_byte}

-- What `encode` leaves: the message (some encoders set its size), the result and the buffer.
pub record Encoded {ℓ} (M : Type ℓ) : Type ℓ where
  pub message : M
  pub result : ℤ
  pub buf : List ℕ

-- `return -(n + 1)`, with nothing more written.
abbrev pub refuse {ℓ} : {M : Type ℓ} → M → ℕ → List ℕ → Encoded M
refuse m n buf = record { message = m; result = negsuc n; buf = buf }

-- The header byte, the length and the rest of the packet, appended in this order. Where `encLen`
-- gives no buffer the result is -7, and the header byte has been written.
unfoldable pub frame {ℓ} : {M : Type ℓ} → M → MqttHeader → ℕ → List ℕ → List ℕ → Encoded M
frame m header size body buf =
    let opened = buf ++ (byte_of_header header ∷ []) in
    elim (enc_len (htonl size)) [
      | none ↦ refuse m 6 opened
      | some len_buf ↦ record {
        message = m;
        result = int_of_size (length (opened ++ (len_buf ++ body)));
        buf = opened ++ (len_buf ++ body);
      }
    ]

-- A text behind its length, high byte first.
unfoldable pub text_field : List ℕ → List ℕ
text_field s = memory16 (htons (length s)) ++ s

-- `buf[i]`.
unfoldable pub at : List ℕ → ℕ → Exec ℕ
at buf i = elim (get_elem? buf i) [ none ↦ undef | some b ↦ ret b ]

-- `std::copy` from `begin + first` up to `begin + last`.
unfoldable pub copy_range : List ℕ → ℕ → ℕ → Exec (List ℕ)
copy_range buf first last = do
  demand (leb first last && leb last (length buf))
  ret (take (last - first) (drop first buf))

-- Bytes copied over the two of a `Uint16` variable that holds `t`.
store16 : ℕ → List ℕ → Exec ℕ
store16 t [] = ret t
store16 t (a ∷ []) = ret (a + t / 256 * 256)
store16 t (a ∷ b ∷ []) = ret (a + b * 256)
store16 t (a ∷ b ∷ c ∷ bs) = undef

unfoldable pub copy_into16 : ℕ → List ℕ → ℕ → ℕ → Exec ℕ
unfolding store16 copy_range
copy_into16 t buf first last = do bs ← copy_range buf first last; store16 t bs

unfoldable pub read_header : List ℕ → Exec MqttHeader
unfolding at
read_header buf = do b ← at buf 0; ret (header_of_byte b)

-- The loop `for (int i = 1; i < 5; ++i)` that counts the bytes of the length, by the rounds left.
length_width : ℕ → List ℕ → ℕ → ℕ → Exec ℕ
unfolding at
length_width zero buf i ll = ret ll
length_width (suc rounds) buf i ll = do
  b ← at buf i
  if ltb 0x7f b then length_width rounds buf (i + 1) (ll + 1) else ret ll

-- The size and the step behind the length field. `vector<Uint8> buf_len(ll)` holds `ll` zeros
-- before anything is copied behind them, and the range ends at `begin + ll`.
unfoldable pub read_length : List ℕ → Exec (ℕ × ℕ)
unfolding length_width copy_range
read_length buf = do
  ll ← length_width 4 buf 1 1
  bs ← copy_range buf 1 ll
  l ← dec_len (replicate ll 0 ++ bs)
  ret (htonl l, 1 + ll)

-- A text behind its length, as `decode` reads it: the bytes, the step behind them, and what the
-- length variable holds. Both ranges end where the source says, at `begin + 2` and `begin + t`.
unfoldable pub read_text : ℕ → List ℕ → ℕ → Exec (List ℕ × ℕ × ℕ)
unfolding copy_into16
read_text t buf step = do
  t' ← copy_into16 t buf step 2
  s ← copy_range buf (step + 2) (htons t')
  ret (s, step + 2 + htons t', htons t')
