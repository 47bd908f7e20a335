-- ===== src/Protocol/Typed/Bytes.antt =====
-- The parts of a packet as lists of bytes.
use mathlib.Core.List.{reverse, reverse_aux}
use k_mqttd.Base.{
  ℕ, zero, suc, ◌/◌, ◌^◌, ◌<◌, ◌≡◌, refl, sym, List, [], ◌∷◌, ◌++◌, append_assoc, append-nil,
  length, inl, inr, arith, Bool-cases, ltb,
}
use k_mqttd.Wire.Words.{htons, htonl, memory16}
use k_mqttd.Wire.Length.Varint.{varint, varint_upto}
use k_mqttd.Wire.Length.Encode.{enc_len_lem}
use k_mqttd.Protocol.Header.{MqttHeader, IsHeader, byte_of_header, ConnectFlag, byte_of_flag}
use k_mqttd.Protocol.Frame.{refuse, frame, text_field}
use k_mqttd.Protocol.Typed.{AllBytes, IsEncoding}

pub AllBytes-append : (xs ys : List ℕ) → AllBytes xs → AllBytes ys → AllBytes (xs ++ ys)
AllBytes-append [] ys hx hy = hy
AllBytes-append (x ∷ xs) ys (h, hx) hy = (h, AllBytes-append xs ys hx hy)

AllBytes-reverse_aux : (xs ys : List ℕ) → AllBytes xs → AllBytes ys → AllBytes (reverse_aux xs ys)
AllBytes-reverse_aux [] ys hx hy = hy
AllBytes-reverse_aux (x ∷ xs) ys (h, hx) hy = AllBytes-reverse_aux xs (x ∷ ys) hx (h, hy)

varint_upto-AllBytes : (k n : ℕ) → n < 128 ^ suc k → AllBytes (varint_upto k n)
unfolding varint_upto
varint_upto-AllBytes zero n h = (omega arith, tt)
varint_upto-AllBytes (suc k) n h = elim (Bool-cases (ltb n 128)) [
  | inl last ↦ rw last (ground arith, tt)
  | inr more ↦ rw more (omega arith, varint_upto-AllBytes k (n / 128) (ground arith))
]

varint-AllBytes : (n : ℕ) → n < 2 ^ 28 → AllBytes (varint n)
unfolding varint
varint-AllBytes n h = varint_upto-AllBytes 3 n (omega arith)

pub memory16-AllBytes : (x : ℕ) → AllBytes (memory16 x)
unfolding memory16
memory16-AllBytes x = (omega arith, (omega arith, tt))

pub text_field-AllBytes : (s : List ℕ) → AllBytes s → AllBytes (text_field s)
unfolding text_field
text_field-AllBytes s h =
    AllBytes-append (memory16 (htons (length s))) s (memory16-AllBytes (htons (length s))) h

byte_of_header-lt : (h : MqttHeader) → IsHeader h → byte_of_header h < 256
unfolding byte_of_header
byte_of_header-lt h fits = ground arith

pub byte_of_flag-lt : (f : ConnectFlag) → f.will_qos < 4 → byte_of_flag f < 256
unfolding byte_of_flag
byte_of_flag-lt f small = ground arith

pub refuse-IsEncoding {ℓ} :
    {M : Type ℓ} (m : M) (n : ℕ) (buf : List ℕ)
    → IsEncoding buf (refuse m n buf).buf (refuse m n buf).result
refuse-IsEncoding m n buf = record {
  tail = [];
  appends = sym (append-nil buf);
  typed = tt;
  outcome = inl (n, refl);
}

pub frame-IsEncoding {ℓ} :
    {M : Type ℓ} (m : M) (header : MqttHeader) (size : ℕ) (body buf : List ℕ)
    → IsHeader header
    → AllBytes body
    → IsEncoding buf (frame m header size body buf).buf (frame m header size body buf).result
unfolding frame
frame-IsEncoding m header size body buf fits h =
    let first = byte_of_header-lt header fits in
    elim (enc_len_lem (htonl size)) [
      | inl (big, e) ↦
          rw (e, frame)
            (record {
              tail = byte_of_header header ∷ [];
              appends = refl;
              typed = (first, tt);
              outcome = inl (6, refl);
            })
      | inr (small, e) ↦
          rw (e, frame)
            (record {
              tail = byte_of_header header ∷ ((0 ∷ reverse (varint (htonl size))) ++ body);
              appends = append_assoc buf _ _;
              typed = (
                first,
                (
                  omega arith,
                  AllBytes-append (reverse (varint (htonl size))) body
                      (AllBytes-reverse_aux (varint (htonl size)) []
                        (varint-AllBytes (htonl size) (omega arith)) tt)
                      h,
                ),
              );
              outcome = inr refl;
            })
    ]

pub frame-message {ℓ} :
    {M : Type ℓ} (m : M) (header : MqttHeader) (size : ℕ) (body buf : List ℕ)
    → (frame m header size body buf).message ≡ m
unfolding frame
frame-message m header size body buf = elim (enc_len_lem (htonl size)) [
  | inl (big, e) ↦ rw (e, frame) refl
  | inr (small, e) ↦ rw (e, frame) refl
]
