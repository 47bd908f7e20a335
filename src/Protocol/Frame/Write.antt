-- ===== src/Protocol/Frame/Write.antt =====
-- What `frame` writes, and when it refuses.
use mathlib.Core.List.{reverse}
use k_mqttd.Base.{
  Option-cases, ℕ, ◌+◌, ◌*◌, ◌/◌, ◌%◌, ◌^◌, ◌<◌, ◌≤◌, ◌≡◌, refl, ◌⊎◌, inl, inr, List, [], ◌∷◌, ◌++◌,
  length, length-append, some, none, arith, ℤ, negsuc, int_of_size, append_assoc,
}
use k_mqttd.Wire.Words.{htonl, htons, memory16, IsUint}
use k_mqttd.Wire.Length.{enc_len}
use k_mqttd.Wire.Length.Varint.{varint}
use k_mqttd.Wire.Length.Encode.{enc_len_lem}
use k_mqttd.Protocol.Header.{MqttHeader, byte_of_header}
use k_mqttd.Protocol.Frame.{refuse, frame, text_field}

htonl_range : (size : ℕ) → IsUint size → 0x0fffffff < htonl size → 16 ≤ size % 256
unfolding htonl
htonl_range size h lt = omega arith

htonl_small : (size : ℕ) → IsUint size → htonl size ≤ 0x0fffffff → size % 256 < 16
unfolding htonl
htonl_small size h le = omega arith

-- The length bytes that a size gets: those of its byte-swapped value.
abbrev pub swapped_length : ℕ → List ℕ
swapped_length size = 0 ∷ reverse (varint (htonl size))

-- The length goes through `htonl` before `encLen`, which refuses what is past 28 bits: a packet
-- is refused exactly where the low byte of its size is 16 or more. Then the header byte stands in
-- the buffer and the result is -7. Any other packet is written whole, and the result is the
-- length of the buffer.
pub frame_lem {ℓ} :
    {M : Type ℓ} (m : M) (header : MqttHeader) (size : ℕ) (body buf : List ℕ)
    → IsUint size
    → ((16 ≤ size % 256)
        × (frame m header size body buf ≡ refuse m 6 (buf ++ (byte_of_header header ∷ []))))
      ⊎ ((size % 256 < 16)
          × ((frame m header size body buf).buf
              ≡ buf ++ (byte_of_header header ∷ (swapped_length size ++ body)))
          × ((frame m header size body buf).message ≡ m)
          × ((frame m header size body buf).result
              ≡ int_of_size (length (frame m header size body buf).buf)))
unfolding frame
frame_lem m header size body buf h = elim (enc_len_lem (htonl size)) [
  | inl (big, e) ↦ inl (htonl_range size h big, rw (e, frame))
  | inr (small, e) ↦
      inr (
        htonl_small size h small,
        rw (e, frame) (append_assoc buf _ _),
        rw (e, frame),
        rw (e, frame),
      )
]

pub frame_refused {ℓ} :
    {M : Type ℓ} (m : M) (header : MqttHeader) (size : ℕ) (body buf : List ℕ)
    → IsUint size
    → 16 ≤ size % 256
    → frame m header size body buf ≡ refuse m 6 (buf ++ (byte_of_header header ∷ []))
frame_refused m header size body buf h big = elim (frame_lem m header size body buf h) [
  | inl (_, e) ↦ e
  | inr (small, _, _, _) ↦ absurd (omega arith)
]

pub frame_written {ℓ} :
    {M : Type ℓ} (m : M) (header : MqttHeader) (size : ℕ) (body buf : List ℕ)
    → IsUint size
    → size % 256 < 16
    → (frame m header size body buf).buf
      ≡ buf ++ (byte_of_header header ∷ (swapped_length size ++ body))
frame_written m header size body buf h small = elim (frame_lem m header size body buf h) [
  | inl (big, _) ↦ absurd (omega arith)
  | inr (_, e, _, _) ↦ e
]

-- What is written does not depend on the message that the encoder hands on.
pub frame_buf {ℓ} :
    {M : Type ℓ} (m m' : M) (header : MqttHeader) (size : ℕ) (body buf : List ℕ)
    → (frame m header size body buf).buf ≡ (frame m' header size body buf).buf
unfolding frame
frame_buf m m' header size body buf = elim (Option-cases (enc_len (htonl size))) [
  | inl e ↦ rw (e, frame)
  | inr (bs, e) ↦ rw (e, frame)
]

-- A text is written behind its length, high byte first.
text_field_lem :
    (s : List ℕ) → length s < 2 ^ 16 → text_field s ≡ (length s / 256) ∷ (length s % 256) ∷ s
unfolding text_field htons memory16
text_field_lem s h = ground arith

-- After two `htons` the low byte comes first.
memory16-htons-htons :
    (x : ℕ) → x < 2 ^ 16 → memory16 (htons (htons x)) ≡ (x % 256) ∷ (x / 256) ∷ []
unfolding htons memory16
memory16-htons-htons x h = ground arith

pub length-memory16 : (x : ℕ) → length (memory16 x) ≡ 2
unfolding memory16
length-memory16 x = refl

pub length-text_field : (s : List ℕ) → length (text_field s) ≡ length s + 2
unfolding text_field memory16
length-text_field s = omega arith

pub ruleset wire_lengths = (length-append, length-memory16, length-text_field)
