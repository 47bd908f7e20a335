-- ===== src/Tests/Wire.antt =====
-- Runs of src/mqtt/Protocol.cpp's length field.
use mathlib.Core.List.{reverse}
use k_mqttd.Base.{◌≡◌, ◌<◌, ◌≤◌, ◌⊎◌, refl, [], ◌∷◌, some, none, ret, undef, arith}
use k_mqttd.Wire.Length.{enc_len, dec_len}
use k_mqttd.Wire.Length.Varint.{varint}
use k_mqttd.Wire.Length.Encode.{enc_len_lem}
use k_mqttd.Wire.Length.Decode.{dec_len-varint}

varint_321 : varint 321 ≡ 0xc1 ∷ 0x02 ∷ []
unfolding varint
varint_321 = refl

enc_len_321 : enc_len 321 ≡ some (0 ∷ 0x02 ∷ 0xc1 ∷ [])
unfolding enc_len
enc_len_321 = refl

-- A final byte 0x7f does not end the loop.
dec_len_runs_on : dec_len (0x7f ∷ 0x01 ∷ []) ≡ ret 255
unfolding dec_len
dec_len_runs_on = refl

-- Six bytes shift an `int` by 35.
dec_len_six : dec_len (0xff ∷ 0xff ∷ 0xff ∷ 0x80 ∷ 0x80 ∷ 0xff ∷ []) ≡ undef
unfolding dec_len
dec_len_six = refl

enc_len_example :
    ((0x0fffffff < 321) × (enc_len 321 ≡ none))
    ⊎ ((321 ≤ 0x0fffffff) × (enc_len 321 ≡ some (0 ∷ reverse (varint 321))))
enc_len_example = enc_len_lem 321

dec_len-varint_example : dec_len (varint 321) ≡ ret 321
dec_len-varint_example = dec_len-varint 321 (omega arith)
