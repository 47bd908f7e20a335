-- ===== src/Exception/Defined.antt =====
-- For which numbers `message` of src/MqttException.hpp is defined.
use k_mqttd.Base.{
  ℕ, zero, suc, ◌*◌, ◌<◌, ◌≤◌, ◌≡◌, ◌↔◌, List, [], ◌∷◌, length, ltb, undef, pos, arith, Bool-cases,
  inl, inr, refl, ltb→lt,
}
use k_mqttd.Exception.{element, error_messages, message}

element_undef : {A : Type 0} (xs : List A) (n : ℕ) → (element xs n ≡ undef) ↔ (length xs ≤ n)
element_undef [] n = (λ e. omega arith, λ h. refl)
element_undef (a ∷ xs) zero = (λ e. absurd (cc e), λ h. absurd (omega arith))
element_undef (a ∷ xs) (suc n) =
    let (to, from) = element_undef xs n in
    (λ e. let h = to e in omega arith, λ h. from (omega arith))

-- The number of an error has no defined message exactly if it is at least 4, the number of texts, and
-- less than the size of the array of texts in bytes.
pub message-undef :
    (string_size ev : ℕ)
    → (message string_size (pos ev) ≡ undef) ↔ ((4 ≤ ev) × (ev < 4 * string_size))
unfolding message
message-undef string_size ev = elim (Bool-cases (ltb ev (4 * string_size))) [
  | inl inside ↦
      let (to, from) = element_undef error_messages ev in
      rw inside (λ e. (to e, ltb→lt ev (4 * string_size) inside), λ h. from h.0)
  | inr outside ↦ rw outside (λ e. absurd (cc e), λ h. absurd (ground arith))
]
