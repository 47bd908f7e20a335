-- ===== src/Exception.antt =====
-- `Mqtt_ErrorCategory` of src/MqttException.hpp.
pub mod Defined
use k_mqttd.Base.{
  ℕ, zero, suc, ◌*◌, ◌<◌, List, [], ◌∷◌, ltb, if◌then◌else◌, bytes, Exec, ret, undef, ℤ, pos,
  negsuc,
}

-- The first two literals have no comma between them, so they are one text.
abbrev pub error_messages : List (List ℕ)
error_messages =
    bytes "MQTT succes!MQTT length error!"
    ∷ bytes "MQTT protocol error!"
    ∷ bytes "MQTT decode error!"
    ∷ bytes "Socket is destroyed!"
    ∷ []

abbrev pub name : List ℕ
name = bytes "MQTT Exception "

-- An element of an array; past its end there is no defined behaviour.
abbrev pub element : {A : Type 0} → List A → ℕ → Exec A
element [] n = undef
element (a ∷ xs) zero = ret a
element (a ∷ xs) (suc n) = element xs n

-- `message`, where a `std::string` has `string_size` bytes, so that `sizeof` of the array is four times
-- that.
unfoldable pub message : ℕ → ℤ → Exec (List ℕ)
message string_size (pos ev) =
    let text = element error_messages ev in
    if ltb ev (4 * string_size) then text else ret (bytes "MQTT undefine error!")
message string_size (negsuc n) = ret (bytes "MQTT undefine error!")
