-- ===== src/Protocol/Typed.antt =====
-- Messages of src/mqtt/Protocol.hpp whose members are within their types, and what their encoders write.
pub mod Bodies
pub mod Bytes
pub mod Encoders
use k_mqttd.Base.{ℕ, ◌<◌, ◌≡◌, ◌⊎◌, List, [], ◌∷◌, ◌++◌, length, ℤ, negsuc, int_of_size}
use k_mqttd.Wire.Words.{IsByte}
use k_mqttd.Protocol.Header.{IsHeader}
use k_mqttd.Protocol.Message
use k_mqttd.Protocol.Message.{Message}

abbrev pub AllBytes : List ℕ → Type 0
AllBytes [] = Unit
AllBytes (b ∷ bs) = IsByte b × AllBytes bs

abbrev pub AllTexts : List (List ℕ) → Type 0
AllTexts [] = Unit
AllTexts (t ∷ ts) = AllBytes t × AllTexts ts

abbrev pub AllTopics : List (List ℕ × ℕ) → Type 0
AllTopics [] = Unit
AllTopics ((t, qos) ∷ ts) = AllBytes t × AllTopics ts

-- The members of a message that are written as they are.
abbrev pub HasBytes : Message → Type 0
HasBytes (Message.connect m) =
    AllBytes m.protocol
    × IsByte m.level
    × (m.flag.will_qos < 4)
    × AllBytes m.cid
    × AllBytes m.will_topic
    × AllBytes m.will_msg
    × AllBytes m.user
    × AllBytes m.passwd
HasBytes (Message.connack m) = IsByte m.sp
HasBytes (Message.publish m) = AllBytes m.topic × AllBytes m.payload
HasBytes (Message.subscribe m) = AllTopics m.topics
HasBytes (Message.suback m) = AllBytes m.results
HasBytes (Message.unsubscribe m) = AllTexts m.topics
HasBytes _ = Unit

-- What `encode` has made of a buffer: bytes behind those that were there, and a result that is negative
-- or the length of the buffer.
pub record IsEncoding (buf buf' : List ℕ) (result : ℤ) : Type 0 where
  pub tail : List ℕ
  pub appends : buf' ≡ buf ++ tail
  pub typed : AllBytes tail
  pub outcome : ((n : ℕ) × (result ≡ negsuc n)) ⊎ (result ≡ int_of_size (length buf'))
