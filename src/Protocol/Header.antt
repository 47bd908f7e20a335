-- ===== src/Protocol/Header.antt =====
-- The fixed header byte, the CONNECT flags and the enumerations of src/mqtt/Protocol.hpp. Both
-- structs are packed into one byte, the first member in the lowest bits.
use k_mqttd.Base.{
  List, [], ◌∷◌, get_elem?, none, some, ℕ, ◌+◌, ◌*◌, ◌/◌, ◌%◌, ◌<◌, ◌≡◌, Bool, arith, ◌==◌,
  if◌then◌else◌,
}

pub data Command : Type 0 where
  no_command connect connack publish puback pubrec pubrel pubcomp subscribe suback : Command
  unsubscribe unsuback pingreq pingresp disconnect reserved : Command

abbrev commands : List Command
commands =
    no_command ∷ connect ∷ connack ∷ publish ∷ puback ∷ pubrec ∷ pubrel ∷ pubcomp ∷ subscribe
    ∷ suback ∷ unsubscribe ∷ unsuback ∷ pingreq ∷ pingresp ∷ disconnect ∷ reserved ∷ []

abbrev pub command_code : Command → ℕ
command_code no_command = 0
command_code connect = 1
command_code connack = 2
command_code publish = 3
command_code puback = 4
command_code pubrec = 5
command_code pubrel = 6
command_code pubcomp = 7
command_code subscribe = 8
command_code suback = 9
command_code unsubscribe = 10
command_code unsuback = 11
command_code pingreq = 12
command_code pingresp = 13
command_code disconnect = 14
command_code reserved = 15

-- The command of a code, as a `switch` on the code finds it.
abbrev pub command_of : ℕ → Command
command_of n = elim (get_elem? commands n) [ none ↦ reserved | some c ↦ c ]

abbrev pub qos0 : ℕ
qos0 = 0

abbrev pub qos1 : ℕ
qos1 = 1

abbrev pub qos2 : ℕ
qos2 = 2

pub record MqttHeader : Type 0 where
  pub retain : Bool
  pub qos : ℕ
  pub dup : Bool
  pub command : ℕ

-- What the widths of the bit fields allow.
pub record IsHeader (h : MqttHeader) : Type 0 where
  pub qos_bits : h.qos < 4
  pub command_bits : h.command < 16

abbrev bit : Bool → ℕ
bit b = if b then 1 else 0

unfoldable pub byte_of_header : MqttHeader → ℕ
byte_of_header h = bit h.retain + 2 * h.qos + 8 * bit h.dup + 16 * h.command

unfoldable pub header_of_byte : ℕ → MqttHeader
header_of_byte b = record {
  retain = b % 2 == 1;
  qos = b / 2 % 4;
  dup = b / 8 % 2 == 1;
  command = b / 16 % 16;
}

-- The order of an aggregate initialiser: the first member is `Retain`.
unfoldable pub make_header : Bool → ℕ → Bool → Command → MqttHeader
make_header first qos third c = record {
  retain = first;
  qos = qos % 4;
  dup = third;
  command = command_code c;
}

pub record ConnectFlag : Type 0 where
  pub reserved_bit : Bool
  pub clean_session : Bool
  pub will_flag : Bool
  pub will_qos : ℕ
  pub will_retain : Bool
  pub passwd_flag : Bool
  pub name_flag : Bool

unfoldable pub byte_of_flag : ConnectFlag → ℕ
byte_of_flag f =
    bit f.reserved_bit
    + 2 * bit f.clean_session
    + 4 * bit f.will_flag
    + 8 * f.will_qos
    + 32 * bit f.will_retain
    + 64 * bit f.passwd_flag
    + 128 * bit f.name_flag

unfoldable pub flag_of_byte : ℕ → ConnectFlag
flag_of_byte b = record {
  reserved_bit = b % 2 == 1;
  clean_session = b / 2 % 2 == 1;
  will_flag = b / 4 % 2 == 1;
  will_qos = b / 8 % 4;
  will_retain = b / 32 % 2 == 1;
  passwd_flag = b / 64 % 2 == 1;
  name_flag = b / 128 % 2 == 1;
}

-- A header whose fields fit their widths is read back from its byte.
header_of_byte-byte_of_header :
    (h : MqttHeader) → IsHeader h → header_of_byte (byte_of_header h) ≡ h
unfolding header_of_byte byte_of_header
header_of_byte-byte_of_header h v = ground arith

-- Every byte that is read as a header is written as the same byte.
byte_of_header-header_of_byte : (b : ℕ) → b < 256 → byte_of_header (header_of_byte b) ≡ b
unfolding header_of_byte byte_of_header
byte_of_header-header_of_byte b h = ground arith

-- CONNECT's flags, with a quality of service of two bits, are read back from their byte.
flag_of_byte-byte_of_flag : (f : ConnectFlag) → f.will_qos < 4 → flag_of_byte (byte_of_flag f) ≡ f
unfolding flag_of_byte byte_of_flag
flag_of_byte-byte_of_flag f h = ground arith

-- A header whose quality of service is below 4 and whose command is below 16 is read back from its
-- byte, every byte that is read as a header is written as the same byte, and CONNECT's flags, with a
-- quality of service below 4, are read back from their byte.
bytes_back :
    (h : MqttHeader) (b : ℕ) (f : ConnectFlag)
    → IsHeader h
    → b < 256
    → f.will_qos < 4
    → (header_of_byte (byte_of_header h) ≡ h)
      × (byte_of_header (header_of_byte b) ≡ b)
      × (flag_of_byte (byte_of_flag f) ≡ f)
bytes_back h b f fits small qos = (
  header_of_byte-byte_of_header h fits,
  byte_of_header-header_of_byte b small,
  flag_of_byte-byte_of_flag f qos,
)

-- What the memory of a new message holds before anything is assigned.
pub record Stale : Type 0 where
  pub size : ℕ
  pub header : MqttHeader
  pub byte : ℕ
  pub word : ℕ
  pub flag : ConnectFlag
