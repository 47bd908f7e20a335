-- ===== src/Protocol/Connect.antt =====
-- `MqttConnect` of src/mqtt/Protocol.hpp and src/mqtt/Protocol.cpp.
pub mod Accept
use k_mqttd.Base.{
  bool_ne, Option, none, some, ℕ, ◌+◌, ◌%◌, ◌^◌, List, [], ◌∷◌, ◌++◌, length, Exec, ret, ◌>>=◌,
  Bool, true, false, not, ◌&&◌, ◌||◌, ℤ, int_of_size, leb, ltb, ◌==◌, if◌then◌else◌, bytes,
  bytes_eq,
}
use k_mqttd.Wire.Words.{htons, memory16}
use k_mqttd.Protocol.Header.{
  MqttHeader, ConnectFlag, Stale, connect, qos0, make_header, byte_of_flag, flag_of_byte,
}
use k_mqttd.Protocol.Frame.{
  Encoded, frame, refuse, text_field, at, copy_into16, read_header, read_length, read_text,
}

pub record MqttConnect : Type 0 where
  pub size : ℕ
  pub header : MqttHeader
  pub protocol : List ℕ
  pub level : ℕ
  pub flag : ConnectFlag
  pub keep_time : ℕ
  pub cid : List ℕ
  pub will_topic : List ℕ
  pub will_msg : List ℕ
  pub user : List ℕ
  pub passwd : List ℕ

-- The constructor with no argument: the texts are empty and the rest is not assigned.
abbrev pub blank : Stale → MqttConnect
blank s = record {
  size = s.size;
  header = s.header;
  protocol = [];
  level = s.byte;
  flag = s.flag;
  keep_time = s.word;
  cid = [];
  will_topic = [];
  will_msg = [];
  user = [];
  passwd = [];
}

abbrev pub protocol_name : List ℕ
protocol_name = bytes "MQTT"

abbrev default_flag : ConnectFlag
default_flag = record {
  reserved_bit = false;
  clean_session = false;
  will_flag = false;
  will_qos = 1;
  will_retain = false;
  passwd_flag = true;
  name_flag = true;
}

unfoldable pub make : ℕ → ℕ → List ℕ → List ℕ → List ℕ → List ℕ → List ℕ → MqttConnect
make ver keep_time cid will_topic will_msg name passwd = record {
  size = 0;
  header = make_header false qos0 false connect;
  protocol = protocol_name;
  level = ver;
  flag = default_flag;
  keep_time = keep_time;
  cid = cid;
  will_topic = will_topic;
  will_msg = will_msg;
  user = name;
  passwd = passwd;
}

-- `[a-zA-Z0-9@._]`
unfoldable pub is_cid_byte : ℕ → Bool
is_cid_byte c =
    (leb b'a' c && leb c b'z')
    || (leb b'A' c && leb c b'Z')
    || (leb b'0' c && leb c b'9')
    || c == b'@'
    || c == b'.'
    || c == b'_'

all_cid_bytes : List ℕ → Bool
unfolding is_cid_byte
all_cid_bytes [] = true
all_cid_bytes (c ∷ cs) = is_cid_byte c && all_cid_bytes cs

-- `c_str()` as a C string: up to the first zero byte.
unfoldable pub c_str : List ℕ → List ℕ
c_str [] = []
c_str (c ∷ cs) = if c == 0 then [] else c ∷ c_str cs

-- `regex_match` of the C string against `^[a-zA-Z0-9@._]{0,23}$`.
unfoldable pub matches_expression : List ℕ → Bool
unfolding all_cid_bytes c_str
matches_expression cid = leb (length (c_str cid)) 23 && all_cid_bytes (c_str cid)

-- The sizes are computed in `Uint`.
unfoldable pub packet_size : MqttConnect → ℕ
packet_size m =
    let vheader_len = (2 + length m.protocol + 1 + 1 + 2) % 2 ^ 32 in
    let payload_len =
      (2
        + length m.cid
        + 2
        + length m.will_topic
        + 2
        + length m.will_msg
        + 2
        + length m.user
        + 2
        + length m.passwd)
      % 2 ^ 32 in
    (vheader_len + payload_len) % 2 ^ 32

-- The length of the protocol name goes through `htons` twice.
unfoldable pub packet_body : MqttConnect → List ℕ
packet_body m =
    memory16 (htons (htons (length m.protocol)))
    ++ (m.protocol
        ++ (m.level
            ∷ byte_of_flag m.flag
            ∷ (memory16 (htons m.keep_time)
                ++ (text_field m.cid
                    ++ (text_field m.will_topic
                        ++ (text_field m.will_msg
                            ++ (text_field m.user ++ text_field m.passwd)))))))

-- The first of the tests at the head of `encode` that fails, counted from 0: test `n` returns
-- -(n + 1).
first_failed : MqttConnect → Option ℕ
unfolding matches_expression
first_failed m =
    if not (bytes_eq m.protocol protocol_name)
    then some 0
    else if not (matches_expression m.cid)
    then some 1
    else if length m.cid == 0 && not m.flag.clean_session
    then some 2
    else if bool_ne m.flag.name_flag m.flag.passwd_flag
    then some 3
    else if (m.flag.name_flag && length m.user == 0)
        || (not m.flag.name_flag && ltb 0 (length m.user))
    then some 4
    else if (m.flag.passwd_flag && length m.passwd == 0)
        || (not m.flag.passwd_flag && ltb 0 (length m.passwd))
    then some 5
    else none

unfoldable pub encode : MqttConnect → List ℕ → Encoded MqttConnect
unfolding first_failed
encode m buf = elim (first_failed m) [
  | some n ↦ refuse m n buf
  | none ↦ frame (record m { size = packet_size m }) m.header (packet_size m) (packet_body m) buf
]

unfoldable pub decode : MqttConnect → List ℕ → Exec (MqttConnect × ℤ)
decode m buf = do
  header ← read_header buf
  (size, step) ← read_length buf
  (protocol, step1, t1) ← read_text 0 buf step
  level ← at buf step1
  flag ← at buf (step1 + 1)
  t2 ← copy_into16 t1 buf (step1 + 2) 2
  (cid, step2, t3) ← read_text t2 buf (step1 + 4)
  (will_topic, step3, t4) ← read_text t3 buf step2
  (will_msg, step4, t5) ← read_text t4 buf step3
  (user, step5, t6) ← read_text t5 buf step4
  (passwd, step6, t7) ← read_text t6 buf step5
  ret (
    record m {
      header = header;
      size = size;
      protocol = m.protocol ++ protocol;
      level = level;
      flag = flag_of_byte flag;
      keep_time = htons t2;
      cid = m.cid ++ cid;
      will_topic = m.will_topic ++ will_topic;
      will_msg = m.will_msg ++ will_msg;
      user = m.user ++ user;
      passwd = m.passwd ++ passwd;
    },
    int_of_size (length buf),
  )
