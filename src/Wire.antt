-- ===== src/Wire.antt =====
-- Numbers on the wire: host and network byte order, and the remaining length field.
pub mod Words
pub mod Length
