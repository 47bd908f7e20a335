-- ===== src/Protocol.antt =====
-- src/mqtt/Protocol.hpp and src/mqtt/Protocol.cpp: the control packets and their codecs.
pub mod Typed
pub mod Header
pub mod Frame
pub mod Connect
pub mod ConnectAck
pub mod Publish
pub mod Puback
pub mod Pubrec
pub mod Pubrel
pub mod Pubcomp
pub mod Unsuback
pub mod Ping
pub mod Pong
pub mod Disconnect
pub mod Subscribe
pub mod Unsubscribe
pub mod Suback
pub mod Message
pub mod Received
pub mod Undercount
pub mod Acks
