-- ===== src/Session.antt =====
-- `MqttSession` of src/MqttSession.hpp.
pub mod Parse
pub mod Read
pub mod State
pub mod Message
pub mod Strand
pub mod Active
pub mod Steps
pub mod Write
