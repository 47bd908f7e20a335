-- ===== src/Tests.antt =====
-- Runs of the code on concrete inputs.
mod Wire
mod Program
mod Protocol
mod Session
mod Text
mod Channels
mod Client
mod Memory
mod Read
mod Reading
mod Sending
mod Server
