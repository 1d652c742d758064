-- ===== src/Fantasy/Message.antt =====
-- TPE1/src/marshalling/message_serialization.c: the requests of a client as bytes, and back.
pub mod Defs
pub mod Encode
pub mod Decode
pub mod Layout
pub mod Read
pub mod Roundtrip
