-- ===== src/Heads.antt =====
-- frame_protocolhead.h: the heads of the frame's messages, and their encoding.
pub mod Fields
pub mod Trips
pub mod Conn
pub mod Client
pub mod Server
pub mod Uin
pub mod Dal
mod Tests
