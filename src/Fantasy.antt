-- ===== src/Fantasy.antt =====
-- TPE1, the fantasy league server and its clients.
pub mod Wire
pub mod Transport
pub mod Message
pub mod Reply
pub mod Game
pub mod Storage
