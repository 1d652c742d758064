-- ===== src/Tests.antt =====
-- Runs at concrete inputs, and each theorem at an input that meets its hypotheses.
mod Messages
mod Queues
mod Tasks
mod Processes
mod Keys
mod Pages
mod Texts
mod Files
mod Games
