-- ===== src/Kernel.antt =====
-- TPE3, the kernel with tasks, paging, consoles and a versioned file system.
pub mod Task
pub mod Queue
pub mod Strings
pub mod Scheduler
pub mod Keyboard
pub mod Paging
