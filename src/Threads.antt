-- ===== src/Threads.antt =====
-- scheduling/threads: programs whose threads share memory.
pub mod PingPong
pub mod Counting
mod Tests
