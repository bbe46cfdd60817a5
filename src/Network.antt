-- ===== src/Network.antt =====
-- network_and_security/network_and_security.c
pub mod Ports
pub mod Ciphers
pub mod System
pub mod Throughput
pub mod Main
mod Tests
