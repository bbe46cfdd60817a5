-- ===== src/Mosquitto.antt =====
-- mosquitto: publish COUNT messages to a local broker and take the time of each message that comes
-- back. The client library and the broker are not in the repository: they decide when the callback
-- `on_message` is called, which the model leaves open.
pub mod Exchange
pub mod Wait
pub mod Summary
pub mod Processes
pub mod Session
pub mod Burst
pub mod CpuLoad
pub mod QosSweep
pub mod Kills
mod Tests
