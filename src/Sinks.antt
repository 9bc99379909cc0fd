-- ===== src/Sinks.antt =====
-- The sinks of scales/sink.py and scales/resurrector.py that guard the sink below them.
pub mod RefCounted
pub mod Resurrector
mod Tests
