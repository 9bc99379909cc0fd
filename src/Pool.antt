-- ===== src/Pool.antt =====
-- scales/pool: pools of sinks to one endpoint.
pub mod Watermark
pub mod Singleton
