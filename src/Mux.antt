-- ===== src/Mux.antt =====
-- scales/mux and scales/thriftmux: requests multiplexed over one connection by their tags.
pub mod Bytes
pub mod Header
pub mod TagPool
pub mod Transport
pub mod Serializer
mod Tests
