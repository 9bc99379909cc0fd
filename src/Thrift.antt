-- ===== src/Thrift.antt =====
-- scales/thrift: the sinks of the thrift protocol.
pub mod Transport
pub mod Json
