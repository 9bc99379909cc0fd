-- ===== src/Kafka.antt =====
-- scales/kafka/protocol.py and scales/binary.py: what the Kafka client writes and reads.
pub mod Binary
pub mod Loops
pub mod Response
pub mod Request
pub mod Metadata
pub mod Cluster
pub mod Router
mod Tests
