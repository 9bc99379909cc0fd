-- ===== src/Async.antt =====
-- scales/asynchronous.py: results that others wait for.
pub mod WhenAll
pub mod WhenAny
pub mod Unwrap
mod Tests
