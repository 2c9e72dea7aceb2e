-- ===== src/Net.antt =====
-- What the raw-socket programs share: bytes in memory, header fields, the Internet checksum.
pub mod Memory
pub mod Checksum
pub mod Header
