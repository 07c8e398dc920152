-- ===== src/Proto.antt =====
-- src/common/proto.c: packets over a byte stream, with the codes of src/common/proto.h.
pub mod Checksum
pub mod Fold
pub mod Opcode
pub mod Bytes
pub mod Packet
pub mod Header
pub mod Roundtrip
