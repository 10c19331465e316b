-- ===== src/Utils.antt =====
-- analyzer/utils: the byte buffer and the linear state machine that the stream parsers are built on.
pub mod ByteBuffer
pub mod Lsm
pub mod Strings
pub mod Sorting
