-- ===== src/Codec.antt =====
-- What the binary formats share: error results, big-endian numbers, UTF-8, the buffer cursor, and
-- the rules by which a reader is shown to undo a writer.
pub mod Io
pub mod Bytes
pub mod Utf8
pub mod Cursor
pub mod Reads
pub mod Extends
