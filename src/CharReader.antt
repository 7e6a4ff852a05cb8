-- ===== src/CharReader.antt =====
-- src/parser/char_reader.rs: characters from a stream of bytes, one ahead.
pub mod Utf8
pub mod Reader
pub mod Contents
pub mod Rounds
