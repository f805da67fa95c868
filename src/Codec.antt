-- ===== src/Codec.antt =====
-- The encodings of Python's standard library that the client uses.
pub mod Base64
pub mod Utf8
pub mod Decimal
pub mod Hex
