-- ===== src/Wire.antt =====
-- What is read from the bodies that the server answers with.
pub mod Json
pub mod Validate
pub mod Codec
