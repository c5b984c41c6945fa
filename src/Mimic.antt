-- ===== src/Mimic.antt =====
-- The legacy mimic: the numeric codecs and the fixed-width layout (src/cobol_modernizer/mimic).
pub mod Codec
pub mod Layout
