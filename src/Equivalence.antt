-- ===== src/Equivalence.antt =====
-- The equivalence lab (src/cobol_modernizer/equivalence): tolerance rules, the field-aware diff of
-- golden and candidate records, its defects and report, sub-slices and record layouts.
pub mod Tolerance
pub mod Differ
pub mod Lab
pub mod Subslice
pub mod RecordLayout
pub mod CobolNumeric
