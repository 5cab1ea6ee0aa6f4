-- ===== src/Spend/Reader.antt =====
-- internal/spend/reader.go: the checks that a record passes before it is decoded.
pub mod Columns
pub mod Csv
pub mod Json
