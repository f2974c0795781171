-- ===== src/CsvParser.antt =====
-- src/parser/CsvParser.cpp: orders from lines of text.
pub mod Defs
pub mod Lines
pub mod File
mod Tests
