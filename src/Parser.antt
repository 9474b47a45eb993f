-- ===== src/Parser.antt =====
-- Text formats and patterns: src/parser.
pub mod Glob
