-- ===== src/Language/Validate/Parsed.antt =====
-- What the parser returns has its form (satis/parser.go), so that the validator lets it through.
pub mod Files
pub mod Objects
pub mod Calls
pub mod All
pub mod Sources
