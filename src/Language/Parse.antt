-- ===== src/Language/Parse.antt =====
-- Parsing an instruction from its tokens (satis/parser.go). The error of an instruction names its
-- line, so that it does not matter here which of several errors comes first.
pub mod Files
pub mod Objects
pub mod Calls
pub mod Chunks
