-- ===== src/Language.antt =====
-- The language of chunks (satis/ast.go, satis/parser.go, satis/validate.go).
pub mod Ast
pub mod Chars
pub mod Tokens
pub mod Values
pub mod Lines
pub mod Parse
pub mod Validate
pub mod Grammar
mod Samples
