-- ===== src/Language/Samples.antt =====
-- A small source: a folder is resolved and then read as a file, which the validator refuses.
use satis.Base.{fold_case, Text, bytes, word_eq, false, some, List, [], ◌∷◌, ◌++◌, ◌≡◌, refl}
use satis.Base.Ints.{pos}
use satis.Vfs.Names.{trim_space, split}
use satis.Language.Chars.{is_variable, has_prefix, all_bytes, opening, closing}
use satis.Language.Tokens.{tokenize_command_line, next_tokens, skip_spaces}
use satis.Language.Tokens.Enough.{tokenize_command_line_rounds}
use satis.Language.Tokens.Quoted.{print_tokens, tokenize_command_line-print_tokens}
use satis.Language.Values.{string_value, unescape_triple_bracket, parse_triple_bracket}
use satis.Language.Values.Escape.{escape, parse_triple_bracket-escape}
use satis.Language.Lines.{ok, split_logical_lines}
use satis.Language.Lines.Plain.{numbered, line_texts, split_logical_lines-plain}
use satis.Language.Ast.{Instruction, Chunk, SoftwareRegistry, ResolveStmt, ReadStmt, folder}
use satis.Language.Parse.Chunks.{parse_instruction, parse}
use satis.Language.Grammar.{IsPath, IsStatement, brackets, literal, named, of_path}
use satis.Language.Grammar
use satis.Language.Grammar.Accepted.{parse_instruction-accepts}
use satis.Language.Validate.{validate, invalid}
use satis.Language.Validate.Forms.{is_fitting}
use satis.Language.Validate.Report.{Explains, IsFirstFault, validate-Explains}
use satis.Language.Validate.Parsed.Sources.{IsParsed, parse-IsParsed, validate-parsed}

abbrev registry : SoftwareRegistry
registry = record { by_name = [] }

abbrev lines : List Text
lines =
    bytes "chunk_id: a"
    ∷ bytes "intent_uid: b"
    ∷ bytes "Resolve folder docs as @d"
    ∷ bytes "read @d as @x"
    ∷ []

abbrev joined : List Text → Text
joined [] = []
joined (line ∷ rest) = line ++ 10 ∷ joined rest

abbrev source : Text
source = joined lines

abbrev resolved : ResolveStmt
resolved = record { line = 3; target_kind = folder; path = bytes "docs"; output_var = bytes "@d" }

abbrev reading : ReadStmt
reading = record {
  line = 4;
  object_var = bytes "@d";
  path = [];
  start_line = pos 0;
  end_line = pos 0;
  output_var = bytes "@x";
}

abbrev chunk : Chunk
chunk = record {
  meta = (bytes "chunk_id", bytes "a") ∷ (bytes "intent_uid", bytes "b") ∷ [];
  instructions = Instruction.resolve resolved ∷ Instruction.read reading ∷ [];
}

parsed : parse registry source ≡ ok chunk
unfolding parse
parsed = refl

refused : validate chunk ≡ invalid 2
unfolding validate
refused = refl

tokenize_command_line_rounds_example :
    tokenize_command_line (bytes "read @d as @x")
    ≡ next_tokens tokenize_command_line (skip_spaces (bytes "read @d as @x"))
tokenize_command_line_rounds_example = tokenize_command_line_rounds (bytes "read @d as @x")

abbrev quoted : List Text
quoted = bytes "cd" ∷ bytes "a \"b\" \\ c" ∷ [] ∷ []

tokenize_command_line-print_tokens_example :
    tokenize_command_line (print_tokens quoted) ≡ some quoted
tokenize_command_line-print_tokens_example = tokenize_command_line-print_tokens quoted

parse_triple_bracket-escape_example :
    parse_triple_bracket (opening ++ escape (bytes "a\tb\\") ++ closing) ≡ some (bytes "a\tb\\")
parse_triple_bracket-escape_example = parse_triple_bracket-escape (bytes "a\tb\\")

split_logical_lines-plain_example :
    split_logical_lines source ≡ ok (numbered 1 (line_texts (split b'\n' source)))
unfolding all_bytes
split_logical_lines-plain_example = split_logical_lines-plain source refl

parse-IsParsed_example : IsParsed chunk
parse-IsParsed_example = parse-IsParsed registry source chunk parsed

validate-Explains_example : Explains chunk (validate chunk)
validate-Explains_example = validate-Explains chunk

validate-parsed_example :
    (fault : IsFirstFault 1 chunk.instructions [] 2) × (is_fitting fault.last fault.fault ≡ false)
validate-parsed_example = validate-parsed registry source chunk 2 parsed refused

abbrev line : List Text
line =
    bytes "WRITE"
    ∷ bytes "[[[two\\nlines]]]"
    ∷ bytes "into"
    ∷ bytes "docs/a.txt"
    ∷ bytes "as"
    ∷ bytes "@f"
    ∷ []

abbrev written : Instruction
written = Instruction.write (record {
  line = 7;
  value = string_value (bytes "two\nlines");
  path = bytes "docs/a.txt";
  object_var = [];
  output_var = bytes "@f";
})

docs-IsPath : IsPath (bytes "docs/a.txt")
unfolding trim_space has_prefix is_variable
docs-IsPath = record { trimmed = refl; given = λ e. cc; no_string = refl; no_variable = refl }

line-IsStatement : IsStatement 7 line written
unfolding unescape_triple_bracket fold_case is_variable
line-IsStatement =
    Grammar.write refl (literal (brackets (bytes "two\\nlines") refl)) refl (of_path docs-IsPath)
      (named refl refl)

parse_instruction-accepts_example : parse_instruction registry 7 (print_tokens line) ≡ some written
parse_instruction-accepts_example =
    parse_instruction-accepts registry 7 line written line-IsStatement
