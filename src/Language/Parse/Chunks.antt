-- ===== src/Language/Parse/Chunks.antt =====
-- parseInstruction, Parse and ParseBody (satis/parser.go).
use satis.Base.{
  ℕ, Text, bytes, text_eq, fold_case, equal_fold, insert, word_eq, Bool, true, false, if◌then◌else◌,
  Option, none, some, List, [], ◌∷◌, ◌++◌,
}
use satis.Vfs.Names.{trim_space}
use satis.Language.Chars.{parse_header_line}
use satis.Language.Tokens.{tokenize_command_line}
use satis.Language.Lines.{Parsed, ok, err, LogicalLine, split_logical_lines, is_empty}
use satis.Language.Values.{◌>>=◌}
use satis.Language.Ast.{Instruction, Chunk, SoftwareRegistry}
use satis.Language.Parse.Files.{
  parse_cd, parse_pwd, parse_ls, parse_load_instruction, parse_resolve_instruction,
  parse_read_instruction, parse_print_instruction, parse_concat_instruction,
  parse_write_instruction,
}
use satis.Language.Parse.Objects.{
  parse_create_instruction, parse_object_path_instruction, parse_patch_instruction,
  parse_delete_instruction,
}
use satis.Language.Parse.Calls.{
  parse_invoke_instruction, parse_software_manage_instruction, parse_software_call_instruction,
}

abbrev pub made : {A : Type 0} → (A → Instruction) → Option A → Option Instruction
made f none = none
made f (some stmt) = some (f stmt)

abbrev is : Text → Text → Bool
is word token = equal_fold token word

unfoldable pub parse_objects : SoftwareRegistry → ℕ → Text → List Text → Option Instruction
unfolding parse_create_instruction parse_object_path_instruction parse_patch_instruction
    parse_delete_instruction parse_invoke_instruction parse_software_manage_instruction
    parse_software_call_instruction fold_case text_eq
parse_objects registry line head tokens =
    if is (bytes "copy") head
    then made Instruction.copy (parse_object_path_instruction line tokens)
    else if is (bytes "move") head
    then made Instruction.move (parse_object_path_instruction line tokens)
    else if is (bytes "rename") head
    then made Instruction.rename (parse_object_path_instruction line tokens)
    else if is (bytes "delete") head
    then made Instruction.delete (parse_delete_instruction line tokens)
    else if is (bytes "patch") head
    then made Instruction.patch (parse_patch_instruction line tokens)
    else if is (bytes "invoke") head
    then parse_invoke_instruction line tokens
    else if is (bytes "software") head
    then made Instruction.software_manage (parse_software_manage_instruction line tokens)
    else made Instruction.software_call (parse_software_call_instruction registry line tokens)

unfoldable pub parse_files : SoftwareRegistry → ℕ → Text → List Text → Option Instruction
unfolding parse_objects parse_resolve_instruction parse_read_instruction parse_create_instruction
    parse_print_instruction parse_concat_instruction parse_write_instruction fold_case text_eq
parse_files registry line head tokens =
    if is (bytes "resolve") head
    then made Instruction.resolve (parse_resolve_instruction line tokens)
    else if is (bytes "read") head
    then made Instruction.read (parse_read_instruction line tokens)
    else if is (bytes "create") head
    then made Instruction.create (parse_create_instruction line tokens)
    else if is (bytes "print") head
    then made Instruction.print (parse_print_instruction line tokens)
    else if is (bytes "concat") head
    then made Instruction.concat (parse_concat_instruction line tokens)
    else if is (bytes "write") head
    then made Instruction.write (parse_write_instruction line tokens)
    else parse_objects registry line head tokens

-- The switch of parseInstruction over the first token.
unfoldable pub parse_tokens : SoftwareRegistry → ℕ → List Text → Option Instruction
unfolding parse_files parse_cd parse_pwd parse_ls parse_load_instruction fold_case text_eq
parse_tokens registry line [] = none
parse_tokens registry line (head ∷ rest) =
    if is (bytes "cd") head
    then made Instruction.cd (parse_cd line (head ∷ rest))
    else if is (bytes "pwd") head
    then made Instruction.pwd (parse_pwd line (head ∷ rest))
    else if is (bytes "ls") head
    then made Instruction.ls (parse_ls line (head ∷ rest))
    else if is (bytes "load") head
    then parse_load_instruction line (head ∷ rest)
    else if is (bytes "commit") head
    then made Instruction.commit (parse_pwd line (head ∷ rest))
    else if is (bytes "rollback") head
    then made Instruction.rollback (parse_pwd line (head ∷ rest))
    else parse_files registry line head (head ∷ rest)

unfoldable pub parse_instruction : SoftwareRegistry → ℕ → Text → Option Instruction
unfolding tokenize_command_line parse_tokens
parse_instruction registry line text = tokenize_command_line text >>= parse_tokens registry line

abbrev pub header_of : Bool → Text → Option (Text × Text)
header_of true line = none
header_of false line = parse_header_line line

abbrev pub with_instruction : Instruction → Chunk → Chunk
with_instruction stmt chunk = record chunk { instructions = chunk.instructions ++ stmt ∷ [] }

-- What a line does to the chunk: it is passed over, is a header, or is an instruction.
unfoldable pub parse_line : SoftwareRegistry → Bool → LogicalLine → Chunk → Option (Bool × Chunk)
unfolding trim_space parse_header_line parse_instruction insert
parse_line registry seen entry chunk =
    let line = trim_space entry.text in
    if is_empty line then some (seen, chunk) else elim (header_of seen line) [
      | some header ↦ some (seen, record chunk { meta = insert header.0 header.1 chunk.meta })
      | none ↦ elim (parse_instruction registry entry.line_no line) [
        | none ↦ none
        | some stmt ↦ some (true, with_instruction stmt chunk)
      ]
    ]

-- The loop over the lines; the flag is `seenInstruction`.
unfoldable pub parse_lines : SoftwareRegistry → Bool → List LogicalLine → Chunk → Parsed Chunk
unfolding parse_line
parse_lines registry seen [] chunk = ok chunk
parse_lines registry seen (entry ∷ entries) chunk = elim (parse_line registry seen entry chunk) [
  | none ↦ err entry.line_no
  | some next ↦ parse_lines registry next.0 entries next.1
]

-- An error that names no line: there are no instructions.
abbrev pub no_line : ℕ
no_line = 0

abbrev pub with_instructions : Parsed Chunk → Parsed Chunk
with_instructions (err line) = err line
with_instructions (ok chunk) = elim chunk.instructions [ [] ↦ err no_line | _ ∷ _ ↦ ok chunk ]

abbrev pub empty_chunk : Chunk
empty_chunk = record { meta = []; instructions = [] }

-- Parse, with the headers still to come, and ParseBody, which takes none.
abbrev pub parse_from : SoftwareRegistry → Bool → Parsed (List LogicalLine) → Parsed Chunk
parse_from registry seen (err line) = err line
parse_from registry seen (ok lines) =
    with_instructions (parse_lines registry seen lines empty_chunk)

unfoldable pub parse : SoftwareRegistry → Text → Parsed Chunk
unfolding split_logical_lines parse_lines
parse registry src = parse_from registry false (split_logical_lines src)

abbrev pub body_of : Parsed Chunk → Parsed (List Instruction)
body_of (err line) = err line
body_of (ok chunk) = ok chunk.instructions

unfoldable pub parse_body : SoftwareRegistry → Text → Parsed (List Instruction)
unfolding split_logical_lines parse_lines
parse_body registry src = body_of (parse_from registry true (split_logical_lines src))
