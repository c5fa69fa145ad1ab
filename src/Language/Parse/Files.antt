-- ===== src/Language/Parse/Files.antt =====
-- cd, ls, load, resolve, read, create, print, concat and write.
use satis.Base.{
  ℕ, Text, bytes, text_eq, fold_case, equal_fold, Bool, true, false, not, ◌&&◌, ◌==◌, leb,
  if◌then◌else◌, Option, none, some, List, [], ◌∷◌,
}
use satis.Base.Ints.{ℤ, pos}
use satis.Vfs.Names.{trim_space}
use satis.Language.Chars.{is_variable, atoi}
use satis.Language.Values.{
  ◌>>=◌, ◌>>◌, guard, parse_path_token, parse_paths, parse_variable, parse_value, parse_value_list,
  cut_at,
}
use satis.Language.Ast.{
  TargetKind, file, folder, PathStmt, ResolveStmt, LoadStmt, ReadStmt, PrintStmt, ConcatStmt,
  WriteStmt, Instruction,
}

unfoldable pub parse_cd : ℕ → List Text → Option PathStmt
unfolding parse_path_token
parse_cd line (t0 ∷ t1 ∷ []) = do
  path ← parse_path_token t1
  some (record { line = line; path = path })
parse_cd line _ = none

unfoldable pub parse_pwd : ℕ → List Text → Option ℕ
parse_pwd line (t0 ∷ []) = some line
parse_pwd line _ = none

unfoldable pub parse_ls : ℕ → List Text → Option PathStmt
unfolding parse_path_token
parse_ls line (t0 ∷ []) = some (record { line = line; path = [] })
parse_ls line (t0 ∷ t1 ∷ []) = do
  path ← parse_path_token t1
  some (record { line = line; path = path })
parse_ls line _ = none

-- The output behind `as`, at the end of the tokens.
unfoldable pub parse_as_end : List Text → Option Text
unfolding parse_variable
parse_as_end [] = some []
parse_as_end (as_word ∷ token ∷ []) = parse_variable token
parse_as_end _ = none

unfoldable pub parse_load_sources : ℕ → List Text → Option LoadStmt
unfolding cut_at parse_paths parse_as_end
parse_load_sources line tokens = do
  let parts = cut_at (bytes "as") tokens
  output ← parse_as_end parts.1
  sources ← parse_paths parts.0
  guard (elim sources [ [] ↦ false | _ ∷ _ ↦ true ])
  some (record { line = line; sources = sources; output_var = output })

abbrev pub as_load : Option LoadStmt → Option Instruction
as_load none = none
as_load (some stmt) = some (Instruction.load stmt)

abbrev pub load_cd_of : Option PathStmt → Option Instruction
load_cd_of none = none
load_cd_of (some stmt) = some (Instruction.load_cd stmt)

abbrev pub load_ls_of : Option PathStmt → Option Instruction
load_ls_of none = none
load_ls_of (some stmt) = some (Instruction.load_ls stmt)

unfoldable pub parse_load_instruction : ℕ → List Text → Option Instruction
unfolding parse_load_sources parse_cd parse_ls fold_case text_eq
parse_load_instruction line [] = none
parse_load_instruction line (t0 ∷ []) = none
parse_load_instruction line (t0 ∷ t1 ∷ tokens) =
    if equal_fold t1 (bytes "pwd") && (elim tokens [ [] ↦ true | _ ∷ _ ↦ false ])
    then some (Instruction.load_pwd line)
    else if equal_fold t1 (bytes "cd")
    then load_cd_of (parse_cd line (t1 ∷ tokens))
    else if equal_fold t1 (bytes "ls")
    then load_ls_of (parse_ls line (t1 ∷ tokens))
    else as_load (parse_load_sources line (t1 ∷ tokens))

unfoldable pub parse_target : Text → Option TargetKind
unfolding fold_case text_eq
parse_target token =
    if equal_fold token (bytes "file")
    then some file
    else if equal_fold token (bytes "folder")
    then some folder
    else none

unfoldable pub parse_resolve_instruction : ℕ → List Text → Option ResolveStmt
unfolding parse_target parse_path_token parse_variable fold_case text_eq
parse_resolve_instruction line (t0 ∷ t1 ∷ t2 ∷ t3 ∷ t4 ∷ []) = do
  guard (equal_fold t3 (bytes "as"))
  kind ← parse_target t1
  path ← parse_path_token t2
  output ← parse_variable t4
  some (record { line = line; target_kind = kind; path = path; output_var = output })
parse_resolve_instruction line _ = none

-- The source of a read: an object or a path.
unfoldable pub read_from : ReadStmt → Text → Option ReadStmt
unfolding is_variable parse_path_token
read_from stmt token =
    if is_variable token
    then some (record stmt { object_var = token })
    else (do path ← parse_path_token token; some (record stmt { path = path }))

abbrev pub is_line_range : ℤ → ℤ → Bool
is_line_range (pos s) (pos e) = not (s == 0) && (not (e == 0) && leb s e)
is_line_range _ _ = false

unfoldable pub parse_read_instruction : ℕ → List Text → Option ReadStmt
unfolding read_from parse_variable atoi fold_case text_eq
parse_read_instruction line (t0 ∷ t1 ∷ t2 ∷ t3 ∷ []) = do
  guard (equal_fold t2 (bytes "as"))
  output ← parse_variable t3
  read_from
      (record {
        line = line;
        object_var = [];
        path = [];
        start_line = pos 0;
        end_line = pos 0;
        output_var = output;
      })
      t1
parse_read_instruction line (t0 ∷ t1 ∷ t2 ∷ t3 ∷ t4 ∷ t5 ∷ t6 ∷ []) = do
  guard (equal_fold t2 (bytes "lines") && equal_fold t5 (bytes "as"))
  start ← atoi t3
  last ← atoi t4
  guard (is_line_range start last)
  output ← parse_variable t6
  read_from
      (record {
        line = line;
        object_var = [];
        path = [];
        start_line = start;
        end_line = last;
        output_var = output;
      })
      t1
parse_read_instruction line _ = none

unfoldable pub parse_print_instruction : ℕ → List Text → Option PrintStmt
unfolding parse_value
parse_print_instruction line (t0 ∷ t1 ∷ []) = do
  value ← parse_value t1
  some (record { line = line; value = value })
parse_print_instruction line _ = none

-- findAsIndex and parseOutputVar: the output behind the first `as`, which two tokens end.
unfoldable pub parse_as_output : List Text → Option Text
unfolding parse_variable
parse_as_output (as_word ∷ token ∷ []) = parse_variable token
parse_as_output _ = none

unfoldable pub parse_concat_instruction : ℕ → List Text → Option ConcatStmt
unfolding cut_at parse_as_output parse_value_list
parse_concat_instruction line [] = none
parse_concat_instruction line (t0 ∷ tokens) = do
  let parts = cut_at (bytes "as") tokens
  guard (elim parts.0 [ [] ↦ false | _ ∷ _ ↦ true ])
  output ← parse_as_output parts.1
  values ← parse_value_list parts.0
  some (record { line = line; values = values; output_var = output })

-- A path and no variable, or no path and a variable.
unfoldable pub parse_write_target_token : Text → Option (Text × Text)
unfolding trim_space is_variable parse_path_token
parse_write_target_token token =
    if is_variable (trim_space token)
    then some ([], trim_space token)
    else (do path ← parse_path_token (trim_space token); some (path, []))

-- `[as @var]`
unfoldable pub parse_optional_as : List Text → Option Text
unfolding parse_variable fold_case text_eq
parse_optional_as [] = some []
parse_optional_as (as_word ∷ token ∷ []) = do
  guard (equal_fold as_word (bytes "as"))
  parse_variable token
parse_optional_as _ = none

unfoldable pub parse_write_instruction : ℕ → List Text → Option WriteStmt
unfolding parse_value parse_write_target_token parse_optional_as fold_case text_eq
parse_write_instruction line (t0 ∷ t1 ∷ t2 ∷ t3 ∷ tokens) = do
  guard (equal_fold t2 (bytes "into"))
  value ← parse_value t1
  target ← parse_write_target_token t3
  output ← parse_optional_as tokens
  some (record {
    line = line;
    value = value;
    path = target.0;
    object_var = target.1;
    output_var = output;
  })
parse_write_instruction line _ = none
