-- ===== src/Language/Parse/Objects.antt =====
-- create, copy, move, rename, patch and delete.
use satis.Base.{
  ℕ, ◌+◌, Text, bytes, text_eq, fold_case, equal_fold, Bool, true, false, ◌&&◌, ◌||◌, ◌==◌, leb,
  if◌then◌else◌, Option, none, some, List, [], ◌∷◌,
}
use satis.Language.Chars.{is_variable}
use satis.Language.Values.{
  ◌>>=◌, ◌>>◌, guard, parse_path_token, parse_paths, parse_triple_bracket, cut_at,
}
use satis.Language.Ast.{
  TargetKind, file, folder, CreateStmt, ObjectPathStmt, PatchStmt, DeleteSource, DeleteStmt,
}
use satis.Language.Parse.Files.{parse_target, parse_as_end, parse_optional_as}

-- How many tokens fold to a word.
unfoldable pub count_fold : Text → List Text → ℕ
unfolding fold_case text_eq
count_fold word [] = 0
count_fold word (token ∷ tokens) = (if equal_fold token word then 1 else 0) + count_fold word tokens

abbrev pub is_present : List Text → Bool
is_present [] = false
is_present (token ∷ tokens) = true

-- Behind the paths of a create with content: the content and the output.
unfoldable pub create_with : ℕ → TargetKind → List Text → List Text → Option CreateStmt
unfolding count_fold parse_triple_bracket parse_optional_as parse_paths
create_with line kind tokens (with_word ∷ content ∷ rest) = do
  guard (is_present tokens && count_fold (bytes "as") tokens == 0)
  guard (elim kind [ file ↦ true | folder ↦ false ])
  paths ← parse_paths tokens
  text ← parse_triple_bracket content
  output ← parse_optional_as rest
  some (record {
    line = line;
    target_kind = kind;
    paths = paths;
    has_content = true;
    content = text;
    output_var = output;
  })
create_with line kind tokens _ = none

unfoldable pub create_without : ℕ → TargetKind → List Text → Option CreateStmt
unfolding cut_at parse_as_end parse_paths
create_without line kind tokens = do
  let parts = cut_at (bytes "as") tokens
  guard (is_present parts.0)
  paths ← parse_paths parts.0
  output ← parse_as_end parts.1
  some (record {
    line = line;
    target_kind = kind;
    paths = paths;
    has_content = false;
    content = [];
    output_var = output;
  })

unfoldable pub parse_create_instruction : ℕ → List Text → Option CreateStmt
unfolding parse_target count_fold cut_at create_with create_without
parse_create_instruction line (t0 ∷ t1 ∷ t2 ∷ tokens) = do
  kind ← parse_target t1
  guard (
      leb (count_fold (bytes "with") (t2 ∷ tokens)) 1
      && leb (count_fold (bytes "as") (t2 ∷ tokens)) 1)
  let parts = cut_at (bytes "with") (t2 ∷ tokens)
  if is_present parts.1
      then create_with line kind parts.0 parts.1
      else create_without line kind (t2 ∷ tokens)
parse_create_instruction line _ = none

-- parseObjectPathInstruction, and parseRenameInstruction, whose path is NewPath.
unfoldable pub parse_object_path_instruction : ℕ → List Text → Option ObjectPathStmt
unfolding is_variable parse_path_token parse_optional_as fold_case text_eq
parse_object_path_instruction line (t0 ∷ t1 ∷ t2 ∷ t3 ∷ tokens) = do
  guard (is_variable t1 && equal_fold t2 (bytes "to"))
  path ← parse_path_token t3
  output ← parse_optional_as tokens
  some (record { line = line; object_var = t1; path = path; output_var = output })
parse_object_path_instruction line _ = none

unfoldable pub parse_patch_instruction : ℕ → List Text → Option PatchStmt
unfolding is_variable parse_triple_bracket parse_optional_as fold_case text_eq
parse_patch_instruction line (t0 ∷ t1 ∷ t2 ∷ t3 ∷ t4 ∷ t5 ∷ tokens) = do
  guard (is_variable t1 && (equal_fold t2 (bytes "replace") && equal_fold t4 (bytes "with")))
  old_text ← parse_triple_bracket t3
  new_text ← parse_triple_bracket t5
  output ← parse_optional_as tokens
  some (record {
    line = line;
    object_var = t1;
    old_text = old_text;
    new_text = new_text;
    output_var = output;
  })
parse_patch_instruction line _ = none

unfoldable pub parse_delete_source : Text → Option DeleteSource
unfolding is_variable parse_path_token
parse_delete_source token =
    if is_variable token
    then some (record { object_var = token; path = [] })
    else (do path ← parse_path_token token; some (record { object_var = []; path = path }))

unfoldable pub parse_delete_sources : List Text → Option (List DeleteSource)
unfolding parse_delete_source
parse_delete_sources [] = some []
parse_delete_sources (token ∷ tokens) = do
  source ← parse_delete_source token
  sources ← parse_delete_sources tokens
  some (source ∷ sources)

-- A source that is the current directory, given as a path.
abbrev pub is_here : DeleteSource → Bool
is_here source =
    text_eq source.object_var []
    && (text_eq source.path (bytes ".") || text_eq source.path (bytes "./"))

abbrev pub keeps_root : List DeleteSource → Bool
keeps_root (source ∷ []) = is_here source
keeps_root _ = false

abbrev pub delete_all_of : ℕ → List DeleteSource → DeleteStmt
delete_all_of line sources = record {
  line = line;
  target_kind = folder;
  sources = sources;
  delete_all = true;
  delete_all_keep_root = keeps_root sources;
}

unfoldable pub parse_delete_instruction : ℕ → List Text → Option DeleteStmt
unfolding parse_delete_sources parse_target fold_case text_eq
parse_delete_instruction line (t0 ∷ t1 ∷ t2 ∷ tokens) =
    if equal_fold t1 (bytes "all")
    then (do sources ← parse_delete_sources (t2 ∷ tokens); some (delete_all_of line sources))
    else (do
      kind ← parse_target t1
      sources ← parse_delete_sources (t2 ∷ tokens)
      some (record {
        line = line;
        target_kind = kind;
        sources = sources;
        delete_all = false;
        delete_all_keep_root = false;
      }))
parse_delete_instruction line _ = none
