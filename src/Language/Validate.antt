-- ===== src/Language/Validate.antt =====
-- The checks on a parsed chunk (satis/validate.go). An error names its instruction, counted from 1;
-- its message is not modelled.
pub mod Forms
pub mod Parsed
pub mod Report
use satis.Base.{
  ℕ, zero, suc, ◌+◌, Text, bytes, text_eq, Map, lookup, insert, word_eq, Bool, true, false, not,
  ◌&&◌, ◌||◌, ◌==◌, if◌then◌else◌, Option, none, some, List, [], ◌∷◌,
}
use satis.Base.Ints.{ℤ, pos, negsuc}
use satis.Language.Values.{◌>>=◌, ◌>>◌, guard}
use satis.Language.Ast.{
  ValueKind, unset, string, variable, Value, TargetKind, file, folder, CreateStmt, LoadStmt,
  ReadStmt, WriteStmt, ConcatStmt, ObjectPathStmt, PatchStmt, DeleteSource, DeleteStmt,
  BatchInvokeStmt, SoftwareFlag, SoftwareCallStmt, ResolveStmt, Instruction, Chunk,
}
use satis.Language.Ast

-- `objectKinds`
abbrev pub Kinds : Type 0
Kinds = Map Text TargetKind

abbrev pub is_set : Text → Bool
is_set [] = false
is_set (c ∷ cs) = true

abbrev pub some_of {ℓ} : {A : Type ℓ} → List A → Bool
some_of [] = false
some_of (x ∷ xs) = true

abbrev pub is_folder : TargetKind → Bool
is_folder file = false
is_folder folder = true

abbrev pub folder_known : Option TargetKind → Bool
folder_known none = false
folder_known (some kind) = is_folder kind

-- Whether the variable is known to be a folder.
abbrev pub holds_folder : Kinds → Text → Bool
holds_folder kinds name = folder_known (lookup name kinds)

-- `if name != "" { objectKinds[name] = kind }`
abbrev pub note : Text → TargetKind → Kinds → Kinds
note name kind kinds = if is_set name then insert name kind kinds else kinds

abbrev pub exactly_one : Text → Text → Bool
exactly_one a b = (is_set a && not (is_set b)) || (not (is_set a) && is_set b)

abbrev pub is_usable : Value → Bool
is_usable value = elim value.kind [ unset ↦ false | string ↦ true | variable ↦ true ]

unfoldable pub all_usable : List Value → Bool
all_usable [] = true
all_usable (value ∷ values) = is_usable value && all_usable values

abbrev only : List Text → Bool
only (path ∷ []) = true
only _ = false

unfoldable pub check_create : CreateStmt → Kinds → Option Kinds
unfolding insert
check_create stmt kinds = do
  guard (some_of stmt.paths)
  guard (not (is_folder stmt.target_kind && stmt.has_content))
  some (if only stmt.paths then note stmt.output_var stmt.target_kind kinds else kinds)

unfoldable pub check_load : LoadStmt → Kinds → Option Kinds
unfolding insert
check_load stmt kinds = do guard (some_of stmt.sources); some (note stmt.output_var file kinds)

abbrev pub is_zero : ℤ → Bool
is_zero (pos n) = n == 0
is_zero (negsuc n) = false

unfoldable pub check_read : ReadStmt → Kinds → Option Kinds
unfolding lookup
check_read stmt kinds = do
  guard (is_set stmt.output_var)
  guard (exactly_one stmt.object_var stmt.path)
  guard (
      not (
        is_set stmt.object_var
        && (holds_folder kinds stmt.object_var
            && (is_zero stmt.start_line && is_zero stmt.end_line))))
  some kinds

unfoldable pub check_write : WriteStmt → Kinds → Option Kinds
unfolding lookup insert
check_write stmt kinds = do
  guard (exactly_one stmt.path stmt.object_var)
  guard (not (is_set stmt.object_var && holds_folder kinds stmt.object_var))
  some (note stmt.output_var file kinds)

unfoldable pub check_concat : ConcatStmt → Kinds → Option Kinds
unfolding all_usable
check_concat stmt kinds = do
  guard (is_set stmt.output_var)
  guard (some_of stmt.values)
  guard (all_usable stmt.values)
  some kinds

-- Copy, move and patch: the object must not be a folder.
unfoldable pub check_object : Text → Text → Kinds → Option Kinds
unfolding lookup insert
check_object object_var output_var kinds = do
  guard (is_set object_var)
  guard (not (holds_folder kinds object_var))
  some (note output_var file kinds)

abbrev pub one_source : DeleteSource → Bool
one_source source = exactly_one source.object_var source.path

unfoldable pub all_one_source : List DeleteSource → Bool
all_one_source [] = true
all_one_source (source ∷ sources) = one_source source && all_one_source sources

-- The only source of a delete that keeps the root.
abbrev pub root_source : List DeleteSource → Bool
root_source (source ∷ []) =
    not (is_set source.object_var)
    && (text_eq source.path (bytes ".") || text_eq source.path (bytes "./"))
root_source _ = false

abbrev same_kind : TargetKind → TargetKind → Bool
same_kind file file = true
same_kind folder folder = true
same_kind _ _ = false

-- A source's kind, where it is known, is the one that is deleted.
abbrev pub fits : TargetKind → Option TargetKind → Bool
fits target none = true
fits target (some kind) = same_kind target kind

unfoldable pub all_fit : TargetKind → Kinds → List DeleteSource → Bool
unfolding lookup
all_fit target kinds [] = true
all_fit target kinds (source ∷ sources) =
    one_source source
    && (fits target (lookup source.object_var kinds) && all_fit target kinds sources)

unfoldable pub check_delete : DeleteStmt → Kinds → Option Kinds
unfolding all_one_source all_fit text_eq
check_delete stmt kinds = do
  guard (some_of stmt.sources)
  if stmt.delete_all
      then (do
        guard (not stmt.delete_all_keep_root || root_source stmt.sources)
        guard (all_one_source stmt.sources))
      else guard (all_fit stmt.target_kind kinds stmt.sources)
  some kinds

abbrev noted_as : Text → Option TargetKind → Kinds → Kinds
noted_as name none kinds = kinds
noted_as name (some kind) kinds = note name kind kinds

unfoldable pub check_rename : ObjectPathStmt → Kinds → Option Kinds
unfolding lookup insert
check_rename stmt kinds = do
  guard (is_set stmt.object_var)
  some (noted_as stmt.output_var (lookup stmt.object_var kinds) kinds)

abbrev pub is_mode : Text → Bool
is_mode mode = text_eq mode (bytes "separate_files") || text_eq mode (bytes "single_file")

unfoldable pub check_batch_invoke : BatchInvokeStmt → Kinds → Option Kinds
unfolding text_eq
check_batch_invoke stmt kinds = do
  guard (is_set stmt.output_var)
  guard (is_mode stmt.output_mode)
  some kinds

abbrev pub flag_fits : SoftwareFlag → Bool
flag_fits flag =
    is_set flag.name
    && (is_usable flag.value
        && not ((elim flag.value.kind [ variable ↦ true | _ ↦ false ]) && flag.value.has_selector))

unfoldable pub all_flags_fit : List SoftwareFlag → Bool
all_flags_fit [] = true
all_flags_fit (flag ∷ flags) = flag_fits flag && all_flags_fit flags

unfoldable pub check_software_call : SoftwareCallStmt → Kinds → Option Kinds
unfolding all_flags_fit
check_software_call stmt kinds = do guard (all_flags_fit stmt.flags); some kinds

-- One round of the loop: the kinds behind the instruction, or an error.
unfoldable pub check_instruction : Instruction → Kinds → Option Kinds
unfolding insert check_create check_load check_read check_write check_concat check_object
    check_delete check_rename check_batch_invoke check_software_call
check_instruction (Instruction.resolve stmt) kinds =
    some (insert stmt.output_var stmt.target_kind kinds)
check_instruction (Instruction.create stmt) kinds = check_create stmt kinds
check_instruction (Instruction.load stmt) kinds = check_load stmt kinds
check_instruction (Instruction.read stmt) kinds = check_read stmt kinds
check_instruction (Instruction.write stmt) kinds = check_write stmt kinds
check_instruction (Instruction.print stmt) kinds = guard (is_usable stmt.value) >> some kinds
check_instruction (Instruction.concat stmt) kinds = check_concat stmt kinds
check_instruction (Instruction.copy stmt) kinds = check_object stmt.object_var stmt.output_var kinds
check_instruction (Instruction.move stmt) kinds = check_object stmt.object_var stmt.output_var kinds
check_instruction (Instruction.patch stmt) kinds =
    check_object stmt.object_var stmt.output_var kinds
check_instruction (Instruction.delete stmt) kinds = check_delete stmt kinds
check_instruction (Instruction.rename stmt) kinds = check_rename stmt kinds
check_instruction (Instruction.invoke_simultaneous stmt) kinds = check_batch_invoke stmt kinds
check_instruction (Instruction.software_call stmt) kinds = check_software_call stmt kinds
check_instruction (Instruction.cd stmt) kinds = some kinds
check_instruction (Instruction.pwd line) kinds = some kinds
check_instruction (Instruction.ls stmt) kinds = some kinds
check_instruction (Instruction.load_pwd line) kinds = some kinds
check_instruction (Instruction.load_cd stmt) kinds = some kinds
check_instruction (Instruction.load_ls stmt) kinds = some kinds
check_instruction (Instruction.commit line) kinds = some kinds
check_instruction (Instruction.rollback line) kinds = some kinds
check_instruction (Instruction.software_manage stmt) kinds = some kinds
check_instruction (Instruction.invoke_provider stmt) kinds = some kinds
check_instruction (Instruction.invoke stmt) kinds = some kinds

pub data Verdict : Type 0 where
  valid no_chunk_id no_intent_uid : Verdict
  invalid : ℕ → Verdict

-- The loop, from the instruction with a number on.
unfoldable pub check_from : ℕ → List Instruction → Kinds → Verdict
unfolding check_instruction
check_from n [] kinds = valid
check_from n (stmt ∷ stmts) kinds = elim (check_instruction stmt kinds) [
  | none ↦ invalid n
  | some kinds' ↦ check_from (suc n) stmts kinds'
]

abbrev pub or_empty : Option Text → Text
or_empty none = []
or_empty (some s) = s

unfoldable pub validate : Chunk → Verdict
unfolding lookup check_from
validate chunk =
    let checked = check_from 1 chunk.instructions [] in
    if not (is_set (or_empty (lookup (bytes "chunk_id") chunk.meta)))
    then no_chunk_id
    else if not (is_set (or_empty (lookup (bytes "intent_uid") chunk.meta)))
    then no_intent_uid
    else checked
