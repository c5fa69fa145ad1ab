-- ===== src/Language/Validate/Forms.antt =====
-- What a statement looks like that the parser returns, and what is left for the validator.
use satis.Base.{
  Bool, true, false, not, ◌&&◌, ◌||◌, Bool-cases, inl, inr, none, some, List, [], ◌∷◌, ◌≡◌, ◌≢◌,
  refl, arith, lookup, word_eq,
}
use satis.Language.Ast.{
  TargetKind, ReadStmt, CreateStmt, WriteStmt, ConcatStmt, ObjectPathStmt, DeleteStmt, DeleteSource,
  BatchInvokeStmt, Instruction,
}
use satis.Language.Values.Shapes.{IsGiven, AreGiven, IsUsable, AreUsable}
use satis.Language.Validate.{
  Kinds, is_set, is_zero, is_folder, holds_folder, some_of, exactly_one, all_one_source,
  root_source, fits, all_fit, is_mode, all_flags_fit, check_instruction, check_create, check_load,
  check_read, check_write, check_concat, check_object, check_delete, check_rename,
  check_batch_invoke, check_software_call,
}

abbrev pub CreateForm : CreateStmt → Type 0
CreateForm stmt = AreGiven stmt.paths × ((is_folder stmt.target_kind && stmt.has_content) ≡ false)

abbrev pub ReadForm : ReadStmt → Type 0
ReadForm stmt = IsGiven stmt.output_var × (exactly_one stmt.object_var stmt.path ≡ true)

abbrev pub WriteForm : WriteStmt → Type 0
WriteForm stmt = IsUsable stmt.value × (exactly_one stmt.path stmt.object_var ≡ true)

abbrev pub ConcatForm : ConcatStmt → Type 0
ConcatForm stmt = IsGiven stmt.output_var × (some_of stmt.values ≡ true) × AreUsable stmt.values

abbrev pub ObjectForm : ObjectPathStmt → Type 0
ObjectForm stmt = IsGiven stmt.object_var × IsGiven stmt.path

abbrev pub DeleteForm : DeleteStmt → Type 0
DeleteForm stmt =
    (some_of stmt.sources ≡ true)
    × (all_one_source stmt.sources ≡ true)
    × ((not stmt.delete_all_keep_root || root_source stmt.sources) ≡ true)

abbrev pub BatchForm : BatchInvokeStmt → Type 0
BatchForm stmt = IsUsable stmt.prompt × IsGiven stmt.input_list × IsGiven stmt.output_var

-- The form of each statement.
abbrev pub IsFormed : Instruction → Type 0
IsFormed (Instruction.resolve stmt) = IsGiven stmt.path × IsGiven stmt.output_var
IsFormed (Instruction.cd stmt) = IsGiven stmt.path
IsFormed (Instruction.pwd line) = Unit
IsFormed (Instruction.ls stmt) = Unit
IsFormed (Instruction.load_pwd line) = Unit
IsFormed (Instruction.load_cd stmt) = IsGiven stmt.path
IsFormed (Instruction.load_ls stmt) = Unit
IsFormed (Instruction.load stmt) = AreGiven stmt.sources
IsFormed (Instruction.commit line) = Unit
IsFormed (Instruction.rollback line) = Unit
IsFormed (Instruction.read stmt) = ReadForm stmt
IsFormed (Instruction.create stmt) = CreateForm stmt
IsFormed (Instruction.write stmt) = WriteForm stmt
IsFormed (Instruction.print stmt) = IsUsable stmt.value
IsFormed (Instruction.concat stmt) = ConcatForm stmt
IsFormed (Instruction.copy stmt) = ObjectForm stmt
IsFormed (Instruction.move stmt) = ObjectForm stmt
IsFormed (Instruction.patch stmt) = IsGiven stmt.object_var
IsFormed (Instruction.delete stmt) = DeleteForm stmt
IsFormed (Instruction.rename stmt) = ObjectForm stmt
IsFormed (Instruction.invoke stmt) = IsUsable stmt.prompt
IsFormed (Instruction.invoke_provider stmt) = all_flags_fit stmt.flags ≡ true
IsFormed (Instruction.invoke_simultaneous stmt) = BatchForm stmt
IsFormed (Instruction.software_manage stmt) = Unit
IsFormed (Instruction.software_call stmt) = all_flags_fit stmt.flags ≡ true

-- The kinds that are known of the objects to delete are the one that is to be deleted.
abbrev pub kinds_fit : TargetKind → Kinds → List DeleteSource → Bool
kinds_fit target kinds [] = true
kinds_fit target kinds (source ∷ sources) =
    fits target (lookup source.object_var kinds) && kinds_fit target kinds sources

-- What depends on the variables, or is a mode: what the parser does not check.
abbrev pub is_fitting : Kinds → Instruction → Bool
is_fitting kinds (Instruction.read stmt) = not (holds_folder kinds stmt.object_var)
is_fitting kinds (Instruction.write stmt) = not (holds_folder kinds stmt.object_var)
is_fitting kinds (Instruction.copy stmt) = not (holds_folder kinds stmt.object_var)
is_fitting kinds (Instruction.move stmt) = not (holds_folder kinds stmt.object_var)
is_fitting kinds (Instruction.patch stmt) = not (holds_folder kinds stmt.object_var)
is_fitting kinds (Instruction.delete stmt) =
    stmt.delete_all || kinds_fit stmt.target_kind kinds stmt.sources
is_fitting kinds (Instruction.invoke_simultaneous stmt) = is_mode stmt.output_mode
is_fitting kinds _ = true

all_fit_of :
    (target : TargetKind) (kinds : Kinds) (sources : List DeleteSource)
    → all_one_source sources ≡ true
    → kinds_fit target kinds sources ≡ true
    → all_fit target kinds sources ≡ true
unfolding all_one_source all_fit
all_fit_of target kinds [] h k = refl
all_fit_of target kinds (source ∷ sources) h k = ground (arith, all_fit_of target kinds sources)

some_not_none {ℓ} : {A : Type ℓ} (a : A) → some a ≢ none
some_not_none a e = cc

delete-passes :
    (stmt : DeleteStmt) (kinds : Kinds)
    → DeleteForm stmt
    → (stmt.delete_all || kinds_fit stmt.target_kind kinds stmt.sources) ≡ true
    → check_delete stmt kinds ≢ none
unfolding check_delete
delete-passes stmt kinds (s, o, r) k = elim (Bool-cases stmt.delete_all) [
  | inl a ↦ rw (s, a, r, o) (some_not_none kinds)
  | inr a ↦
      rw (s, a, all_fit_of stmt.target_kind kinds stmt.sources o (ground arith))
        (some_not_none kinds)
]

neither : (a b : Bool) → not b ≡ true → not (a && b) ≡ true
neither a b h = ground arith

nor_both : (a b c : Bool) → not b ≡ true → not (a && (b && c)) ≡ true
nor_both a b c h = ground arith

read-passes :
    (stmt : ReadStmt) (kinds : Kinds)
    → ReadForm stmt
    → not (holds_folder kinds stmt.object_var) ≡ true
    → check_read stmt kinds ≢ none
unfolding check_read
read-passes stmt kinds (o, e) k =
    rw
      (
        o,
        e,
        nor_both (is_set stmt.object_var) (holds_folder kinds stmt.object_var)
            (is_zero stmt.start_line && is_zero stmt.end_line) k,
      )
      (some_not_none _)

write-passes :
    (stmt : WriteStmt) (kinds : Kinds)
    → WriteForm stmt
    → not (holds_folder kinds stmt.object_var) ≡ true
    → check_write stmt kinds ≢ none
unfolding check_write
write-passes stmt kinds (u, e) k =
    rw (e, neither (is_set stmt.object_var) (holds_folder kinds stmt.object_var) k)
      (some_not_none _)

-- Where its form is right and its objects have the right kinds, the checks let an instruction through.
pub check_instruction-passes :
    (stmt : Instruction) (kinds : Kinds)
    → IsFormed stmt
    → is_fitting kinds stmt ≡ true
    → check_instruction stmt kinds ≢ none
unfolding check_instruction check_create check_load check_read check_write check_concat check_object
    check_rename check_batch_invoke check_software_call
check_instruction-passes (Instruction.resolve stmt) kinds h k = some_not_none _
check_instruction-passes (Instruction.cd stmt) kinds h k = some_not_none _
check_instruction-passes (Instruction.pwd line) kinds h k = some_not_none _
check_instruction-passes (Instruction.ls stmt) kinds h k = some_not_none _
check_instruction-passes (Instruction.load_pwd line) kinds h k = some_not_none _
check_instruction-passes (Instruction.load_cd stmt) kinds h k = some_not_none _
check_instruction-passes (Instruction.load_ls stmt) kinds h k = some_not_none _
check_instruction-passes (Instruction.load stmt) kinds h k = rw h (some_not_none _)
check_instruction-passes (Instruction.commit line) kinds h k = some_not_none _
check_instruction-passes (Instruction.rollback line) kinds h k = some_not_none _
check_instruction-passes (Instruction.read stmt) kinds h k = read-passes stmt kinds h k
check_instruction-passes (Instruction.create stmt) kinds h k = rw (h.0, h.1) (some_not_none _)
check_instruction-passes (Instruction.write stmt) kinds h k = write-passes stmt kinds h k
check_instruction-passes (Instruction.print stmt) kinds h k = rw h (some_not_none _)
check_instruction-passes (Instruction.concat stmt) kinds (o, s, u) k =
    rw (o, s, u) (some_not_none _)
check_instruction-passes (Instruction.copy stmt) kinds h k = rw (h.0, k) (some_not_none _)
check_instruction-passes (Instruction.move stmt) kinds h k = rw (h.0, k) (some_not_none _)
check_instruction-passes (Instruction.patch stmt) kinds h k = rw (h, k) (some_not_none _)
check_instruction-passes (Instruction.delete stmt) kinds h k = delete-passes stmt kinds h k
check_instruction-passes (Instruction.rename stmt) kinds h k = rw (h.0) (some_not_none _)
check_instruction-passes (Instruction.invoke stmt) kinds h k = some_not_none _
check_instruction-passes (Instruction.invoke_provider stmt) kinds h k = some_not_none _
check_instruction-passes (Instruction.invoke_simultaneous stmt) kinds (p, i, o) k =
    rw (o, k) (some_not_none _)
check_instruction-passes (Instruction.software_manage stmt) kinds h k = some_not_none _
check_instruction-passes (Instruction.software_call stmt) kinds h k = rw h (some_not_none _)
