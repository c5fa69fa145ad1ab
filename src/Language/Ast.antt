-- ===== src/Language/Ast.antt =====
-- The statements of a chunk (satis/ast.go), and the software that they may call
-- (satis/software_registry.go).
use satis.Base.{ℕ, Text, Map, Bool, List}
use satis.Base.Ints.{ℤ}

-- `unset` is the empty string, of the zero Value.
pub data ValueKind : Type 0 where
  unset string variable : ValueKind

pub record ListSelector : Type 0 where
  pub has_index : Bool
  pub index : ℤ
  pub has_start : Bool
  pub start : ℤ
  pub has_end : Bool
  pub end : ℤ

pub record Value : Type 0 where
  pub kind : ValueKind
  pub text : Text
  pub has_selector : Bool
  pub selector : ListSelector

-- A file or a folder: ResolveTargetKind, CreateTargetKind and DeleteTargetKind.
pub data TargetKind : Type 0 where
  file folder : TargetKind

pub record PathStmt : Type 0 where
  pub line : ℕ
  pub path : Text

pub record ResolveStmt : Type 0 where
  pub line : ℕ
  pub target_kind : TargetKind
  pub path : Text
  pub output_var : Text

pub record LoadStmt : Type 0 where
  pub line : ℕ
  pub sources : List Text
  pub output_var : Text

pub record ReadStmt : Type 0 where
  pub line : ℕ
  pub object_var : Text
  pub path : Text
  pub start_line : ℤ
  pub end_line : ℤ
  pub output_var : Text

pub record CreateStmt : Type 0 where
  pub line : ℕ
  pub target_kind : TargetKind
  pub paths : List Text
  pub has_content : Bool
  pub content : Text
  pub output_var : Text

pub record WriteStmt : Type 0 where
  pub line : ℕ
  pub value : Value
  pub path : Text
  pub object_var : Text
  pub output_var : Text

pub record PrintStmt : Type 0 where
  pub line : ℕ
  pub value : Value

pub record ConcatStmt : Type 0 where
  pub line : ℕ
  pub values : List Value
  pub output_var : Text

-- CopyStmt, MoveStmt and RenameStmt.
pub record ObjectPathStmt : Type 0 where
  pub line : ℕ
  pub object_var : Text
  pub path : Text
  pub output_var : Text

pub record PatchStmt : Type 0 where
  pub line : ℕ
  pub object_var : Text
  pub old_text : Text
  pub new_text : Text
  pub output_var : Text

pub record DeleteSource : Type 0 where
  pub object_var : Text
  pub path : Text

pub record DeleteStmt : Type 0 where
  pub line : ℕ
  pub target_kind : TargetKind
  pub sources : List DeleteSource
  pub delete_all : Bool
  pub delete_all_keep_root : Bool

pub record InvokeStmt : Type 0 where
  pub line : ℕ
  pub prompt_parts : List Value
  pub prompt : Value
  pub conversation_var : Text
  pub has_input : Bool
  pub input : Value
  pub provider : Text
  pub output_var : Text

pub record SoftwareFlag : Type 0 where
  pub name : Text
  pub value : Value

pub record InvokeProviderStmt : Type 0 where
  pub line : ℕ
  pub action : Text
  pub name : Text
  pub flags : List SoftwareFlag
  pub output_var : Text

pub record BatchInvokeStmt : Type 0 where
  pub line : ℕ
  pub prompt : Value
  pub input_list : Text
  pub provider : Text
  pub output_var : Text
  pub output_mode : Text

pub record SoftwareManageStmt : Type 0 where
  pub line : ℕ
  pub action : Text
  pub arg : Text
  pub output_var : Text

pub record SoftwareCallStmt : Type 0 where
  pub line : ℕ
  pub software_name : Text
  pub function_name : Text
  pub flags : List SoftwareFlag
  pub output_var : Text

pub data Instruction : Type 0 where
  resolve : ResolveStmt → Instruction
  cd : PathStmt → Instruction
  pwd : ℕ → Instruction
  ls : PathStmt → Instruction
  load_pwd : ℕ → Instruction
  load_cd : PathStmt → Instruction
  load_ls : PathStmt → Instruction
  load : LoadStmt → Instruction
  commit : ℕ → Instruction
  rollback : ℕ → Instruction
  read : ReadStmt → Instruction
  create : CreateStmt → Instruction
  write : WriteStmt → Instruction
  print : PrintStmt → Instruction
  concat : ConcatStmt → Instruction
  copy : ObjectPathStmt → Instruction
  move : ObjectPathStmt → Instruction
  patch : PatchStmt → Instruction
  delete : DeleteStmt → Instruction
  rename : ObjectPathStmt → Instruction
  invoke : InvokeStmt → Instruction
  invoke_provider : InvokeProviderStmt → Instruction
  invoke_simultaneous : BatchInvokeStmt → Instruction
  software_manage : SoftwareManageStmt → Instruction
  software_call : SoftwareCallStmt → Instruction

pub record Chunk : Type 0 where
  pub meta : Map Text Text
  pub instructions : List Instruction

pub record SoftwareFunction : Type 0 where
  pub args : List Text
  pub returns : Text
  pub estimated_runtime_ms : ℤ

-- What the parser reads of a SoftwareSpec.
pub record SoftwareSpec : Type 0 where
  pub name : Text
  pub functions : Map Text SoftwareFunction

-- What the parser reads of a SoftwareRegistry.
pub record SoftwareRegistry : Type 0 where
  pub by_name : Map Text SoftwareSpec
