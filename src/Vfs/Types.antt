-- ===== src/Vfs/Types.antt =====
-- The data of vfs/types.go, vfs/api.go and vfs/errors.go.
use satis.Base.{ℕ, Text, bytes, Map, Option, List}
use satis.Base.Ints.{ℤ}

abbrev pub FileId : Type 0
FileId = Text

abbrev pub ChunkId : Type 0
ChunkId = Text

-- A `uint64` that only grows.
abbrev pub Generation : Type 0
Generation = ℕ

abbrev pub FileKind : Type 0
FileKind = Text

abbrev pub kind_text : FileKind
kind_text = bytes "text"

abbrev pub kind_binary : FileKind
kind_binary = bytes "binary"

abbrev pub kind_directory : FileKind
kind_directory = bytes "directory"

abbrev pub kind_generated : FileKind
kind_generated = bytes "generated"

abbrev pub kind_ephemeral : FileKind
kind_ephemeral = bytes "ephemeral"

pub data DeleteState : Type 0 where
  active deleted : DeleteState

abbrev pub WriteMode : Type 0
WriteMode = Text

abbrev pub mode_replace_full : WriteMode
mode_replace_full = bytes "replace_full"

abbrev pub mode_append : WriteMode
mode_append = bytes "append"

abbrev pub mode_patch_text : WriteMode
mode_patch_text = bytes "patch_text"

pub data EventType : Type 0 where
  file_created file_written file_renamed file_deleted file_restored file_read : EventType

pub data SyncStatus : Type 0 where
  clean dirty syncing : SyncStatus

-- A `time.Time`, in nanoseconds; 0 is the zero time.
abbrev pub Time : Type 0
Time = ℕ

pub record LineageRef : Type 0 where
  pub file_id : FileId
  pub generation : Generation
  pub role : Text

pub record FileMeta : Type 0 where
  pub file_id : FileId
  pub virtual_path : Text
  pub kind : FileKind
  pub content_type : Text
  pub current_generation : Generation
  pub current_checksum : Text
  pub size : ℕ
  pub sync_status : SyncStatus
  pub creator_chunk_id : ChunkId
  pub last_writer_chunk_id : ChunkId
  pub parent_lineage : List LineageRef
  pub delete_state : DeleteState
  pub created_at : Time
  pub updated_at : Time
  pub last_read_at : Time
  pub last_event_id : Text

pub record FileRef : Type 0 where
  pub file_id : FileId
  pub virtual_path : Text
  pub kind : FileKind
  pub content_type : Text
  pub current_generation : Generation
  pub delete_state : DeleteState
  pub resolved_at : Time

pub record VersionEntry : Type 0 where
  pub file_id : FileId
  pub generation : Generation
  pub object_id : Text
  pub content_ref : Text
  pub write_mode : WriteMode
  pub base_generation : Generation
  pub writer_chunk_id : ChunkId
  pub checksum : Text
  pub size : ℕ
  pub created_at : Time

-- The values that the code stores in an event's payload.
pub data PayloadValue : Type 0 where
  text : Text → PayloadValue
  number : ℕ → PayloadValue

pub record Event : Type 0 where
  pub event_id : Text
  pub file_id : FileId
  pub type : EventType
  pub chunk_id : ChunkId
  pub timestamp : Time
  pub payload : Map Text PayloadValue

pub data VfsError : Type 0 where
  invalid_input path_already_exists ambiguous_path file_not_found file_deleted : VfsError
  invalid_kind invalid_write_mode patch_no_match patch_multiple_match : VfsError
  txn_required txn_mismatch : VfsError

pub data Result {ℓ} (A : Type ℓ) : Type ℓ where
  ok : A → Result A
  err : VfsError → Result A

pub record ReadView : Type 0 where
  pub mode : Text
  pub start_line : ℤ
  pub end_line : ℤ

pub record ReadResult : Type 0 where
  pub file_ref : FileRef
  pub generation : Generation
  pub content_type : Text
  pub text : Text
  pub blob : Text

pub record PatchTextInput : Type 0 where
  pub old_text : Text
  pub new_text : Text

pub record CreateInput : Type 0 where
  pub virtual_path : Text
  pub kind : FileKind
  pub content_type : Text
  pub creator_chunk_id : ChunkId
  pub parent_lineage : List LineageRef
  pub initial_text : Text
  pub initial_blob : Text

pub record ResolveInput : Type 0 where
  pub virtual_path : Text
  pub expected_kind : FileKind
  pub file_id : FileId

pub record ReadInput : Type 0 where
  pub target : ResolveInput
  pub generation : Generation
  pub view : ReadView

pub record WriteInput : Type 0 where
  pub target : ResolveInput
  pub writer_chunk_id : ChunkId
  pub mode : WriteMode
  pub text : Text
  pub blob : Text
  pub patch_text : Option PatchTextInput

pub record DeleteInput : Type 0 where
  pub target : ResolveInput
  pub chunk_id : ChunkId
  pub reason : Text

pub record RenameInput : Type 0 where
  pub target : ResolveInput
  pub new_virtual_path : Text
  pub chunk_id : ChunkId

pub record DirEntry : Type 0 where
  pub name : Text
  pub virtual_path : Text
  pub kind : FileKind

pub record Txn : Type 0 where
  pub id : Text
  pub chunk_id : ChunkId
  pub started_at : Time
