-- ===== src/Vfs/Memory.antt =====
-- The state of MemoryService and the lookups of its transactions (vfs/memory.go).
--
-- memoryTxnState also holds `baseFiles` and `basePathIndex`. BeginChunkTxn binds these to the
-- service's own maps, which are never replaced, so they are the service's maps at any later time
-- too: the functions below take the service in their place. A pointer to a memoryFile stands in
-- one map at a time (mutableFile clones), so a file is a value, written back where Go writes
-- through the pointer.
pub mod Exec
pub mod Content
pub mod Coherence
pub mod Edit
pub mod Locate
pub mod Files
pub mod Views
pub mod Sound
pub mod Isolation
pub mod Txns
pub mod Unstable
pub mod Effects
pub mod Calls
pub mod Listing
pub mod Index
mod Samples
use satis.Base.{
  ℕ, ◌+◌, ◌%◌, ◌^◌, Text, bytes, text_eq, decimal, Map, lookup, word_eq, or_else, Bool, true, false,
  not, ◌&&◌, ◌||◌, if◌then◌else◌, Option, none, some, List, [], ◌∷◌, ◌++◌,
}
use satis.Vfs.Types.{
  FileId, FileKind, Time, FileMeta, FileRef, VersionEntry, Event, Txn, Result, ok, err,
  ResolveInput, DeleteState, active, deleted, invalid_input, ambiguous_path, file_not_found,
  file_deleted, txn_required, txn_mismatch,
}
use satis.Vfs.Names.{path_kind_key, normalize_virtual_path, indexed_file_kinds}

pub record MemoryContent : Type 0 where
  pub text : Text
  pub blob : Text

pub record MemoryFile : Type 0 where
  pub meta : FileMeta
  pub versions : List VersionEntry
  pub content_by_g : Map ℕ MemoryContent

pub record TxnState : Type 0 where
  pub txn : Txn
  pub base_rev : ℕ
  pub files : Map Text MemoryFile
  pub path_index : Map Text FileId
  pub deleted_paths : Map Text Bool
  pub pending_evts : List Event

pub record MemoryService : Type 0 where
  pub seq : ℕ
  pub rev : ℕ
  pub files : Map Text MemoryFile
  pub path_index : Map Text FileId
  pub events : List Event
  pub txns : Map Text TxnState

-- What a call reads from outside: the clock, and the hexadecimal SHA-256 digest.
pub record Env : Type 0 where
  pub now : Time
  pub sha256_hex : Text → Text

abbrev pub u64_mod : ℕ
u64_mod = 2 ^ 64

abbrev pub new_memory_service : MemoryService
new_memory_service = record {
  seq = 0;
  rev = 0;
  files = [];
  path_index = [];
  events = [];
  txns = [];
}

abbrev pub id_text : Text → ℕ → Text
id_text prefix n = prefix ++ bytes "_" ++ decimal n

unfoldable pub next_id : Text → MemoryService → Text × MemoryService
next_id prefix s = let n = (s.seq + 1) % u64_mod in (id_text prefix n, record s { seq = n })

-- `m[k]` of a map to `bool`
abbrev pub flag : Option Bool → Bool
flag none = false
flag (some b) = b

unfoldable pub require_txn : Txn → MemoryService → Result TxnState
require_txn txn s =
    if text_eq txn.id [] || text_eq txn.chunk_id []
    then err txn_required
    else elim (lookup txn.id s.txns) [
      | none ↦ err txn_required
      | some t ↦ if text_eq t.txn.chunk_id txn.chunk_id then ok t else err txn_mismatch
    ]

-- The binding of a key that a transaction sees.
unfoldable pub resolve_key : MemoryService → TxnState → Text → Option FileId
resolve_key s t key =
    if flag (lookup key t.deleted_paths)
    then none
    else or_else (lookup key t.path_index) (lookup key s.path_index)

unfoldable pub resolve_path : MemoryService → TxnState → Text → FileKind → Option FileId
resolve_path s t path kind = resolve_key s t (path_kind_key path kind)

unfoldable pub bindings_among :
    (FileKind → Option FileId) → List FileKind → List (FileKind × FileId)
bindings_among find [] = []
bindings_among find (kind ∷ kinds) =
    let rest = bindings_among find kinds in
    elim (find kind) [ none ↦ rest | some file_id ↦ (kind, file_id) ∷ rest ]

unfoldable pub bindings_for_path : MemoryService → TxnState → Text → List (FileKind × FileId)
unfolding bindings_among
bindings_for_path s t virtual_path =
    bindings_among (resolve_path s t (normalize_virtual_path virtual_path)) indexed_file_kinds

abbrev pub only_binding : List (FileKind × FileId) → Result FileId
only_binding [] = err file_not_found
only_binding ((kind, file_id) ∷ []) = ok file_id
only_binding (b ∷ c ∷ bs) = err ambiguous_path

abbrev pub found_or_missing {ℓ} : {A : Type ℓ} → Option A → Result A
found_or_missing none = err file_not_found
found_or_missing (some a) = ok a

unfoldable pub resolve_path_input : MemoryService → TxnState → ResolveInput → Result FileId
resolve_path_input s t input =
    if text_eq input.expected_kind []
    then only_binding (bindings_for_path s t input.virtual_path)
    else found_or_missing (resolve_path s t input.virtual_path input.expected_kind)

unfoldable pub lookup_file : MemoryService → TxnState → FileId → Option MemoryFile
lookup_file s t file_id = or_else (lookup file_id t.files) (lookup file_id s.files)

abbrev pub is_deleted : DeleteState → Bool
is_deleted active = false
is_deleted deleted = true

abbrev pub visible_file : Bool → Option MemoryFile → Result MemoryFile
visible_file allow_deleted none = err file_not_found
visible_file allow_deleted (some file) =
    if not allow_deleted && is_deleted file.meta.delete_state then err file_deleted else ok file

infixl 5 ◌>>=◌
abbrev pub ◌>>=◌ {ℓ κ} : {A : Type ℓ} {B : Type κ} → Result A → (A → Result B) → Result B
ok a >>= f = f a
err e >>= f = err e

-- Exactly one of the two locators is set.
abbrev pub same_bool : Bool → Bool → Bool
same_bool true b = b
same_bool false b = not b

unfoldable pub resolve : MemoryService → TxnState → ResolveInput → Bool → Result MemoryFile
resolve s t input allow_deleted =
    if same_bool (text_eq input.virtual_path []) (text_eq input.file_id [])
    then err invalid_input
    else if text_eq input.virtual_path []
    then visible_file allow_deleted (lookup_file s t input.file_id)
    else do
      file_id ← resolve_path_input s t input
      visible_file allow_deleted (lookup_file s t file_id)

-- resolveFromState: the same over the committed maps alone.
unfoldable pub lookup_path_binding : Map Text FileId → Text → FileKind → Option FileId
lookup_path_binding path_index virtual_path kind =
    lookup (path_kind_key virtual_path kind) path_index

unfoldable pub committed_bindings_for_path : Map Text FileId → Text → List (FileKind × FileId)
unfolding bindings_among lookup_path_binding
committed_bindings_for_path path_index virtual_path =
    bindings_among (lookup_path_binding path_index (normalize_virtual_path virtual_path))
      indexed_file_kinds

unfoldable pub resolve_from_state :
    Map Text MemoryFile → Map Text FileId → ResolveInput → Bool → Result MemoryFile
unfolding lookup_path_binding committed_bindings_for_path
resolve_from_state files path_index input allow_deleted =
    if same_bool (text_eq input.virtual_path []) (text_eq input.file_id [])
    then err invalid_input
    else if text_eq input.virtual_path []
    then visible_file allow_deleted (lookup input.file_id files)
    else do
      file_id ←
          (if text_eq input.expected_kind []
            then only_binding (committed_bindings_for_path path_index input.virtual_path)
            else found_or_missing
                (lookup_path_binding path_index input.virtual_path input.expected_kind))
      visible_file allow_deleted (lookup file_id files)

abbrev pub make_file_ref : FileMeta → Time → FileRef
make_file_ref meta resolved_at = record {
  file_id = meta.file_id;
  virtual_path = meta.virtual_path;
  kind = meta.kind;
  content_type = meta.content_type;
  current_generation = meta.current_generation;
  delete_state = meta.delete_state;
  resolved_at = resolved_at;
}

-- MemoryService.Resolve
unfoldable pub resolve_committed : Env → ResolveInput → MemoryService → Result FileRef
unfolding resolve_from_state
resolve_committed env input s = do
  file ← resolve_from_state s.files s.path_index input false
  ok (make_file_ref file.meta env.now)
