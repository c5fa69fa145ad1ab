-- ===== src/Vfs/Memory/Edit.antt =====
-- The operations of a transaction: Create, Read, Write, Delete and Rename (vfs/memory.go).
use satis.Base.{
  ℕ, ◌+◌, ◌%◌, Text, bytes, text_eq, decimal, Map, lookup, insert, remove, word_eq, nat_eq, Bool,
  true, false, not, ◌||◌, ◌==◌, if◌then◌else◌, Option, none, some, [], ◌∷◌, ◌++◌, length,
}
use satis.Vfs.Types.{
  FileId, ChunkId, FileKind, Generation, kind_directory, mode_replace_full, WriteMode, FileMeta,
  FileRef, VersionEntry, Event, EventType, file_created, file_written, file_renamed, file_deleted,
  file_read, PayloadValue, text, number, Txn, Result, ok, err, clean, active, deleted, CreateInput,
  ReadInput, ReadResult, ReadView, WriteInput, DeleteInput, RenameInput, invalid_input,
  path_already_exists, file_not_found, invalid_kind,
}
use satis.Vfs.Names.{path_kind_key}
use satis.Vfs.Memory.{
  MemoryContent, MemoryFile, TxnState, MemoryService, Env, u64_mod, resolve_path, resolve,
  make_file_ref,
}
use satis.Vfs.Memory.Exec.{
  Exec, ◌>>=◌, ◌>>◌, pure, ensure, choose, lift, asks, modify, fresh_id, mutable_file, put_file,
  push_event, in_txn,
}
use satis.Vfs.Memory.Content.{
  is_text_kind, is_binary, of_text, of_blob, content_or_zero, payload_bytes, same_content,
  next_content, apply_read_view,
}

abbrev pub content_ref : FileId → Generation → Text
content_ref file_id g = bytes "mem://" ++ file_id ++ bytes "/" ++ decimal g

abbrev pub object_id : FileId → Generation → Text
object_id file_id g = bytes "obj_" ++ file_id ++ bytes "_" ++ decimal g

abbrev pub set_binding : Text → FileKind → FileId → TxnState → TxnState
set_binding path kind file_id t = record t {
  path_index = insert (path_kind_key path kind) file_id t.path_index;
  deleted_paths = remove (path_kind_key path kind) t.deleted_paths;
}

abbrev pub drop_binding : Text → FileKind → TxnState → TxnState
drop_binding path kind t = record t {
  path_index = remove (path_kind_key path kind) t.path_index;
  deleted_paths = insert (path_kind_key path kind) true t.deleted_paths;
}

-- The event of an operation, whose id goes into the file's metadata.
abbrev pub event_of : Text → FileId → EventType → ChunkId → ℕ → Map Text PayloadValue → Event
event_of id file_id type chunk_id now payload = record {
  event_id = id;
  file_id = file_id;
  type = type;
  chunk_id = chunk_id;
  timestamp = now;
  payload = payload;
}

abbrev pub with_event_id : MemoryFile → Text → MemoryFile
with_event_id file id = record file { meta = record file.meta { last_event_id = id } }

-- The last part of each operation that changes a file: the event, and the file's new state.
unfoldable pub log_event :
    MemoryFile → EventType → ChunkId → ℕ → Map Text PayloadValue → Exec FileRef
unfolding fresh_id
log_event file type chunk_id now payload = do
  id ← fresh_id (bytes "evt")
  modify (put_file file.meta.file_id (with_event_id file id))
  modify (push_event (event_of id file.meta.file_id type chunk_id now payload))
  pure (make_file_ref file.meta now)

unfoldable pub new_meta : Env → FileId → CreateInput → FileMeta
new_meta env file_id input = record {
  file_id = file_id;
  virtual_path = input.virtual_path;
  kind = input.kind;
  content_type = input.content_type;
  current_generation = 0;
  current_checksum = [];
  size = 0;
  sync_status = clean;
  creator_chunk_id = input.creator_chunk_id;
  last_writer_chunk_id = input.creator_chunk_id;
  parent_lineage = input.parent_lineage;
  delete_state = active;
  created_at = env.now;
  updated_at = env.now;
  last_read_at = 0;
  last_event_id = [];
}

-- The version record of a file's new metadata.
abbrev pub version_of : Env → FileMeta → WriteMode → Generation → VersionEntry
version_of env meta mode base = record {
  file_id = meta.file_id;
  generation = meta.current_generation;
  object_id = object_id meta.file_id meta.current_generation;
  content_ref = content_ref meta.file_id meta.current_generation;
  write_mode = mode;
  base_generation = base;
  writer_chunk_id = meta.last_writer_chunk_id;
  checksum = meta.current_checksum;
  size = meta.size;
  created_at = env.now;
}

abbrev pub first_meta : Env → FileMeta → Text → FileMeta
first_meta env meta payload = record meta {
  current_generation = 1;
  current_checksum = env.sha256_hex payload;
  size = length payload;
}

-- A file with a first generation.
abbrev pub first_version : Env → FileMeta → MemoryContent → Text → MemoryFile
first_version env meta content payload = record {
  meta = first_meta env meta payload;
  versions = version_of env (first_meta env meta payload) mode_replace_full 0 ∷ [];
  content_by_g = (1, content) ∷ [];
}

abbrev pub empty_file : FileMeta → MemoryFile
empty_file meta = record { meta = meta; versions = []; content_by_g = [] }

unfoldable pub initial_file : Env → FileId → CreateInput → Result MemoryFile
unfolding new_meta
initial_file env file_id input =
    let meta = new_meta env file_id input in
    if text_eq input.kind kind_directory
    then ok (empty_file meta)
    else if is_text_kind input.kind
    then ok (first_version env meta (of_text input.initial_text) input.initial_text)
    else if is_binary input.kind
    then ok (first_version env meta (of_blob input.initial_blob) input.initial_blob)
    else err invalid_kind

abbrev pub path_and_kind : Text → FileKind → Map Text PayloadValue
path_and_kind path kind = (bytes "virtual_path", text path) ∷ (bytes "kind", text kind) ∷ []

abbrev pub is_bound : Option FileId → Bool
is_bound none = false
is_bound (some file_id) = true

abbrev pub bind_new : Env → CreateInput → FileId → MemoryFile → Exec FileRef
bind_new env input file_id file = do
  modify (set_binding input.virtual_path input.kind file_id)
  log_event file file_created input.creator_chunk_id env.now
      (path_and_kind input.virtual_path input.kind)

-- Create, once the path is known to be free.
abbrev pub create_new : Env → CreateInput → Exec FileRef
create_new env input = do
  file_id ← fresh_id (bytes "file")
  file ← lift (initial_file env file_id input)
  bind_new env input file_id file

-- Create, once its arguments are known to be there.
abbrev pub create_named : Env → CreateInput → Exec FileRef
create_named env input = do
  existing ← asks (λ s t. resolve_path s t input.virtual_path input.kind)
  ensure (not (is_bound existing)) path_already_exists
  create_new env input

unfoldable pub create_body : Env → CreateInput → Exec FileRef
unfolding initial_file log_event text_eq fresh_id
create_body env input = do
  ensure
      (not (
        text_eq input.virtual_path []
        || text_eq input.kind []
        || text_eq input.creator_chunk_id []))
      invalid_input
  create_named env input

unfoldable pub create : Env → Txn → CreateInput → MemoryService → Result FileRef × MemoryService
unfolding create_body in_txn
create env txn input = in_txn txn (create_body env input)

-- t.resolve, and mutableFile of what it found
abbrev pub locate_mutable : (MemoryService → TxnState → Result MemoryFile) → Exec MemoryFile
locate_mutable find = do found ← asks find; file ← lift found; mutable_file file.meta.file_id

abbrev pub read_text : MemoryFile → MemoryContent → ReadView → Text
read_text file content view =
    if is_binary file.meta.kind then [] else apply_read_view content.text view

abbrev pub read_blob : MemoryFile → MemoryContent → Text
read_blob file content = if is_binary file.meta.kind then content.blob else []

abbrev pub is_present : Option MemoryContent → Bool
is_present none = false
is_present (some c) = true

abbrev pub wanted_generation : Generation → Generation → Generation
wanted_generation asked current = if asked == 0 then current else asked

abbrev pub touched : MemoryFile → ℕ → MemoryFile
touched file now = record file { meta = record file.meta { last_read_at = now } }

abbrev pub read_result : MemoryFile → Generation → MemoryContent → ReadView → FileRef → ReadResult
read_result file g content view ref = record {
  file_ref = ref;
  generation = g;
  content_type = file.meta.content_type;
  text = read_text file content view;
  blob = read_blob file content;
}

abbrev pub generation_read : ReadInput → MemoryFile → Generation
generation_read input file = wanted_generation input.generation file.meta.current_generation

abbrev pub content_read : ReadInput → MemoryFile → Option MemoryContent
content_read input file = lookup (generation_read input file) file.content_by_g

abbrev pub read_payload : Generation → Map Text PayloadValue
read_payload g = (bytes "generation", number g) ∷ []

-- Read, once the file is located.
abbrev pub read_located : Env → Txn → ReadInput → MemoryFile → Exec ReadResult
read_located env txn input file = do
  let g = generation_read input file
  let content = content_read input file
  ensure (is_present content || text_eq file.meta.kind kind_directory) file_not_found
  ref ← log_event (touched file env.now) file_read txn.chunk_id env.now (read_payload g)
  pure (read_result file g (content_or_zero content) input.view ref)

unfoldable pub read_body : Env → Txn → ReadInput → Exec ReadResult
unfolding log_event mutable_file
read_body env txn input = do
  file ← locate_mutable (λ s t. resolve s t input.target true)
  read_located env txn input file

unfoldable pub read : Env → Txn → ReadInput → MemoryService → Result ReadResult × MemoryService
unfolding read_body in_txn
read env txn input = in_txn txn (read_body env txn input)

abbrev pub current_content : MemoryFile → MemoryContent
current_content file = content_or_zero (lookup file.meta.current_generation file.content_by_g)

abbrev pub next_generation : MemoryFile → Generation
next_generation file = (file.meta.current_generation + 1) % u64_mod

abbrev pub next_meta : Env → WriteInput → MemoryFile → Text → FileMeta
next_meta env input file payload = record file.meta {
  current_generation = next_generation file;
  last_writer_chunk_id = input.writer_chunk_id;
  updated_at = env.now;
  sync_status = clean;
  size = length payload;
  current_checksum = env.sha256_hex payload;
}

-- A file with one more generation.
unfoldable pub written_file : Env → WriteInput → MemoryFile → MemoryContent → MemoryFile
written_file env input file content =
    let meta = next_meta env input file (payload_bytes file.meta.kind content) in
    record {
      meta = meta;
      versions = file.versions ++ version_of env meta input.mode file.meta.current_generation ∷ [];
      content_by_g = insert (next_generation file) content file.content_by_g;
    }

abbrev pub write_payload : WriteMode → Generation → Generation → Map Text PayloadValue
write_payload mode base g =
    (bytes "write_mode", text mode)
    ∷ (bytes "base_generation", number base)
    ∷ (bytes "generation", number g)
    ∷ []

-- Write, once the content is known.
abbrev pub store_content : Env → WriteInput → MemoryFile → MemoryContent → Exec FileRef
store_content env input file content =
    choose (same_content file.meta.kind (current_content file) content)
      (pure (make_file_ref file.meta env.now))
      (log_event (written_file env input file content) file_written input.writer_chunk_id env.now
        (write_payload input.mode file.meta.current_generation (next_generation file)))

-- Write, once the file is located.
abbrev pub write_located : Env → WriteInput → MemoryFile → Exec FileRef
write_located env input file = do
  content ← lift (next_content file.meta.kind (current_content file) input)
  store_content env input file content

unfoldable pub write_body : Env → WriteInput → Exec FileRef
unfolding written_file log_event mutable_file
write_body env input = do
  ensure (not (text_eq input.writer_chunk_id [])) invalid_input
  file ← locate_mutable (λ s t. resolve s t input.target false)
  write_located env input file

unfoldable pub write : Env → Txn → WriteInput → MemoryService → Result FileRef × MemoryService
unfolding write_body in_txn
write env txn input = in_txn txn (write_body env input)

abbrev pub deleted_file : MemoryFile → ℕ → MemoryFile
deleted_file file now = record file {
  meta = record file.meta { delete_state = deleted; updated_at = now };
}

abbrev pub delete_located : Env → DeleteInput → MemoryFile → Exec FileRef
delete_located env input file = do
  modify (drop_binding file.meta.virtual_path file.meta.kind)
  log_event (deleted_file file env.now) file_deleted input.chunk_id env.now (
      (bytes "reason", text input.reason)
      ∷ (bytes "virtual_path", text file.meta.virtual_path)
      ∷ [])

unfoldable pub delete_body : Env → DeleteInput → Exec FileRef
unfolding log_event mutable_file
delete_body env input = do
  file ← locate_mutable (λ s t. resolve s t input.target false)
  delete_located env input file

unfoldable pub delete : Env → Txn → DeleteInput → MemoryService → Result FileRef × MemoryService
unfolding delete_body in_txn
delete env txn input = in_txn txn (delete_body env input)

abbrev pub taken_by_other : Option FileId → FileId → Bool
taken_by_other none file_id = false
taken_by_other (some existing) file_id = not (text_eq existing file_id)

abbrev pub renamed_file : MemoryFile → Text → ℕ → MemoryFile
renamed_file file path now = record file {
  meta = record file.meta { virtual_path = path; updated_at = now };
}

abbrev pub rename_located : Env → RenameInput → MemoryFile → Exec FileRef
rename_located env input file = do
  modify (drop_binding file.meta.virtual_path file.meta.kind)
  modify (set_binding input.new_virtual_path file.meta.kind file.meta.file_id)
  log_event (renamed_file file input.new_virtual_path env.now) file_renamed input.chunk_id env.now (
      (bytes "old_virtual_path", text file.meta.virtual_path)
      ∷ (bytes "new_virtual_path", text input.new_virtual_path)
      ∷ [])

-- Rename, once the file is located: its new path must be free of other files of its kind.
abbrev pub rename_free : Env → RenameInput → MemoryFile → Exec FileRef
rename_free env input file = do
  existing ← asks (λ s t. resolve_path s t input.new_virtual_path file.meta.kind)
  ensure (not (taken_by_other existing file.meta.file_id)) path_already_exists
  rename_located env input file

unfoldable pub rename_body : Env → RenameInput → Exec FileRef
unfolding log_event mutable_file
rename_body env input = do
  ensure (not (text_eq input.new_virtual_path [])) invalid_input
  file ← locate_mutable (λ s t. resolve s t input.target false)
  rename_free env input file

unfoldable pub rename : Env → Txn → RenameInput → MemoryService → Result FileRef × MemoryService
unfolding rename_body in_txn
rename env txn input = in_txn txn (rename_body env input)
