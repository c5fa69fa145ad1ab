-- ===== src/Vfs/Memory/Calls.antt =====
-- Histories of calls on one service.
pub mod Sound
pub mod Apart
pub mod Histories
pub mod Closed
use satis.Base.{ℕ, Text, List, [], ◌∷◌, Map, insert, word_eq}
use satis.Vfs.Types.{
  Time, ChunkId, Txn, CreateInput, ReadInput, WriteInput, DeleteInput, RenameInput, FileRef,
  ReadResult, Result,
}
use satis.Vfs.Memory.{Env, MemoryService}
use satis.Vfs.Memory.Exec.{Ctx, Exec}
use satis.Vfs.Memory.Edit.{
  create, read, write, delete, rename, create_body, read_body, write_body, delete_body, rename_body,
}
use satis.Vfs.Memory.Txns.{begin_chunk_txn, commit_chunk_txn, rollback_chunk_txn}

pub data Edit : Type 0 where
  create_file : CreateInput → Edit
  read_file : ReadInput → Edit
  write_file : WriteInput → Edit
  delete_file : DeleteInput → Edit
  rename_file : RenameInput → Edit

pub data Call : Type 0 where
  begin_txn : ChunkId → Call
  commit_txn : Txn → Call
  rollback_txn : Txn → Call
  edit : Txn → Edit → Call

-- The service after an operation.
unfoldable pub run_edit : Env → Txn → Edit → MemoryService → MemoryService
unfolding create read write delete rename
run_edit env txn (create_file input) s = (create env txn input s).1
run_edit env txn (read_file input) s = (read env txn input s).1
run_edit env txn (write_file input) s = (write env txn input s).1
run_edit env txn (delete_file input) s = (delete env txn input s).1
run_edit env txn (rename_file input) s = (rename env txn input s).1

unfoldable pub run : Env → Call → MemoryService → MemoryService
unfolding run_edit begin_chunk_txn commit_chunk_txn rollback_chunk_txn
run env (begin_txn chunk_id) s = (begin_chunk_txn env chunk_id s).1
run env (commit_txn txn) s = (commit_chunk_txn txn s).1
run env (rollback_txn txn) s = (rollback_chunk_txn txn s).1
run env (edit txn e) s = run_edit env txn e s

-- A history: each call has its own time, and the digest is one function.
unfoldable pub serve : (Text → Text) → List (Time × Call) → MemoryService → MemoryService
unfolding run
serve sha [] s = s
serve sha ((now, call) ∷ calls) s =
    serve sha calls (run (record { now = now; sha256_hex = sha }) call s)
