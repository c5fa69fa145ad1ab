-- ===== src/Vfs/Memory/Txns.antt =====
-- BeginChunkTxn, CommitChunkTxn and RollbackChunkTxn (vfs/memory.go).
pub mod Publish
pub mod Commits
use satis.Base.{
  ℕ, ◌+◌, ◌%◌, Text, bytes, text_eq, Map, lookup, insert, remove, copy_into, word_eq, Bool, ◌==◌,
  if◌then◌else◌, none, some, [], ◌∷◌, ◌++◌,
}
use satis.Vfs.Types.{
  FileId, ChunkId, Txn, Result, ok, err, invalid_input, txn_required, txn_mismatch,
}
use satis.Vfs.Memory.{Env, MemoryService, TxnState, next_id, u64_mod}

abbrev pub new_state : Txn → ℕ → TxnState
new_state txn rev = record {
  txn = txn;
  base_rev = rev;
  files = [];
  path_index = [];
  deleted_paths = [];
  pending_evts = [];
}

unfoldable pub begin_chunk_txn : Env → ChunkId → MemoryService → Result Txn × MemoryService
unfolding next_id text_eq
begin_chunk_txn env chunk_id s =
    if text_eq chunk_id []
    then (err invalid_input, s)
    else let (id, s') = next_id (bytes "txn") s in
      let txn : Txn = record { id = id; chunk_id = chunk_id; started_at = env.now } in
      (ok txn, record s' { txns = insert id (new_state txn s'.rev) s'.txns })

-- `for path, deleted := range deletedPaths { if deleted { delete(index, path) } }`
unfoldable pub remove_flagged : Map Text Bool → Map Text FileId → Map Text FileId
remove_flagged [] index = index
remove_flagged ((path, flagged) ∷ paths) index =
    let rest = remove_flagged paths index in if flagged then remove path rest else rest

unfoldable pub publish : TxnState → MemoryService → MemoryService
unfolding remove_flagged
publish t s = record s {
  path_index = copy_into t.path_index (remove_flagged t.deleted_paths s.path_index);
  files = copy_into t.files s.files;
  events = s.events ++ t.pending_evts;
  rev = (s.rev + 1) % u64_mod;
}

unfoldable pub commit_chunk_txn : Txn → MemoryService → Result (Unit {0}) × MemoryService
unfolding publish
commit_chunk_txn txn s = elim (lookup txn.id s.txns) [
  | none ↦ (err txn_required, s)
  | some t ↦
      if text_eq t.txn.chunk_id txn.chunk_id
      then (if t.base_rev == s.rev
          then (ok tt, record (publish t s) { txns = remove txn.id s.txns })
          else (err txn_mismatch, s))
      else (err txn_mismatch, s)
]

unfoldable pub rollback_chunk_txn : Txn → MemoryService → Result (Unit {0}) × MemoryService
rollback_chunk_txn txn s = elim (lookup txn.id s.txns) [
  | none ↦ (err txn_required, s)
  | some t ↦ (ok tt, record s { txns = remove txn.id s.txns })
]
