-- ===== src/Vfs/Memory/Txns/Commits.antt =====
-- When a commit succeeds, what it publishes, and what closes a transaction.
use native.Mathlib.Nat.{mod-eq_of_lt}
use satis.Base.{
  ◌+◌, ◌<◌, ◌%◌, Text, text_eq_iff, text_eq_refl, lookup, remove, word_eq, lookup-remove, none,
  some, ◌++◌, ◌≡◌, ◌≢◌, refl, ap, arith,
}
use satis.Vfs.Types.{ok, err, Txn, txn_mismatch, FileId, VfsError}
use satis.Vfs.Memory.{MemoryService, TxnState, u64_mod, resolve_key, lookup_file}
use satis.Vfs.Memory.Views.{IsOverlay}
use satis.Vfs.Memory.Txns.{commit_chunk_txn, rollback_chunk_txn, publish}
use satis.Vfs.Memory.Txns.Publish.{lookup-publish, lookup_file-publish}

-- What a successful commit leaves.
pub record IsCommitted (t : TxnState) (s s' : MemoryService) : Type 0 where
  pub bindings : (key : Text) → lookup key s'.path_index ≡ resolve_key s t key
  pub files : (id : FileId) → lookup id s'.files ≡ lookup_file s t id
  pub events : s'.events ≡ s.events ++ t.pending_evts
  pub rev : s'.rev ≡ s.rev + 1
  pub closed : lookup t.txn.id s'.txns ≡ none

-- A commit of an open transaction whose base is the present revision succeeds. The bindings and
-- files that it leaves are those that the transaction saw, its events are appended to the log, the
-- revision goes up by one and the transaction is closed.
pub commit_publishes :
    (t : TxnState) (s : MemoryService)
    → lookup t.txn.id s.txns ≡ some t
    → t.base_rev ≡ s.rev
    → s.rev + 1 < u64_mod
    → IsOverlay t
    → (s' : MemoryService) × (commit_chunk_txn t.txn s ≡ (ok tt, s')) × IsCommitted t s s'
unfolding commit_chunk_txn publish
commit_publishes t s here based room o = (
  record (publish t s) { txns = remove t.txn.id s.txns },
  ground (arith, text_eq_refl t.txn.chunk_id),
  record {
    bindings = λ key. lookup-publish t s key o;
    files = λ id. lookup_file-publish t s id;
    events = refl;
    rev = mod-eq_of_lt room;
    closed = ground (arith, lookup-remove t.txn.id t.txn.id s.txns, text_eq_refl t.txn.id);
  },
)

-- What a successful commit does to the counters and the table of transactions.
pub commit_ok :
    (txn : Txn) (s s' : MemoryService)
    → commit_chunk_txn txn s ≡ (ok tt, s')
    → (s'.rev ≡ (s.rev + 1) % u64_mod) × (s'.txns ≡ remove txn.id s.txns) × (s'.seq ≡ s.seq)
unfolding commit_chunk_txn publish
commit_ok txn s s' h = ground arith

-- Of two open transactions on the present revision only the first to commit succeeds: the second
-- is refused with ErrTxnMismatch, and the refusal changes nothing.
pub commit_conflict :
    (t u : TxnState) (s s' : MemoryService)
    → t.txn.id ≢ u.txn.id
    → lookup u.txn.id s.txns ≡ some u
    → u.base_rev ≡ s.rev
    → s.rev + 1 < u64_mod
    → commit_chunk_txn t.txn s ≡ (ok tt, s')
    → commit_chunk_txn u.txn s' ≡ (err txn_mismatch, s')
unfolding commit_chunk_txn publish
commit_conflict t u s s' apart here based room h =
    let (rev, txns, seq) = commit_ok t.txn s s' h in
    let next : (s.rev + 1) % u64_mod ≡ s.rev + 1 = mod-eq_of_lt room in
    ground (
      arith,
      ap (lookup u.txn.id) txns,
      lookup-remove t.txn.id u.txn.id s.txns,
      text_eq_iff t.txn.id u.txn.id,
      text_eq_refl u.txn.chunk_id,
    )

-- A commit that fails changes nothing.
pub commit_fails :
    (txn : Txn) (s : MemoryService) {e : VfsError}
    → (commit_chunk_txn txn s).0 ≡ err e
    → (commit_chunk_txn txn s).1 ≡ s
unfolding commit_chunk_txn
commit_fails txn s h = ground arith

pub rollback_ok :
    (txn : Txn) (s s' : MemoryService)
    → rollback_chunk_txn txn s ≡ (ok tt, s')
    → (s'.txns ≡ remove txn.id s.txns) × (s'.seq ≡ s.seq)
unfolding rollback_chunk_txn
rollback_ok txn s s' h = ground arith
