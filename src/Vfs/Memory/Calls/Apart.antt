-- ===== src/Vfs/Memory/Calls/Apart.antt =====
-- What a call leaves alone: the committed state, and the other transactions.
use satis.Base.{
  Text, text_eq_iff, lookup, word_eq, lookup-insert, Bool, true, false, ◌≡◌, ◌≢◌, refl, arith,
}
use satis.Vfs.Types.{Result, ok, err, Txn}
use satis.Vfs.Memory.{Env, MemoryService, TxnState, require_txn}
use satis.Vfs.Memory.Exec.{Ctx, Exec, in_txn}
use satis.Vfs.Memory.Edit.{create_body, read_body, write_body, delete_body, rename_body}
use satis.Vfs.Memory.Isolation.{
  IsFrame, Frames, create_body-Frames, read_body-Frames, write_body-Frames, delete_body-Frames,
  rename_body-Frames,
}
use satis.Vfs.Memory.Calls.{
  Edit, create_file, read_file, write_file, delete_file, rename_file, Call, begin_txn, commit_txn,
  rollback_txn, edit, run_edit, run,
}

pub record SameCommitted (a b : MemoryService) : Type 0 where
  pub rev : b.rev ≡ a.rev
  pub files : b.files ≡ a.files
  pub path_index : b.path_index ≡ a.path_index
  pub events : b.events ≡ a.events

abbrev pub is_commit : Call → Bool
is_commit (commit_txn txn) = true
is_commit _ = false

module _ {A : Type 0} (txn : Txn) (body : Exec A) (s : MemoryService) (fr : Frames body) where
  in_txn-SameCommitted : SameCommitted s (in_txn txn body s).1
  unfolding in_txn
  in_txn-SameCommitted = required (require_txn txn s) refl
    where
      required :
          (r : Result TxnState) → require_txn txn s ≡ r → SameCommitted s (in_txn txn body s).1
      required (err x) e =
          rw (e, in_txn) (record { rev = refl; files = refl; path_index = refl; events = refl })
      required (ok t) e =
          let k : IsFrame (record { service = s; state = t })
              (body (record { service = s; state = t })).1 =
            fr (record { service = s; state = t }) in
          rw (e, in_txn)
            (record { rev = k.rev; files = k.files; path_index = k.path_index; events = k.events })

  in_txn-others :
      (id : Text) → txn.id ≢ id → lookup id (in_txn txn body s).1.txns ≡ lookup id s.txns
  unfolding in_txn
  in_txn-others id apart = required (require_txn txn s) refl
    where
      required :
          (r : Result TxnState)
          → require_txn txn s ≡ r
          → lookup id (in_txn txn body s).1.txns ≡ lookup id s.txns
      required (err x) e = rw (e, in_txn)
      required (ok t) e =
          let c : Ctx = (body (record { service = s; state = t })).1 in
          let k : IsFrame (record { service = s; state = t }) c =
            fr (record { service = s; state = t }) in
          rw (e, in_txn)
            (ground (
              arith,
              lookup-insert txn.id id c.state c.service.txns,
              text_eq_iff txn.id id,
              k.txns,
            ))

run_edit-SameCommitted :
    (env : Env) (txn : Txn) (e : Edit) (s : MemoryService) → SameCommitted s (run_edit env txn e s)
unfolding run_edit
run_edit-SameCommitted env txn (create_file input) s =
    in_txn-SameCommitted txn (create_body env input) s (create_body-Frames env input)
run_edit-SameCommitted env txn (read_file input) s =
    in_txn-SameCommitted txn (read_body env txn input) s (read_body-Frames env txn input)
run_edit-SameCommitted env txn (write_file input) s =
    in_txn-SameCommitted txn (write_body env input) s (write_body-Frames env input)
run_edit-SameCommitted env txn (delete_file input) s =
    in_txn-SameCommitted txn (delete_body env input) s (delete_body-Frames env input)
run_edit-SameCommitted env txn (rename_file input) s =
    in_txn-SameCommitted txn (rename_body env input) s (rename_body-Frames env input)

-- No call but a commit, whatever it returns, changes the revision, the committed files, the
-- committed path index or the event log.
pub run-SameCommitted :
    (env : Env) (call : Call) (s : MemoryService)
    → is_commit call ≡ false
    → SameCommitted s (run env call s)
unfolding run
run-SameCommitted env (edit txn e) s h = run_edit-SameCommitted env txn e s
run-SameCommitted env (commit_txn txn) s h = cc
run-SameCommitted env (begin_txn chunk_id) s h = ground arith
run-SameCommitted env (rollback_txn txn) s h = ground arith

-- An operation of one transaction leaves every other transaction's state as it was.
pub run_edit-others :
    (env : Env) (txn : Txn) (e : Edit) (s : MemoryService) (id : Text)
    → txn.id ≢ id
    → lookup id (run_edit env txn e s).txns ≡ lookup id s.txns
unfolding run_edit
run_edit-others env txn (create_file input) s =
    in_txn-others txn (create_body env input) s (create_body-Frames env input)
run_edit-others env txn (read_file input) s =
    in_txn-others txn (read_body env txn input) s (read_body-Frames env txn input)
run_edit-others env txn (write_file input) s =
    in_txn-others txn (write_body env input) s (write_body-Frames env input)
run_edit-others env txn (delete_file input) s =
    in_txn-others txn (delete_body env input) s (delete_body-Frames env input)
run_edit-others env txn (rename_file input) s =
    in_txn-others txn (rename_body env input) s (rename_body-Frames env input)
