-- ===== src/Vfs/Memory/Calls/Closed.antt =====
-- A transaction that is closed stays closed.
use satis.Base.{
  ℕ, ◌+◌, ◌*◌, ◌≤◌, ◌<◌, ◌%◌, Text, bytes, text_eq_iff, text_eq_refl, lookup, word_eq, length,
  lookup-insert, lookup-remove, decimal-injective, Bool-cases, text_eq, inl, inr, ◌⊎◌, none, List,
  [], ◌∷◌, ◌≡◌, ◌≢◌, refl, sym, ap, ◌∙◌, arith,
}
use native.Mathlib.Nat.{mod-eq_of_lt}
use satis.Vfs.Types.{
  Time, Result, ok, err, Txn, CreateInput, ReadInput, WriteInput, DeleteInput, RenameInput,
  txn_required,
}
use satis.Vfs.Memory.{Env, MemoryService, TxnState, require_txn, id_text, u64_mod}
use satis.Vfs.Memory.Exec.{Exec, in_txn}
use satis.Vfs.Memory.Edit.{
  create, read, write, delete, rename, create_body, read_body, write_body, delete_body, rename_body,
}
use satis.Vfs.Memory.Listing.{list_dir}
use satis.Vfs.Memory.Txns.{new_state, begin_chunk_txn, commit_chunk_txn, rollback_chunk_txn}
use satis.Vfs.Memory.Txns.Commits.{commit_ok, rollback_ok}
use satis.Vfs.Memory.Isolation.{
  IsFrame, Frames, create_body-Frames, read_body-Frames, write_body-Frames, delete_body-Frames,
  rename_body-Frames,
}
use satis.Vfs.Memory.Calls.{
  Edit, create_file, read_file, write_file, delete_file, rename_file, Call, begin_txn, commit_txn,
  rollback_txn, edit, run_edit, run, serve,
}
use satis.Vfs.Memory.Calls.Apart.{run_edit-others}

-- Every operation on the transaction is refused, and changes nothing.
pub record IsRefused (env : Env) (txn : Txn) (s : MemoryService) : Type 0 where
  pub creates : (input : CreateInput) → create env txn input s ≡ (err txn_required, s)
  pub reads : (input : ReadInput) → read env txn input s ≡ (err txn_required, s)
  pub writes : (input : WriteInput) → write env txn input s ≡ (err txn_required, s)
  pub deletes : (input : DeleteInput) → delete env txn input s ≡ (err txn_required, s)
  pub renames : (input : RenameInput) → rename env txn input s ≡ (err txn_required, s)
  pub lists : (path : Text) → list_dir txn path s ≡ err txn_required
  pub commits : commit_chunk_txn txn s ≡ (err txn_required, s)
  pub rollbacks : rollback_chunk_txn txn s ≡ (err txn_required, s)

module _ (txn : Txn) (s : MemoryService) (gone : lookup txn.id s.txns ≡ none) where
  required_none : require_txn txn s ≡ err txn_required
  unfolding require_txn
  required_none = ground arith

  refused : {A : Type 0} (body : Exec A) → in_txn txn body s ≡ (err txn_required, s)
  unfolding in_txn
  refused body = rw (required_none, in_txn) refl

  all-IsRefused : (env : Env) → IsRefused env txn s
  unfolding create read write delete rename list_dir commit_chunk_txn rollback_chunk_txn
  all-IsRefused env = record {
    creates = λ input. refused (create_body env input);
    reads = λ input. refused (read_body env txn input);
    writes = λ input. refused (write_body env input);
    deletes = λ input. refused (delete_body env input);
    renames = λ input. refused (rename_body env input);
    lists = λ path. rw (required_none, list_dir) refl;
    commits = rw (gone, commit_chunk_txn) refl;
    rollbacks = rw (gone, rollback_chunk_txn) refl;
  }

  edit_of_closed : (env : Env) (e : Edit) → run_edit env txn e s ≡ s
  unfolding run_edit create read write delete rename
  edit_of_closed env (create_file input) = ap (λ r. r.1) (refused (create_body env input))
  edit_of_closed env (read_file input) = ap (λ r. r.1) (refused (read_body env txn input))
  edit_of_closed env (write_file input) = ap (λ r. r.1) (refused (write_body env input))
  edit_of_closed env (delete_file input) = ap (λ r. r.1) (refused (delete_body env input))
  edit_of_closed env (rename_file input) = ap (λ r. r.1) (refused (rename_body env input))

txn_id-injective : (m n : ℕ) → id_text (bytes "txn") m ≡ id_text (bytes "txn") n → m ≡ n
txn_id-injective m n e = decimal-injective m n (cc)

-- A call of any transaction leaves an identifier closed that was issued before.
run_closed :
    (env : Env) (call : Call) (s : MemoryService) (id : Text) (n : ℕ)
    → id ≡ id_text (bytes "txn") n
    → n ≤ s.seq
    → s.seq + 2 < u64_mod
    → lookup id s.txns ≡ none
    → lookup id (run env call s).txns ≡ none
unfolding run begin_chunk_txn commit_chunk_txn rollback_chunk_txn
run_closed env (begin_txn chunk_id) s id n issued below room gone =
    let m : ℕ = (s.seq + 1) % u64_mod in
    let next : m ≡ s.seq + 1 = mod-eq_of_lt (omega arith) in
    let new : Txn = record {
      id = id_text (bytes "txn") m;
      chunk_id = chunk_id;
      started_at = env.now;
    } in
    let apart : id_text (bytes "txn") m ≢ id =
      (λ e. omega (arith, txn_id-injective m n (e ∙ issued), next)) in
    ground (
      arith,
      lookup-insert (id_text (bytes "txn") m) id (new_state new s.rev) s.txns,
      text_eq_iff (id_text (bytes "txn") m) id,
      apart,
    )
run_closed env (commit_txn txn) s id n issued below room gone =
    ground (arith, lookup-remove txn.id id s.txns)
run_closed env (rollback_txn txn) s id n issued below room gone =
    ground (arith, lookup-remove txn.id id s.txns)
run_closed env (edit txn e) s id n issued below room gone = elim (Bool-cases (text_eq txn.id id)) [
  | inl same ↦
      let p : txn.id ≡ id = (text_eq_iff txn.id id).0 same in
      ap (λ (x : MemoryService). lookup id x.txns)
        (edit_of_closed txn s (ap (λ i. lookup i s.txns) p ∙ gone) env e)
      ∙ gone
  | inr apart ↦
      run_edit-others env txn e s id (λ p. cc (sym apart ∙ (text_eq_iff txn.id id).1 p)) ∙ gone
]

in_txn-seq :
    {A : Type 0} (txn : Txn) (body : Exec A) (s : MemoryService)
    → Frames body
    → s.seq + 2 < u64_mod
    → (s.seq ≤ (in_txn txn body s).1.seq) × ((in_txn txn body s).1.seq ≤ s.seq + 2)
unfolding in_txn
in_txn-seq txn body s fr room = required (require_txn txn s) refl
  where
    required :
        (r : Result TxnState)
        → require_txn txn s ≡ r
        → (s.seq ≤ (in_txn txn body s).1.seq) × ((in_txn txn body s).1.seq ≤ s.seq + 2)
    required (err x) e = rw (e, in_txn) (omega arith)
    required (ok t) e =
        let k : IsFrame (record { service = s; state = t })
            (body (record { service = s; state = t })).1 =
          fr (record { service = s; state = t }) in
        rw (e, in_txn) ((k.seq_above room, k.seq_below))

run-seq :
    (env : Env) (call : Call) (s : MemoryService)
    → s.seq + 2 < u64_mod
    → (s.seq ≤ (run env call s).seq) × ((run env call s).seq ≤ s.seq + 2)
unfolding run run_edit create read write delete rename begin_chunk_txn commit_chunk_txn
    rollback_chunk_txn
run-seq env (begin_txn chunk_id) s room =
    let next : (s.seq + 1) % u64_mod ≡ s.seq + 1 = mod-eq_of_lt (omega arith) in
    ground (arith, next)
run-seq env (commit_txn txn) s room = ground arith
run-seq env (rollback_txn txn) s room = ground arith
run-seq env (edit txn (create_file input)) s room =
    in_txn-seq txn (create_body env input) s (create_body-Frames env input) room
run-seq env (edit txn (read_file input)) s room =
    in_txn-seq txn (read_body env txn input) s (read_body-Frames env txn input) room
run-seq env (edit txn (write_file input)) s room =
    in_txn-seq txn (write_body env input) s (write_body-Frames env input) room
run-seq env (edit txn (delete_file input)) s room =
    in_txn-seq txn (delete_body env input) s (delete_body-Frames env input) room
run-seq env (edit txn (rename_file input)) s room =
    in_txn-seq txn (rename_body env input) s (rename_body-Frames env input) room

module _ (sha : Text → Text) (id : Text) (n : ℕ) (issued : id ≡ id_text (bytes "txn") n) where
  serve_closed :
      (calls : List (Time × Call)) (s : MemoryService)
      → n ≤ s.seq
      → s.seq + 2 * length calls + 2 < u64_mod
      → lookup id s.txns ≡ none
      → lookup id (serve sha calls s).txns ≡ none
  unfolding serve
  serve_closed [] s below room gone = gone
  serve_closed ((now, call) ∷ calls) s below room gone =
      let env : Env = record { now = now; sha256_hex = sha } in
      let (above, next) = run-seq env call s (omega arith) in
      serve_closed calls (run env call s) (omega (arith, above)) (omega (arith, next))
        (run_closed env call s id n issued below (omega arith) gone)

closing :
    (txn : Txn) (s s' : MemoryService)
    → (commit_chunk_txn txn s ≡ (ok tt, s')) ⊎ (rollback_chunk_txn txn s ≡ (ok tt, s'))
    → (lookup txn.id s'.txns ≡ none) × (s'.seq ≡ s.seq)
closing txn s s' (inl h) =
    let (rev, txns, seq) = commit_ok txn s s' h in
    (
      ground
          (arith, ap (lookup txn.id) txns, lookup-remove txn.id txn.id s.txns, text_eq_refl txn.id),
      seq,
    )
closing txn s s' (inr h) =
    let (txns, seq) = rollback_ok txn s s' h in
    (
      ground
          (arith, ap (lookup txn.id) txns, lookup-remove txn.id txn.id s.txns, text_eq_refl txn.id),
      seq,
    )

-- Once a transaction whose identifier the service has issued is committed or rolled back, and after
-- any calls that follow, of any transactions and as many as the counter has room for, every operation
-- on it returns ErrTxnRequired and changes nothing: Create, Read, Write, Delete, Rename, ListDir, a
-- second commit and a rollback.
pub no_use_after_close :
    (sha : Text → Text) (env : Env) (txn : Txn) (n : ℕ) (s s' : MemoryService)
    (calls : List (Time × Call))
    → txn.id ≡ id_text (bytes "txn") n
    → n ≤ s.seq
    → s.seq + 2 * length calls + 2 < u64_mod
    → (commit_chunk_txn txn s ≡ (ok tt, s')) ⊎ (rollback_chunk_txn txn s ≡ (ok tt, s'))
    → IsRefused env txn (serve sha calls s')
no_use_after_close sha env txn n s s' calls issued below room h =
    let (gone, seq) = closing txn s s' h in
    all-IsRefused txn (serve sha calls s')
      (serve_closed sha txn.id n issued calls s' (omega (arith, seq)) (omega (arith, seq)) gone) env
