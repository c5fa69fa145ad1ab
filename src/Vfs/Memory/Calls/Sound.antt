-- ===== src/Vfs/Memory/Calls/Sound.antt =====
-- The invariant of the service, and that each operation of a transaction keeps it.
use satis.Base.{
  ℕ, ◌+◌, ◌<◌, ◌≤◌, Text, text_eq, lookup, insert, word_eq, lookup-insert, true, false, Bool-cases,
  inl, inr, Option, some, ◌≡◌, refl, sym, subst, ◌∙◌, arith,
}
use satis.Vfs.Types.{FileId, Result, ok, err, Txn}
use satis.Vfs.Memory.{
  Env, MemoryFile, MemoryService, TxnState, resolve_key, lookup_file, u64_mod, require_txn,
}
use satis.Vfs.Memory.Exec.{Ctx, Exec, in_txn}
use satis.Vfs.Memory.Isolation.{
  IsFrame, Frames, create_body-Frames, read_body-Frames, write_body-Frames, delete_body-Frames,
  rename_body-Frames,
}
use satis.Vfs.Memory.Edit.{create_body, read_body, write_body, delete_body, rename_body}
use satis.Vfs.Memory.Coherence.{Coherent, Coherent-ext}
use satis.Vfs.Memory.Sound.{AreFiles, AreFiles-ext, IsSound, Any, state_of_Post}
use satis.Vfs.Memory.Sound.Contents.{read_body-Post, write_body-Post}
use satis.Vfs.Memory.Sound.Moves.{delete_body-Post, rename_body-Post}
use satis.Vfs.Memory.Sound.Creates.{create_body-Post}
use satis.Vfs.Memory.Calls.{
  Edit, create_file, read_file, write_file, delete_file, rename_file, run_edit,
}

-- An open transaction is based on the present revision, and then its view is sound, or on an
-- earlier one.
pub record IsOpen (sha : Text → Text) (s : MemoryService) (t : TxnState) : Type 0 where
  pub based : t.base_rev ≤ s.rev
  pub sound : t.base_rev ≡ s.rev → IsSound sha (record { service = s; state = t })

pub record IsService (sha : Text → Text) (s : MemoryService) : Type 0 where
  pub coherent : Coherent (λ key. lookup key s.path_index) (λ id. lookup id s.files)
  pub files : AreFiles sha s.seq (λ id. lookup id s.files)
  pub open_txns : (id : Text) (t : TxnState) → lookup id s.txns ≡ some t → IsOpen sha s t

-- requireTxn finds an open transaction of the service.
require_txn-found :
    (txn : Txn) (s : MemoryService) (t : TxnState)
    → require_txn txn s ≡ ok t
    → lookup txn.id s.txns ≡ some t
unfolding require_txn
require_txn-found txn s t h = ground arith

module _ {sha : Text → Text} where
  pub AreFiles-mono :
      (m n : ℕ) (file : FileId → Option MemoryFile)
      → m ≤ n
      → AreFiles sha m file
      → AreFiles sha n file
  AreFiles-mono m n file le h = record {
    content = h.content;
    allocated = λ id f e. let (k, q, below) = h.allocated id f e in (k, q, omega arith);
  }

  -- The invariant goes over to a service with the same committed state.
  pub IsSound-frame :
      (s s' : MemoryService) (t : TxnState)
      → s'.files ≡ s.files
      → s'.path_index ≡ s.path_index
      → s.seq ≤ s'.seq
      → IsSound sha (record { service = s; state = t })
      → IsSound sha (record { service = s'; state = t })
  unfolding resolve_key lookup_file
  IsSound-frame s s' t same_files same_index le h = record {
    coherent = Coherent-ext (λ key. rw same_index) (λ id. rw same_files) h.coherent;
    files = AreFiles-ext (λ id. rw same_files) (AreFiles-mono s.seq s'.seq _ le h.files);
    overlay = h.overlay;
  }

  -- A transaction that an operation does not work on.
  pub IsOpen-frame :
      (s s' : MemoryService) (t : TxnState)
      → s'.files ≡ s.files
      → s'.path_index ≡ s.path_index
      → s'.rev ≡ s.rev
      → s.seq ≤ s'.seq
      → IsOpen sha s t
      → IsOpen sha s' t
  IsOpen-frame s s' t same_files same_index same_rev le o = record {
    based = omega (arith, o.based);
    sound = λ e. IsSound-frame s s' t same_files same_index le (o.sound (e ∙ same_rev));
  }

  -- The service after the body of an operation, put back together.
  closed-IsService :
      (id : Text) (s : MemoryService) (t : TxnState) (c : Ctx)
      → IsService sha s
      → lookup id s.txns ≡ some t
      → s.seq + 2 < u64_mod
      → IsFrame (record { service = s; state = t }) c
      → (IsSound sha (record { service = s; state = t }) → IsSound sha c)
      → IsService sha (record c.service { txns = insert id c.state c.service.txns })
  closed-IsService id s t c h here room fr keeps = record {
    coherent = Coherent-ext (λ key. rw fr.path_index) (λ j. rw fr.files) h.coherent;
    files =
        AreFiles-ext (λ j. rw fr.files)
          (AreFiles-mono s.seq c.service.seq _ (fr.seq_above room) h.files);
    open_txns = λ j u e. elim (Bool-cases (text_eq id j)) [
      | inl p ↦ subst (IsOpen sha s') (own j u e p) mine
      | inr p ↦
          IsOpen-frame s s' u fr.files fr.path_index fr.rev (fr.seq_above room)
            (h.open_txns j u (others j u e p))
    ];
  }
    where
      s' : MemoryService
      s' = record c.service { txns = insert id c.state c.service.txns }

      own :
          (j : Text) (u : TxnState) → lookup j s'.txns ≡ some u → text_eq id j ≡ true → c.state ≡ u
      own j u e p = ground (arith, lookup-insert id j c.state c.service.txns)

      others :
          (j : Text) (u : TxnState)
          → lookup j s'.txns ≡ some u
          → text_eq id j ≡ false
          → lookup j s.txns ≡ some u
      others j u e p = rw (← fr.txns) (ground (arith, lookup-insert id j c.state c.service.txns))

      o : IsOpen sha s t
      o = h.open_txns id t here

      mine : IsOpen sha s' c.state
      mine = record {
        based = omega (arith, o.based, fr.base_rev, fr.rev);
        sound = λ e.
            IsSound-frame c.service s' c.state refl refl (omega arith)
              (keeps (o.sound (sym fr.base_rev ∙ e ∙ fr.rev)));
      }

  pub in_txn-IsService :
      {A : Type 0} (txn : Txn) (body : Exec A) (s : MemoryService)
      → IsService sha s
      → s.seq + 2 < u64_mod
      → Frames body
      → ((t : TxnState)
          → IsSound sha (record { service = s; state = t })
          → IsSound sha (body (record { service = s; state = t })).1)
      → IsService sha (in_txn txn body s).1
  unfolding in_txn
  in_txn-IsService txn body s h room fr keeps = required (require_txn txn s) refl
    where
      required : (r : Result TxnState) → require_txn txn s ≡ r → IsService sha (in_txn txn body s).1
      required (err x) e = rw (e, in_txn) h
      required (ok t) e =
          rw (e, in_txn)
            (closed-IsService txn.id s t (body (record { service = s; state = t })).1 h
              (require_txn-found txn s t e) room (fr (record { service = s; state = t })) (keeps t))

  pub run_edit-IsService :
      (env : Env) (txn : Txn) (e : Edit) (s : MemoryService)
      → env.sha256_hex ≡ sha
      → s.seq + 2 < u64_mod
      → IsService sha s
      → IsService sha (run_edit env txn e s)
  unfolding run_edit
  run_edit-IsService env txn (create_file input) s g room h =
      in_txn-IsService txn (create_body env input) s h room (create_body-Frames env input) (λ t k.
        state_of_Post (IsSound sha) Any (create_body env input (record { service = s; state = t }))
          (create_body-Post env input (record { service = s; state = t }) g room k))
  run_edit-IsService env txn (read_file input) s g room h =
      in_txn-IsService txn (read_body env txn input) s h room (read_body-Frames env txn input)
        (λ t k.
          state_of_Post (IsSound sha) Any
            (read_body env txn input (record { service = s; state = t }))
            (read_body-Post s room env txn input t k))
  run_edit-IsService env txn (write_file input) s g room h =
      in_txn-IsService txn (write_body env input) s h room (write_body-Frames env input) (λ t k.
        state_of_Post (IsSound sha) Any (write_body env input (record { service = s; state = t }))
          (write_body-Post s room env input t g k))
  run_edit-IsService env txn (delete_file input) s g room h =
      in_txn-IsService txn (delete_body env input) s h room (delete_body-Frames env input) (λ t k.
        state_of_Post (IsSound sha) Any (delete_body env input (record { service = s; state = t }))
          (delete_body-Post s room env input t k))
  run_edit-IsService env txn (rename_file input) s g room h =
      in_txn-IsService txn (rename_body env input) s h room (rename_body-Frames env input) (λ t k.
        state_of_Post (IsSound sha) Any (rename_body env input (record { service = s; state = t }))
          (rename_body-Post s room env input t k))
