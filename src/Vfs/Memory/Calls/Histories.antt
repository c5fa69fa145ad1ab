-- ===== src/Vfs/Memory/Calls/Histories.antt =====
-- Every history of calls leaves the service sound.
use native.Mathlib.Nat.{mod-eq_of_lt}
use satis.Base.{
  ℕ, ◌+◌, ◌*◌, ◌==◌, ◌<◌, ◌≤◌, ◌%◌, Text, bytes, text_eq, lookup, insert, remove, word_eq,
  lookup-insert, lookup-remove, true, false, Bool-cases, inl, inr, Option, none, some, List, [],
  ◌∷◌, ◌≡◌, refl, sym, subst, arith, length,
}
use satis.Vfs.Types.{Result, ok, err, Txn, Time}
use satis.Vfs.Memory.{
  Env, MemoryService, TxnState, resolve_key, lookup_file, u64_mod, require_txn, new_memory_service,
  id_text,
}
use satis.Vfs.Memory.Exec.{Exec, in_txn}
use satis.Vfs.Memory.Isolation.{
  IsFrame, Frames, create_body-Frames, read_body-Frames, write_body-Frames, delete_body-Frames,
  rename_body-Frames,
}
use satis.Vfs.Memory.Edit.{create_body, read_body, write_body, delete_body, rename_body}
use satis.Vfs.Memory.Coherence.{Coherent-ext}
use satis.Vfs.Memory.Sound.{AreFiles-ext, IsSound}
use satis.Vfs.Memory.Txns.{
  begin_chunk_txn, commit_chunk_txn, rollback_chunk_txn, publish, new_state,
}
use satis.Vfs.Memory.Txns.Publish.{lookup-publish, lookup_file-publish}
use satis.Vfs.Memory.Calls.Sound.{
  IsOpen, IsService, IsSound-frame, AreFiles-mono, IsOpen-frame, run_edit-IsService,
}
use satis.Vfs.Memory.Calls.{
  create_file, read_file, write_file, delete_file, rename_file, Call, begin_txn, commit_txn,
  rollback_txn, edit, run, serve,
}

module _ {sha : Text → Text} where
  -- A new transaction sees the committed state.
  new_state-IsSound :
      (s : MemoryService) (txn : Txn)
      → IsService sha s
      → IsSound sha (record { service = s; state = new_state txn s.rev })
  unfolding resolve_key lookup_file lookup
  new_state-IsSound s txn h = record {
    coherent = Coherent-ext (λ key. refl) (λ id. refl) h.coherent;
    files = AreFiles-ext (λ id. refl) h.files;
    overlay = record { flags = tt; disjoint = λ key e. refl };
  }

  begin-IsService :
      (env : Env) (chunk_id : Text) (s : MemoryService)
      → s.seq + 1 < u64_mod
      → IsService sha s
      → IsService sha (begin_chunk_txn env chunk_id s).1
  unfolding begin_chunk_txn
  begin-IsService env chunk_id s room h = elim (Bool-cases (text_eq chunk_id [])) [
    | inl e ↦ rw e h
    | inr e ↦ rw e (record {
      coherent = h.coherent;
      files = AreFiles-mono s.seq seq' _ (omega (arith, next)) h.files;
      open_txns = λ id t p. elim (Bool-cases (text_eq new_id id)) [
        | inl q ↦ subst (IsOpen sha s') (own id t p q) fresh
        | inr q ↦
            IsOpen-frame s s' t refl refl refl (omega (arith, next))
              (h.open_txns id t (other id t p q))
      ];
    })
  ]
    where
      seq' : ℕ
      seq' = (s.seq + 1) % u64_mod

      next : seq' ≡ s.seq + 1
      next = mod-eq_of_lt room

      new_id : Text
      new_id = id_text (bytes "txn") seq'

      txn : Txn
      txn = record { id = new_id; chunk_id = chunk_id; started_at = env.now }

      s' : MemoryService
      s' = record s { seq = seq'; txns = insert new_id (new_state txn s.rev) s.txns }

      own :
          (id : Text) (t : TxnState)
          → lookup id s'.txns ≡ some t
          → text_eq new_id id ≡ true
          → new_state txn s.rev ≡ t
      own id t p q = ground (arith, lookup-insert new_id id (new_state txn s.rev) s.txns)

      other :
          (id : Text) (t : TxnState)
          → lookup id s'.txns ≡ some t
          → text_eq new_id id ≡ false
          → lookup id s.txns ≡ some t
      other id t p q = ground (arith, lookup-insert new_id id (new_state txn s.rev) s.txns)

      fresh : IsOpen sha s' (new_state txn s.rev)
      fresh = record {
        based = omega arith;
        sound = λ e.
            IsSound-frame s s' (new_state txn s.rev) refl refl (omega (arith, next))
              (new_state-IsSound s txn h);
      }

  -- Closing a transaction without publishing it.
  dropped-IsService :
      (id : Text) (s : MemoryService)
      → IsService sha s
      → IsService sha (record s { txns = remove id s.txns })
  dropped-IsService id s h = record {
    coherent = h.coherent;
    files = h.files;
    open_txns = λ j t e.
        IsOpen-frame s (record s { txns = remove id s.txns }) t refl refl refl (omega arith)
          (h.open_txns j t (ground (arith, lookup-remove id j s.txns)));
  }

  published-IsService :
      (id : Text) (s : MemoryService) (t : TxnState)
      → s.rev + 1 < u64_mod
      → IsService sha s
      → lookup id s.txns ≡ some t
      → t.base_rev ≡ s.rev
      → IsService sha (record (publish t s) { txns = remove id s.txns })
  unfolding publish
  published-IsService id s t room h here based = record {
    coherent =
        Coherent-ext (λ key. sym (lookup-publish t s key sound.overlay))
          (λ j. sym (lookup_file-publish t s j)) sound.coherent;
    files = AreFiles-ext (λ j. sym (lookup_file-publish t s j)) sound.files;
    open_txns = λ j u e.
        let old : IsOpen sha s u = h.open_txns j u (ground (arith, lookup-remove id j s.txns)) in
        record {
          based = omega (arith, old.based, next);
          sound = λ p. absurd (omega (arith, old.based, next));
        };
  }
    where
      next : (s.rev + 1) % u64_mod ≡ s.rev + 1
      next = mod-eq_of_lt room

      sound : IsSound sha (record { service = s; state = t })
      sound = (h.open_txns id t here).sound based

  commit-IsService :
      (txn : Txn) (s : MemoryService)
      → s.rev + 1 < u64_mod
      → IsService sha s
      → IsService sha (commit_chunk_txn txn s).1
  unfolding commit_chunk_txn
  commit-IsService txn s room h = found (lookup txn.id s.txns) refl
    where
      found :
          (o : Option TxnState)
          → lookup txn.id s.txns ≡ o
          → IsService sha (commit_chunk_txn txn s).1
      found none e = rw (e, commit_chunk_txn) h
      found (some t) e =
          rw (e, commit_chunk_txn)
            (elim (Bool-cases (text_eq t.txn.chunk_id txn.chunk_id)) [
              | inl p ↦ rw p (elim (Bool-cases (t.base_rev == s.rev)) [
                | inl q ↦ rw q (published-IsService txn.id s t room h e (ground arith))
                | inr q ↦ rw q h
              ])
              | inr p ↦ rw p h
            ])

  rollback-IsService :
      (txn : Txn) (s : MemoryService) → IsService sha s → IsService sha (rollback_chunk_txn txn s).1
  unfolding rollback_chunk_txn
  rollback-IsService txn s h = found (lookup txn.id s.txns) refl
    where
      found :
          (o : Option TxnState)
          → lookup txn.id s.txns ≡ o
          → IsService sha (rollback_chunk_txn txn s).1
      found none e = rw (e, rollback_chunk_txn) h
      found (some t) e = rw (e, rollback_chunk_txn) (dropped-IsService txn.id s h)

  run-IsService :
      (env : Env) (call : Call) (s : MemoryService)
      → env.sha256_hex ≡ sha
      → s.seq + 2 < u64_mod
      → s.rev + 1 < u64_mod
      → IsService sha s
      → IsService sha (run env call s)
  unfolding run
  run-IsService env (begin_txn chunk_id) s g room space h =
      begin-IsService env chunk_id s (omega arith) h
  run-IsService env (commit_txn txn) s g room space h = commit-IsService txn s space h
  run-IsService env (rollback_txn txn) s g room space h = rollback-IsService txn s h
  run-IsService env (edit txn e) s g room space h = run_edit-IsService env txn e s g room h

-- How far a call moves the two counters.
record IsNext (a b : MemoryService) : Type 0 where
  seq : b.seq ≤ a.seq + 2
  rev : b.rev ≤ a.rev + 1

in_txn-IsNext :
    {A : Type 0} (txn : Txn) (body : Exec A) (s : MemoryService)
    → Frames body
    → IsNext s (in_txn txn body s).1
unfolding in_txn
in_txn-IsNext txn body s fr = required (require_txn txn s) refl
  where
    required : (r : Result TxnState) → require_txn txn s ≡ r → IsNext s (in_txn txn body s).1
    required (err x) e = rw (e, in_txn) (omega arith)
    required (ok t) e =
        let k : IsFrame (record { service = s; state = t })
            (body (record { service = s; state = t })).1 =
          fr (record { service = s; state = t }) in
        rw (e, in_txn) (record { seq = k.seq_below; rev = omega (arith, k.rev) })

run-IsNext : (env : Env) (call : Call) (s : MemoryService) → IsNext s (run env call s)
unfolding run
run-IsNext env (begin_txn chunk_id) s = ground arith
run-IsNext env (commit_txn txn) s = ground arith
run-IsNext env (rollback_txn txn) s = ground arith
run-IsNext env (edit txn (create_file input)) s =
    in_txn-IsNext txn (create_body env input) s (create_body-Frames env input)
run-IsNext env (edit txn (read_file input)) s =
    in_txn-IsNext txn (read_body env txn input) s (read_body-Frames env txn input)
run-IsNext env (edit txn (write_file input)) s =
    in_txn-IsNext txn (write_body env input) s (write_body-Frames env input)
run-IsNext env (edit txn (delete_file input)) s =
    in_txn-IsNext txn (delete_body env input) s (delete_body-Frames env input)
run-IsNext env (edit txn (rename_file input)) s =
    in_txn-IsNext txn (rename_body env input) s (rename_body-Frames env input)

module _ (sha : Text → Text) where
  serve_keeps :
      (calls : List (Time × Call)) (s : MemoryService)
      → s.seq + 2 * length calls + 2 < u64_mod
      → s.rev + length calls + 1 < u64_mod
      → IsService sha s
      → IsService sha (serve sha calls s)
  unfolding serve
  serve_keeps [] s room space h = h
  serve_keeps ((now, call) ∷ calls) s room space h =
      let env : Env = record { now = now; sha256_hex = sha } in
      let next : IsNext s (run env call s) = run-IsNext env call s in
      serve_keeps calls (run env call s) (omega (arith, next.seq)) (omega (arith, next.rev))
        (run-IsService env call s refl (omega arith) (omega arith) h)

  new-IsService : IsService sha new_memory_service
  unfolding lookup
  new-IsService = record {
    coherent = record { bound = λ key id e. cc; owned = λ id f e. cc };
    files = record { content = λ id f e. cc; allocated = λ id f e. cc };
    open_txns = λ id t e. cc;
  }

  -- After any sequence of calls on a new service, in any interleaving of transactions and whether
  -- they succeed or fail, fewer than 2^63 - 1 of them: the committed bindings and the active
  -- committed files name each other one to one by path, kind and identifier; every committed file
  -- that is no directory has the content of its current generation, of the size and digest in its
  -- metadata, recorded by its last version; and the same holds of what each open transaction sees
  -- that is based on the present revision.
  pub serve-IsService :
      (calls : List (Time × Call))
      → 2 * length calls + 2 < u64_mod
      → IsService sha (serve sha calls new_memory_service)
  serve-IsService calls room =
      serve_keeps calls new_memory_service (omega arith) (omega arith) new-IsService
