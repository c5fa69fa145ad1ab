-- ===== src/Vfs/Memory/Exec.antt =====
-- An operation inside a transaction: it reads and writes the service and the transaction's state,
-- and what was written before an error stays written.
use satis.Base.{Text, lookup, insert, word_eq, Bool, if◌then◌else◌, none, some, [], ◌∷◌, ◌++◌}
use satis.Vfs.Types.{FileId, Event, Txn, VfsError, Result, ok, err, file_not_found}
use satis.Vfs.Memory.{MemoryFile, MemoryService, TxnState, next_id, require_txn}

pub record Ctx : Type 0 where
  pub service : MemoryService
  pub state : TxnState

abbrev pub Exec : Type 0 → Type 0
Exec A = Ctx → Result A × Ctx

infixl 10 ◌>>=◌ ◌>>◌
abbrev pub ◌>>=◌ : {A B : Type 0} → Exec A → (A → Exec B) → Exec B
◌>>=◌ m f c = let r = m c in elim r.0 [ ok a ↦ f a r.1 | err e ↦ (err e, r.1) ]

abbrev pub ◌>>◌ : {B : Type 0} → Exec (Unit {0}) → Exec B → Exec B
m >> k = m >>= λ _. k

abbrev pub pure : {A : Type 0} → A → Exec A
pure a c = (ok a, c)

abbrev pub fail : {A : Type 0} → VfsError → Exec A
fail e c = (err e, c)

abbrev pub lift : {A : Type 0} → Result A → Exec A
lift r c = (r, c)

-- A guard: `if !test { return err }`
abbrev pub ensure : Bool → VfsError → Exec (Unit {0})
ensure test e c = (if test then ok tt else err e, c)

-- Branching, on what is known before.
abbrev pub choose : {A : Type 0} → Bool → Exec A → Exec A → Exec A
choose test m n c = if test then m c else n c

-- A lookup that changes nothing.
abbrev pub asks : {A : Type 0} → (MemoryService → TxnState → A) → Exec A
asks f c = (ok (f c.service c.state), c)

abbrev pub modify : (TxnState → TxnState) → Exec (Unit {0})
modify f c = (ok tt, record c { state = f c.state })

-- s.nextID
unfoldable pub fresh_id : Text → Exec Text
unfolding next_id
fresh_id prefix c =
    (ok (next_id prefix c.service).0, record c { service = (next_id prefix c.service).1 })

-- mutableFile: the transaction's own copy, made on the first call.
unfoldable pub mutable_file : FileId → Exec MemoryFile
mutable_file file_id c = elim (lookup file_id c.state.files) [
  | some file ↦ (ok file, c)
  | none ↦ elim (lookup file_id c.service.files) [
    | none ↦ (err file_not_found, c)
    | some base ↦
        (ok base, record c { state = record c.state { files = insert file_id base c.state.files } })
  ]
]

-- A write through the pointer that mutableFile returned, and an event.
abbrev pub put_file : FileId → MemoryFile → TxnState → TxnState
put_file file_id file t = record t { files = insert file_id file t.files }

abbrev pub push_event : Event → TxnState → TxnState
push_event event t = record t { pending_evts = t.pending_evts ++ event ∷ [] }

-- A call of an operation: requireTxn, then the body on the transaction that it found.
abbrev close : {A : Type 0} → Text → Result A × Ctx → Result A × MemoryService
close id r = (r.0, record r.1.service { txns = insert id r.1.state r.1.service.txns })

unfoldable pub in_txn : {A : Type 0} → Txn → Exec A → MemoryService → Result A × MemoryService
in_txn txn body s = elim (require_txn txn s) [
  | err e ↦ (err e, s)
  | ok t ↦ close txn.id (body (record { service = s; state = t }))
]
