-- ===== src/Vfs/Memory/Isolation.antt =====
-- Until it commits, a transaction changes nothing that is committed.
use satis.Base.{◌+◌, ◌≤◌, ◌<◌, ◌≡◌, arith}
use satis.Vfs.Types.{Txn, CreateInput, ReadInput, WriteInput, DeleteInput, RenameInput}
use satis.Vfs.Memory.{Env, u64_mod}
use satis.Vfs.Memory.Exec.{Exec, Ctx}
use satis.Vfs.Memory.Edit.{create_body, read_body, write_body, delete_body, rename_body}

-- What an operation leaves of its context: all of the service but the counter of identifiers, which
-- goes up by two at most, and the identity and base of the transaction.
pub record IsFrame (a b : Ctx) : Type 0 where
  pub rev : b.service.rev ≡ a.service.rev
  pub files : b.service.files ≡ a.service.files
  pub path_index : b.service.path_index ≡ a.service.path_index
  pub events : b.service.events ≡ a.service.events
  pub txns : b.service.txns ≡ a.service.txns
  pub base_rev : b.state.base_rev ≡ a.state.base_rev
  pub txn : b.state.txn ≡ a.state.txn
  pub seq_below : b.service.seq ≤ a.service.seq + 2
  pub seq_above : a.service.seq + 2 < u64_mod → a.service.seq ≤ b.service.seq

abbrev pub Frames : {A : Type 0} → Exec A → Type 0
Frames m = (c : Ctx) → IsFrame c (m c).1

pub create_body-Frames : (env : Env) (input : CreateInput) → Frames (create_body env input)
unfolding create_body
create_body-Frames env input c = ground arith

pub read_body-Frames :
    (env : Env) (txn : Txn) (input : ReadInput) → Frames (read_body env txn input)
unfolding read_body
read_body-Frames env txn input c = ground arith

pub write_body-Frames : (env : Env) (input : WriteInput) → Frames (write_body env input)
unfolding write_body
write_body-Frames env input c = ground arith

pub delete_body-Frames : (env : Env) (input : DeleteInput) → Frames (delete_body env input)
unfolding delete_body
delete_body-Frames env input c = ground arith

pub rename_body-Frames : (env : Env) (input : RenameInput) → Frames (rename_body env input)
unfolding rename_body
rename_body-Frames env input c = ground arith
