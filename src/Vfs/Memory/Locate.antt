-- ===== src/Vfs/Memory/Locate.antt =====
-- What a resolved locator leads to.
use satis.Base.{text_eq, word_eq, Bool, false, Bool-cases, inl, inr, some, [], ◌≡◌, arith}
use satis.Vfs.Types.{FileId, Result, ok, err, ResolveInput, active}
use satis.Vfs.Memory.{
  MemoryFile, MemoryService, TxnState, lookup_file, visible_file, same_bool, resolve,
  resolve_path_input, ◌>>=◌,
}

pub record IsFound (s : MemoryService) (t : TxnState) (allow : Bool) (id : FileId) (f : MemoryFile)
    : Type 0 where
  pub found : lookup_file s t id ≡ some f
  pub live : allow ≡ false → f.meta.delete_state ≡ active

visible_file-IsFound :
    (s : MemoryService) (t : TxnState) (allow : Bool) (id : FileId) (f : MemoryFile)
    → visible_file allow (lookup_file s t id) ≡ ok f
    → IsFound s t allow id f
visible_file-IsFound s t allow id f h = record { found = ground arith; live = ground arith }

by_path :
    (s : MemoryService) (t : TxnState) (allow : Bool) (r : Result FileId) (f : MemoryFile)
    → (r >>= λ id. visible_file allow (lookup_file s t id)) ≡ ok f
    → (id : FileId) × IsFound s t allow id f
by_path s t allow (ok id) f h = (id, visible_file-IsFound s t allow id f h)
by_path s t allow (err e) f h = cc

-- A locator that resolves leads to a file that the transaction holds, deleted only if that is
-- allowed.
pub resolve-IsFound :
    (s : MemoryService) (t : TxnState) (input : ResolveInput) (allow : Bool) (f : MemoryFile)
    → resolve s t input allow ≡ ok f
    → (id : FileId) × IsFound s t allow id f
unfolding resolve
resolve-IsFound s t input allow f h =
    elim (Bool-cases (same_bool (text_eq input.virtual_path []) (text_eq input.file_id []))) [
      | inl e ↦ absurd (cc (rw e at h))
      | inr e ↦ elim (Bool-cases (text_eq input.virtual_path [])) [
        | inl p ↦ (input.file_id, visible_file-IsFound s t allow input.file_id f (rw (e, p) at h))
        | inr p ↦ by_path s t allow (resolve_path_input s t input) f (rw (e, p) at h)
      ]
    ]
