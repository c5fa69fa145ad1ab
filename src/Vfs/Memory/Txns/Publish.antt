-- ===== src/Vfs/Memory/Txns/Publish.antt =====
-- Committing publishes exactly what the transaction sees.
use satis.Base.{
  Text, text_eq, Map, lookup, word_eq, lookup-remove, lookup-copy_into, Bool, if◌then◌else◌,
  Bool-cases, inl, inr, none, [], ◌∷◌, ◌≡◌, refl,
}
use satis.Vfs.Types.{FileId}
use satis.Vfs.Memory.{MemoryService, TxnState, flag, resolve_key, lookup_file}
use satis.Vfs.Memory.Views.{AllTrue, IsOverlay}
use satis.Vfs.Memory.Txns.{publish, remove_flagged}

lookup-remove_flagged :
    (key : Text) (paths : Map Text Bool) (index : Map Text FileId)
    → AllTrue paths
    → lookup key (remove_flagged paths index)
      ≡ (if flag (lookup key paths) then none else lookup key index)
unfolding remove_flagged lookup
lookup-remove_flagged key [] index h = refl
lookup-remove_flagged key ((path, b) ∷ paths) index h =
    rw
      (
        h.0,
        lookup-remove path key (remove_flagged paths index),
        lookup-remove_flagged key paths index h.1,
      )
      (elim (Bool-cases (text_eq path key)) [ inl e ↦ rw e | inr e ↦ rw e ])

module _ (t : TxnState) (s : MemoryService) where
  -- The committed binding of a key is the one that the transaction saw.
  pub lookup-publish :
      (key : Text) → IsOverlay t → lookup key (publish t s).path_index ≡ resolve_key s t key
  unfolding publish resolve_key
  lookup-publish key o =
      rw
        (
          lookup-copy_into key t.path_index (remove_flagged t.deleted_paths s.path_index),
          lookup-remove_flagged key t.deleted_paths s.path_index o.flags,
        )
        (elim (Bool-cases (flag (lookup key t.deleted_paths))) [
          | inl e ↦ rw (e, o.disjoint key e)
          | inr e ↦ rw e
        ])

  -- So is the committed file of an identifier.
  pub lookup_file-publish : (id : FileId) → lookup id (publish t s).files ≡ lookup_file s t id
  unfolding publish lookup_file
  lookup_file-publish id = lookup-copy_into id t.files s.files
