-- ===== src/Vfs/Memory/Views.antt =====
-- What a transaction sees after a change of its maps.
use satis.Base.{
  Text, Map, lookup, insert, remove, word_eq, nat_eq, lookup-insert, lookup-remove, text_eq, Bool,
  true, Bool-cases, inl, inr, none, some, [], ◌∷◌, ◌≡◌, refl, arith,
}
use satis.Base.All.{All}
use satis.Vfs.Types.{FileId, FileKind}
use satis.Vfs.Names.{path_kind_key}
use satis.Vfs.Memory.{MemoryFile, MemoryService, TxnState, flag, resolve_key, lookup_file}
use satis.Vfs.Memory.Exec.{put_file}
use satis.Vfs.Memory.Coherence.{put_at}
use satis.Vfs.Memory.Edit.{set_binding, drop_binding}

module _ (s : MemoryService) (t : TxnState) where
  pub resolve_key-set_binding :
      (path : Text) (kind : FileKind) (id : FileId) (key : Text)
      → resolve_key s (set_binding path kind id t) key
        ≡ put_at (path_kind_key path kind) (some id) (resolve_key s t) key
  unfolding resolve_key
  resolve_key-set_binding path kind id key =
      let k = path_kind_key path kind in
      rw (lookup-remove k key t.deleted_paths, lookup-insert k key id t.path_index)
        (elim (Bool-cases (text_eq k key)) [ inl e ↦ rw e | inr e ↦ rw e ])

  pub resolve_key-drop_binding :
      (path : Text) (kind : FileKind) (key : Text)
      → resolve_key s (drop_binding path kind t) key
        ≡ put_at (path_kind_key path kind) none (resolve_key s t) key
  unfolding resolve_key
  resolve_key-drop_binding path kind key =
      let k = path_kind_key path kind in
      rw (lookup-remove k key t.path_index, lookup-insert k key true t.deleted_paths)
        (elim (Bool-cases (text_eq k key)) [ inl e ↦ rw e | inr e ↦ rw e ])

  pub lookup_file-put_file :
      (id : FileId) (f : MemoryFile) (j : FileId)
      → lookup_file s (put_file id f t) j ≡ put_at id (some f) (lookup_file s t) j
  unfolding lookup_file
  lookup_file-put_file id f j =
      rw (lookup-insert id j f t.files)
        (elim (Bool-cases (text_eq id j)) [ inl e ↦ rw e | inr e ↦ rw e ])

-- Only deleted paths stand in `deletedPaths`, and no bound one does.
abbrev pub AllTrue : Map Text Bool → Type 0
AllTrue = All (λ e. e.1 ≡ true)

pub AllTrue-remove : (k : Text) (m : Map Text Bool) → AllTrue m → AllTrue (remove k m)
unfolding remove
AllTrue-remove k [] h = tt
AllTrue-remove k ((j, b) ∷ m) h = elim (Bool-cases (text_eq j k)) [
  | inl e ↦ rw e (AllTrue-remove k m h.1)
  | inr e ↦ rw e (h.0, AllTrue-remove k m h.1)
]

pub AllTrue-insert : (k : Text) (m : Map Text Bool) → AllTrue m → AllTrue (insert k true m)
unfolding insert
AllTrue-insert k [] h = (refl, tt)
AllTrue-insert k ((j, b) ∷ m) h = elim (Bool-cases (text_eq j k)) [
  | inl e ↦ rw e (refl, h.1)
  | inr e ↦ rw e (h.0, AllTrue-insert k m h.1)
]

pub record IsOverlay (t : TxnState) : Type 0 where
  pub flags : AllTrue t.deleted_paths
  pub disjoint :
      (key : Text) → flag (lookup key t.deleted_paths) ≡ true → lookup key t.path_index ≡ none

module _ {t : TxnState} (o : IsOverlay t) (path : Text) (kind : FileKind) where
  pub set_binding-IsOverlay : (id : FileId) → IsOverlay (set_binding path kind id t)
  set_binding-IsOverlay id =
      let k = path_kind_key path kind in
      record {
        flags = AllTrue-remove k t.deleted_paths o.flags;
        disjoint = λ key h. ground (
          arith,
          lookup-remove k key t.deleted_paths,
          lookup-insert k key id t.path_index,
          o.disjoint key,
        );
      }

  pub drop_binding-IsOverlay : IsOverlay (drop_binding path kind t)
  drop_binding-IsOverlay =
      let k = path_kind_key path kind in
      record {
        flags = AllTrue-insert k t.deleted_paths o.flags;
        disjoint = λ key h. ground (
          arith,
          lookup-insert k key true t.deleted_paths,
          lookup-remove k key t.path_index,
          o.disjoint key,
        );
      }
