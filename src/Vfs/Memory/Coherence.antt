-- ===== src/Vfs/Memory/Coherence.antt =====
-- What ties the path index to the files: bindings and active files name each other.
use mathlib.Core.Path.{fun_ext}
use satis.Base.{
  Text, text_eq, text_eq_iff, text_eq_refl, if◌then◌else◌, Bool-cases, inl, inr, Option, none, some,
  ◌≡◌, subst, arith,
}
use satis.Vfs.Types.{FileId, FileMeta, active, deleted}
use satis.Vfs.Names.{path_kind_key}
use satis.Vfs.Memory.{MemoryFile}

abbrev pub key_of : FileMeta → Text
key_of meta = path_kind_key meta.virtual_path meta.kind

abbrev pub Bindings : Type 0
Bindings = Text → Option FileId

abbrev pub Files : Type 0
Files = FileId → Option MemoryFile

-- A function changed at one text.
abbrev pub put_at {ℓ} : {A : Type ℓ} → Text → A → (Text → A) → Text → A
put_at k v f j = if text_eq k j then v else f j

pub record Coherent (bind : Bindings) (file : Files) : Type 0 where
  pub bound :
      (key : Text) (id : FileId)
      → bind key ≡ some id
      → (f : MemoryFile) × (file id ≡ some f)
        × (f.meta.delete_state ≡ active)
        × (key_of f.meta ≡ key)
  pub owned :
      (id : FileId) (f : MemoryFile)
      → file id ≡ some f
      → (f.meta.file_id ≡ id) × (f.meta.delete_state ≡ active → bind (key_of f.meta) ≡ some id)

pub Coherent-ext :
    {bind bind' : Bindings} {file file' : Files}
    → ((key : Text) → bind key ≡ bind' key)
    → ((id : FileId) → file id ≡ file' id)
    → Coherent bind file
    → Coherent bind' file'
Coherent-ext {bind} {bind'} {file} {file'} p q c =
    subst (λ b. Coherent b file') (fun_ext p) (subst (λ g. Coherent bind g) (fun_ext q) c)

module _ {bind : Bindings} {file : Files} (c : Coherent bind file) (id : FileId)
    (f f' : MemoryFile) where
  -- A file's contents and times change, and its name does not.
  pub Coherent-touch :
      file id ≡ some f
      → f'.meta.file_id ≡ f.meta.file_id
      → key_of f'.meta ≡ key_of f.meta
      → f'.meta.delete_state ≡ f.meta.delete_state
      → Coherent bind (put_at id (some f') file)
  Coherent-touch here same_id same_key same_state = record {
    bound = λ key j h. elim (Bool-cases (text_eq id j)) [
      | inl e ↦
          let (g, at, act, k) = c.bound key j h in
          (f', rw e, ground (arith, text_eq_iff id j), ground (arith, text_eq_iff id j))
      | inr e ↦ let (g, at, act, k) = c.bound key j h in (g, rw e at, act, k)
    ];
    owned = λ j g h. ground (arith, text_eq_iff id j, c.owned id f, c.owned j g);
  }

  -- A file takes a free key.
  pub Coherent-bind :
      ((key : Text) → bind key ≡ some id → ⊥)
      → bind (key_of f'.meta) ≡ none
      → f'.meta.file_id ≡ id
      → f'.meta.delete_state ≡ active
      → Coherent (put_at (key_of f'.meta) (some id) bind) (put_at id (some f') file)
  Coherent-bind unbound vacant same_id act = record {
    bound = λ key j h. elim (Bool-cases (text_eq (key_of f'.meta) key)) [
      | inl e ↦ (f', ground (arith, text_eq_iff id j), act, (text_eq_iff (key_of f'.meta) key).0 e)
      | inr e ↦
          let old : bind key ≡ some j = ground arith in
          let (g, at, a, k) = c.bound key j old in
          (g, ground (arith, text_eq_iff id j, unbound key), a, k)
    ];
    owned = λ j g h. ground (
      arith,
      text_eq_iff id j,
      text_eq_refl (key_of f'.meta),
      c.owned j g,
      text_eq_iff (key_of f'.meta) (key_of g.meta),
    );
  }

  -- A file loses its key.
  pub Coherent-unbind :
      file id ≡ some f
      → f.meta.delete_state ≡ active
      → f'.meta.file_id ≡ id
      → f'.meta.delete_state ≡ deleted
      → Coherent (put_at (key_of f.meta) none bind) (put_at id (some f') file)
  Coherent-unbind here act same_id gone = record {
    bound = λ key j h.
        let old : bind key ≡ some j = ground arith in
        let (g, at, a, k) = c.bound key j old in
        (g, ground (arith, text_eq_iff id j, text_eq_iff (key_of f.meta) key), a, k);
    owned = λ j g h. ground (
      arith,
      text_eq_iff id j,
      c.owned id f,
      c.owned j g,
      text_eq_iff (key_of f.meta) (key_of g.meta),
    );
  }

  -- No key but its own leads to a file.
  pub unbound_elsewhere : (key : Text) → file id ≡ none → bind key ≡ some id → ⊥
  unbound_elsewhere key missing h = let (g, at, a, k) = c.bound key id h in cc
