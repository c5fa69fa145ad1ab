-- ===== src/Vfs/Memory/Files.antt =====
-- The contents and versions of one file.
use satis.Base.{
  Text, text_eq, text_eq_iff, subst, lookup, nat_eq, lookup-insert, length, true, false, Bool-cases,
  Option, none, some, List, [], ◌∷◌, ◌++◌, inl, inr, ◌≡◌, refl, arith,
}
use satis.Vfs.Types.{
  VersionEntry, CreateInput, WriteInput, FileId, ok, kind_directory, kind_text, kind_generated,
  kind_ephemeral, FileKind, FileMeta, mode_replace_full,
}
use satis.Vfs.Memory.{MemoryContent, MemoryFile, Env}
use satis.Vfs.Memory.Content.{payload_bytes, is_text_kind, is_binary, of_text, of_blob}
use satis.Vfs.Memory.Edit.{
  initial_file, new_meta, empty_file, first_version, first_meta, version_of, next_meta,
  written_file, next_generation,
}

abbrev pub last : List VersionEntry → Option VersionEntry
last [] = none
last (v ∷ []) = some v
last (v ∷ w ∷ ws) = last (w ∷ ws)

last-append : (vs : List VersionEntry) (v : VersionEntry) → last (vs ++ v ∷ []) ≡ some v
last-append [] v = refl
last-append (w ∷ []) v = refl
last-append (w ∷ x ∷ ws) v = last-append (x ∷ ws) v

-- A file that is no directory has the content of its current generation, of the size and digest
-- that its metadata name, and its last version is that generation.
pub record IsFile (sha : Text → Text) (f : MemoryFile) : Type 0 where
  pub current :
      text_eq f.meta.kind kind_directory ≡ false
      → (content : MemoryContent) × (lookup f.meta.current_generation f.content_by_g ≡ some content)
        × (f.meta.size ≡ length (payload_bytes f.meta.kind content))
        × (f.meta.current_checksum ≡ sha (payload_bytes f.meta.kind content))
  pub recorded :
      text_eq f.meta.kind kind_directory ≡ false
      → (v : VersionEntry) × (last f.versions ≡ some v)
        × (v.generation ≡ f.meta.current_generation)
        × (v.size ≡ f.meta.size)
        × (v.checksum ≡ f.meta.current_checksum)

text_not_binary : (k : FileKind) → is_text_kind k ≡ true → is_binary k ≡ false
unfolding text_eq
text_not_binary k h = elim (Bool-cases (text_eq k kind_text)) [
  | inl e ↦ rw ((text_eq_iff k kind_text).0 e)
  | inr e ↦ elim (Bool-cases (text_eq k kind_generated)) [
    | inl g ↦ rw ((text_eq_iff k kind_generated).0 g)
    | inr g ↦ rw ((text_eq_iff k kind_ephemeral).0 (ground arith))
  ]
]

module _ (env : Env) where
  first_version-IsFile :
      (meta : FileMeta) (content : MemoryContent)
      → IsFile env.sha256_hex (first_version env meta content (payload_bytes meta.kind content))
  unfolding lookup
  first_version-IsFile meta content = record {
    current = λ _. (content, refl, refl, refl);
    recorded = λ _. (
      version_of env (first_meta env meta (payload_bytes meta.kind content)) mode_replace_full 0,
      refl,
      refl,
      refl,
      refl,
    );
  }

  -- What a new file is, by its kind.
  pub initial_file-IsFile :
      (id : FileId) (input : CreateInput) (f : MemoryFile)
      → initial_file env id input ≡ ok f
      → IsFile env.sha256_hex f
  unfolding initial_file
  initial_file-IsFile id input f h = elim (Bool-cases (text_eq input.kind kind_directory)) [
    | inl d ↦ subst (IsFile env.sha256_hex) (ground arith) (directory d)
    | inr d ↦ elim (Bool-cases (is_text_kind input.kind)) [
      | inl t ↦
          subst (IsFile env.sha256_hex) (ground (arith, text_not_binary input.kind))
            (first_version-IsFile (new_meta env id input) (of_text input.initial_text))
      | inr t ↦
          subst (IsFile env.sha256_hex) (ground arith)
            (first_version-IsFile (new_meta env id input) (of_blob input.initial_blob))
    ]
  ]
    where
      directory :
          text_eq input.kind kind_directory ≡ true
          → IsFile env.sha256_hex (empty_file (new_meta env id input))
      directory d = record { current = λ e. cc; recorded = λ e. cc }

  pub written_file-IsFile :
      (input : WriteInput) (f : MemoryFile) (content : MemoryContent)
      → IsFile env.sha256_hex (written_file env input f content)
  unfolding written_file
  written_file-IsFile input f content =
      let v =
        version_of env (next_meta env input f (payload_bytes f.meta.kind content)) input.mode
          f.meta.current_generation in
      record {
        current = λ _. (
          content,
          rw (lookup-insert (next_generation f) (next_generation f) content f.content_by_g)
              (ground arith),
          refl,
          refl,
        );
        recorded = λ _. (v, last-append f.versions v, refl, refl, refl);
      }
