-- ===== src/Vfs/Memory/Effects/Writes.antt =====
-- Write and Read: the new content, the history that stays, and reading it back.
use satis.Base.{
  ◌+◌, ◌%◌, bytes, decimal, length, if◌then◌else◌, ◌⊎◌, ◌∷◌, ◌++◌, Text, text_eq, text_eq_iff,
  lookup, insert, lookup-insert, nat_eq, word_eq, true, false, not, Bool-cases, inl, inr, some, [],
  ◌≡◌, ◌≢◌, refl, sym, ap, ◌∙◌, arith,
}
use satis.Vfs.Types.{
  FileId, clean, kind_binary, FileRef, Result, ok, WriteInput, invalid_input, kind_directory,
  FileKind, Generation,
}
use satis.Vfs.Memory.{Env, u64_mod, MemoryContent, MemoryFile, resolve}
use satis.Vfs.Memory.Exec.{Ctx, ◌>>=◌, lift}
use satis.Vfs.Memory.Content.{next_content, same_content, payload_bytes, content_or_zero}
use satis.Vfs.Memory.Edit.{
  locate_mutable, with_event_id, write_body, write_located, store_content, written_file,
  current_content, next_generation, is_present,
}
use satis.Vfs.Memory.Sound.{sees, holds, IsSound, put_at_self}
use satis.Vfs.Memory.Effects.Names.{next_event, event_after}
use satis.Vfs.Memory.Effects.{Located, bind_ok, ensure_ok, locate_ok, log_event_ok}

-- A file with one more generation: its number is the successor of the current one, its content is
-- put beside the old ones and its version behind theirs.
abbrev pub extended_file : Env → WriteInput → Text → MemoryFile → MemoryContent → MemoryFile
extended_file env input event f v =
    let n = (f.meta.current_generation + 1) % u64_mod in
    let payload = if text_eq f.meta.kind kind_binary then v.blob else v.text in
    record {
      meta = record f.meta {
        current_generation = n;
        current_checksum = env.sha256_hex payload;
        size = length payload;
        sync_status = clean;
        last_writer_chunk_id = input.writer_chunk_id;
        updated_at = env.now;
        last_event_id = event;
      };
      versions =
          f.versions
          ++ record {
            file_id = f.meta.file_id;
            generation = n;
            object_id = bytes "obj_" ++ f.meta.file_id ++ bytes "_" ++ decimal n;
            content_ref = bytes "mem://" ++ f.meta.file_id ++ bytes "/" ++ decimal n;
            write_mode = input.mode;
            base_generation = f.meta.current_generation;
            writer_chunk_id = input.writer_chunk_id;
            checksum = env.sha256_hex payload;
            size = length payload;
            created_at = env.now;
          }
            ∷ [];
      content_by_g = insert n v f.content_by_g;
    }

-- The file after a write of a content: as it was if the content is the same, and with one more
-- generation if it is another.
abbrev pub IsStored : Env → WriteInput → Text → MemoryFile → MemoryFile → MemoryContent → Type 0
IsStored env input event f g v =
    ((payload_bytes f.meta.kind (current_content f) ≡ payload_bytes f.meta.kind v) × (g ≡ f))
    ⊎ ((payload_bytes f.meta.kind (current_content f) ≢ payload_bytes f.meta.kind v)
        × (g ≡ extended_file env input event f v))

-- What a write that succeeds leaves: `f` is the file that it found and `g` that file afterwards.
pub record IsWritten (env : Env) (input : WriteInput) (c c' : Ctx) (f g : MemoryFile) : Type 0 where
  pub resolved : resolve c.service c.state input.target false ≡ ok f
  pub after : holds c' f.meta.file_id ≡ some g
  pub content :
      (v : MemoryContent) × (next_content f.meta.kind (current_content f) input ≡ ok v)
      × (payload_bytes g.meta.kind (current_content g) ≡ payload_bytes g.meta.kind v)
  pub outcome :
      (v : MemoryContent) × (next_content f.meta.kind (current_content f) input ≡ ok v)
      × IsStored env input (next_event c) f g v
  pub stored : is_present (lookup g.meta.current_generation g.content_by_g) ≡ true
  pub same_id : g.meta.file_id ≡ f.meta.file_id
  pub same_kind : g.meta.kind ≡ f.meta.kind
  pub same_state : g.meta.delete_state ≡ f.meta.delete_state
  pub history :
      (n : Generation)
      → n ≢ (f.meta.current_generation + 1) % u64_mod
      → lookup n g.content_by_g ≡ lookup n f.content_by_g
  pub others : (id : FileId) → f.meta.file_id ≢ id → holds c' id ≡ holds c id
  pub bindings : (key : Text) → sees c' key ≡ sees c key

unchanged_payload :
    (f : MemoryFile) (v : MemoryContent)
    → same_content f.meta.kind (current_content f) v ≡ true
    → payload_bytes f.meta.kind (current_content f) ≡ payload_bytes f.meta.kind v
unchanged_payload f v h = ground (
  arith,
  text_eq_iff (current_content f).blob v.blob,
  text_eq_iff (current_content f).text v.text,
)

changed_payload :
    (f : MemoryFile) (v : MemoryContent)
    → same_content f.meta.kind (current_content f) v ≡ false
    → payload_bytes f.meta.kind (current_content f) ≢ payload_bytes f.meta.kind v
changed_payload f v h = ground (
  arith,
  text_eq_iff (current_content f).blob v.blob,
  text_eq_iff (current_content f).text v.text,
)

directory_not_written :
    (content : MemoryContent) (input : WriteInput) (v : MemoryContent)
    → next_content kind_directory content input ≢ ok v
unfolding next_content text_eq
directory_not_written content input v = ground arith

written_kind :
    (kind : FileKind) (content : MemoryContent) (input : WriteInput) (v : MemoryContent)
    → next_content kind content input ≡ ok v
    → text_eq kind kind_directory ≡ false
written_kind kind content input v h = elim (Bool-cases (text_eq kind kind_directory)) [
  | inl e ↦ absurd (
      directory_not_written content input v
        (ap (λ k. next_content k content input) (sym ((text_eq_iff kind kind_directory).0 e)) ∙ h))
  | inr e ↦ e
]

inserted :
    (f : MemoryFile) (v : MemoryContent)
    → lookup (next_generation f) (insert (next_generation f) v f.content_by_g) ≡ some v
inserted f v = lookup-insert (next_generation f) (next_generation f) v f.content_by_g ∙ ground arith

apart_from : (k : Text) (j : Text) → k ≢ j → text_eq k j ≡ false
apart_from k j h = ground (arith, text_eq_iff k j)

module _ {sha : Text → Text} (env : Env) (input : WriteInput) (f : MemoryFile) (c d c' : Ctx)
    (ref : FileRef) (sound : IsSound sha c) (l : Located input.target false f c d) where
  written :
      (v : MemoryContent)
      → next_content f.meta.kind (current_content f) input ≡ ok v
      → store_content env input f v d ≡ (ok ref, c')
      → (g : MemoryFile) × IsWritten env input c c' f g
  unfolding written_file
  written v e h = elim (Bool-cases (same_content f.meta.kind (current_content f) v)) [
    | inl same ↦
        let end : d ≡ c' = ap (λ (x : Result FileRef × Ctx). x.1) (rw same at h) in
        (
          f,
          record {
            resolved = l.resolved;
            after =
                ap (λ (x : Ctx). holds x f.meta.file_id) (sym end)
                ∙ l.view.files f.meta.file_id
                ∙ l.found;
            content = (v, e, unchanged_payload f v same);
            outcome = (v, e, inl (unchanged_payload f v same, refl));
            stored =
                let (w, at, size, sum) =
                  (sound.files.content f.meta.file_id f l.found).current
                    (written_kind f.meta.kind (current_content f) input v e) in
                ap is_present at;
            same_id = refl;
            same_kind = refl;
            same_state = refl;
            history = λ n apart. refl;
            others = λ id apart. ap (λ (x : Ctx). holds x id) (sym end) ∙ l.view.files id;
            bindings = λ key. ap (λ (x : Ctx). sees x key) (sym end) ∙ l.view.bindings key;
          },
        )
    | inr changed ↦
        let r = log_event_ok (written_file env input f v) _ _ _ _ d c' ref (rw changed at h) in
        (
          with_event_id (written_file env input f v) r.id,
          record {
            resolved = l.resolved;
            after = r.files f.meta.file_id ∙ put_at_self f.meta.file_id _ (holds d);
            content =
                (v, e, ap (λ o. payload_bytes f.meta.kind (content_or_zero o)) (inserted f v));
            outcome = (
              v,
              e,
              inr (
                changed_payload f v changed,
                ap (λ x. with_event_id (written_file env input f v) x)
                    (r.id_lem ∙ event_after c d l.view.service),
              ),
            );
            stored = ap is_present (inserted f v);
            same_id = refl;
            same_kind = refl;
            same_state = refl;
            history =
                λ n apart. lookup-insert (next_generation f) n v f.content_by_g ∙ ground arith;
            others =
                λ id apart. r.files id ∙ rw (apart_from f.meta.file_id id apart) (l.view.files id);
            bindings = λ key. r.bindings key ∙ l.view.bindings key;
          },
        )
  ]

-- In a transaction in which the invariant holds, a write that succeeds gives the located file the content that its mode makes of the old one. If that
-- is the content that the file has, the file stays as it was. If it is another, the file gets the next
-- generation (modulo 2^64) with this content: the number, checksum, size, writer, time and event in its metadata are
-- those of the write and the rest of the metadata stays, and the new version follows the old ones. The
-- content of every other generation, every other file and every binding stay as they were.
pub write_body-IsWritten :
    {sha : Text → Text} (env : Env) (input : WriteInput) (c c' : Ctx) (ref : FileRef)
    → IsSound sha c
    → write_body env input c ≡ (ok ref, c')
    → (f : MemoryFile) × (g : MemoryFile) × IsWritten env input c c' f g
unfolding write_body
write_body-IsWritten env input c c' ref sound h =
    let (named, located) =
      ensure_ok (not (text_eq input.writer_chunk_id [])) invalid_input
        (λ _. locate_mutable (λ s t. resolve s t input.target false) >>= write_located env input) c
        c' ref h in
    let (f, d, l, rest) =
      locate_ok c input.target false sound (write_located env input) c' ref located in
    let (v, e, stored) =
      bind_ok (lift (next_content f.meta.kind (current_content f) input))
        (store_content env input f) d c' ref rest in
    let (g, w) = written env input f c d c' ref sound l v e stored in (f, g, w)
