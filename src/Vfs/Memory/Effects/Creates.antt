-- ===== src/Vfs/Memory/Effects/Creates.antt =====
-- Create: the file that an input describes, and the binding that is made.
use native.Mathlib.Nat.{mod-eq_of_lt}
use satis.Base.{
  decimal, ℕ, ◌<◌, ◌⊎◌, ◌∷◌, ◌++◌, length, ◌+◌, ◌%◌, bytes, Text, text_eq, text_eq_iff, true, not,
  ◌||◌, Bool-cases, inl, inr, Option, none, some, [], ◌≡◌, ◌≢◌, refl, sym, ap, subst, ◌∙◌, arith,
}
use satis.Vfs.Types.{
  FileId, FileRef, FileMeta, FileKind, Generation, kind_directory, kind_text, kind_generated,
  kind_ephemeral, kind_binary, mode_replace_full, clean, active, ok, CreateInput, invalid_input,
  path_already_exists,
}
use satis.Vfs.Names.{path_kind_key}
use satis.Vfs.Memory.{
  Env, MemoryContent, MemoryFile, TxnState, resolve_key, resolve_path, lookup_file, id_text,
  u64_mod,
}
use satis.Vfs.Memory.Exec.{Ctx, lift, fresh_id}
use satis.Vfs.Memory.Content.{is_text_kind, is_binary}
use satis.Vfs.Memory.Views.{resolve_key-set_binding}
use satis.Vfs.Memory.Edit.{
  with_event_id, create_body, create_named, create_new, bind_new, initial_file, new_meta, is_bound,
  set_binding,
}
use satis.Vfs.Memory.Sound.{sees, holds, IsSound, put_at_self}
use satis.Vfs.Memory.Sound.Creates.{fresh_missing}
use satis.Vfs.Memory.Effects.Names.{put_at_ne}
use satis.Vfs.Memory.Effects.{bind_ok, ensure_ok, IsLogged, log_event_ok}

-- The metadata of a new file, by its identifier, its event and its first content.
abbrev pub created_meta : Env → CreateInput → FileId → Text → Generation → Text → ℕ → FileMeta
created_meta env input id event generation checksum size = record {
  file_id = id;
  virtual_path = input.virtual_path;
  kind = input.kind;
  content_type = input.content_type;
  current_generation = generation;
  current_checksum = checksum;
  size = size;
  sync_status = clean;
  creator_chunk_id = input.creator_chunk_id;
  last_writer_chunk_id = input.creator_chunk_id;
  parent_lineage = input.parent_lineage;
  delete_state = active;
  created_at = env.now;
  updated_at = env.now;
  last_read_at = 0;
  last_event_id = event;
}

-- A new file with one generation, which holds the payload.
abbrev pub filled_file : Env → CreateInput → FileId → Text → Text → MemoryContent → MemoryFile
filled_file env input id event payload content = record {
  meta = created_meta env input id event 1 (env.sha256_hex payload) (length payload);
  versions =
      record {
        file_id = id;
        generation = 1;
        object_id = bytes "obj_" ++ id ++ bytes "_" ++ decimal 1;
        content_ref = bytes "mem://" ++ id ++ bytes "/" ++ decimal 1;
        write_mode = mode_replace_full;
        base_generation = 0;
        writer_chunk_id = input.creator_chunk_id;
        checksum = env.sha256_hex payload;
        size = length payload;
        created_at = env.now;
      }
      ∷ [];
  content_by_g = (1, content) ∷ [];
}

-- The file that an input describes, by its kind.
pub data IsDescribed (env : Env) (input : CreateInput) (id : FileId) (event : Text)
    : MemoryFile → Type 0 where
  directory :
      input.kind ≡ kind_directory
      → IsDescribed env input id event (record {
        meta = created_meta env input id event 0 [] 0;
        versions = [];
        content_by_g = [];
      })
  plain :
      (input.kind ≡ kind_text) ⊎ ((input.kind ≡ kind_generated) ⊎ (input.kind ≡ kind_ephemeral))
      → IsDescribed env input id event (
          filled_file env input id event input.initial_text
            (record { text = input.initial_text; blob = [] }))
  binary :
      input.kind ≡ kind_binary
      → IsDescribed env input id event (
          filled_file env input id event input.initial_blob
            (record { text = []; blob = input.initial_blob }))

-- What a Create that succeeds leaves.
pub record IsCreated (env : Env) (input : CreateInput) (c c' : Ctx) (id : FileId) : Type 0 where
  pub was_free : sees c (path_kind_key input.virtual_path input.kind) ≡ none
  pub id_lem : id ≡ id_text (bytes "file") (c.service.seq + 1)
  pub is_new : holds c id ≡ none
  pub seq : c'.service.seq ≡ c.service.seq + 2
  pub bound : sees c' (path_kind_key input.virtual_path input.kind) ≡ some id
  pub others :
      (key : Text) → path_kind_key input.virtual_path input.kind ≢ key → sees c' key ≡ sees c key
  pub kept : (j : FileId) → id ≢ j → holds c' j ≡ holds c j
  pub made :
      (g : MemoryFile) × (holds c' id ≡ some g)
      × IsDescribed env input id (id_text (bytes "evt") (c.service.seq + 2)) g

text_kinds :
    (k : FileKind)
    → is_text_kind k ≡ true
    → (k ≡ kind_text) ⊎ ((k ≡ kind_generated) ⊎ (k ≡ kind_ephemeral))
text_kinds k h = elim (Bool-cases (text_eq k kind_text)) [
  | inl e ↦ inl ((text_eq_iff k kind_text).0 e)
  | inr e ↦ elim (Bool-cases (text_eq k kind_generated)) [
    | inl e' ↦ inr (inl ((text_eq_iff k kind_generated).0 e'))
    | inr e' ↦ inr (inr ((text_eq_iff k kind_ephemeral).0 (ground arith)))
  ]
]

ok_injective : {A : Type 0} (a b : A) → ok a ≡ ok b → a ≡ b
ok_injective a b h = cc

initial_file-IsDescribed :
    (env : Env) (id event : Text) (input : CreateInput) (f : MemoryFile)
    → initial_file env id input ≡ ok f
    → IsDescribed env input id event (with_event_id f event)
unfolding initial_file new_meta
initial_file-IsDescribed env id event input f h =
    elim (Bool-cases (text_eq input.kind kind_directory)) [
      | inl d ↦
          subst (λ x. IsDescribed env input id event (with_event_id x event))
            (ok_injective _ f (rw d at h)) (directory ((text_eq_iff input.kind kind_directory).0 d))
      | inr d ↦ elim (Bool-cases (is_text_kind input.kind)) [
        | inl t ↦
            subst (λ x. IsDescribed env input id event (with_event_id x event))
              (ok_injective _ f (rw (d, t) at h)) (plain (text_kinds input.kind t))
        | inr t ↦ elim (Bool-cases (is_binary input.kind)) [
          | inl b ↦
              subst (λ x. IsDescribed env input id event (with_event_id x event))
                (ok_injective _ f (rw (d, t, b) at h))
                (binary ((text_eq_iff input.kind kind_binary).0 b))
          | inr b ↦ absurd (cc (rw (d, t, b) at h))
        ]
      ]
    ]

bound_of : (o : Option FileId) → not (is_bound o) ≡ true → o ≡ none
bound_of none h = refl
bound_of (some id) h = cc

file_id_of :
    (env : Env) (id : FileId) (input : CreateInput) (f : MemoryFile)
    → initial_file env id input ≡ ok f
    → f.meta.file_id ≡ id
unfolding initial_file
file_id_of env id input f h = ground arith

module _ {sha : Text → Text} (env : Env) (input : CreateInput) (c c' : Ctx) (ref : FileRef)
    (sound : IsSound sha c) (room : c.service.seq + 2 < u64_mod) where
  created :
      sees c (path_kind_key input.virtual_path input.kind) ≡ none
      → create_new env input c ≡ (ok ref, c')
      → IsCreated env input c c' ref.file_id
  unfolding fresh_id lookup_file resolve_key
  created free h =
      let (f, e, rest) =
        bind_ok (lift (initial_file env new input)) (bind_new env input new) fresh c' ref h in
      let bound : TxnState = set_binding input.virtual_path input.kind new c.state in
      let r : IsLogged f env.now ref (record fresh { state = bound }) c' =
        log_event_ok f _ _ _ _ (record fresh { state = bound }) c' ref rest in
      let same : f.meta.file_id ≡ new = file_id_of env new input f e in
      let ref_lem : ref.file_id ≡ new = ap (λ (x : FileRef). x.file_id) r.ref_lem ∙ same in
      let event : r.id ≡ id_text (bytes "evt") (c.service.seq + 2) =
        r.id_lem ∙ ap (id_text (bytes "evt")) later in
      subst (IsCreated env input c c') (sym ref_lem) (record {
        was_free = free;
        id_lem = ap (id_text (bytes "file")) next;
        is_new =
            ap (λ n. holds c (id_text (bytes "file") n)) next
            ∙ fresh_missing c.service.seq (holds c) sound.files;
        seq = r.seq ∙ later;
        bound =
            r.bindings key
            ∙ resolve_key-set_binding c.service c.state input.virtual_path input.kind new key
            ∙ put_at_self key _ (sees c);
        others = λ k apart.
            r.bindings k
            ∙ resolve_key-set_binding c.service c.state input.virtual_path input.kind new k
            ∙ put_at_ne key _ (sees c) k apart;
        kept = λ j apart.
            r.files j ∙ put_at_ne f.meta.file_id _ (holds c) j (λ p. apart (sym same ∙ p));
        made = (
          with_event_id f r.id,
          ap (holds c') (sym same)
              ∙ r.files f.meta.file_id
              ∙ put_at_self f.meta.file_id _ (holds c),
          subst (λ x. IsDescribed env input new x (with_event_id f r.id)) event
              (initial_file-IsDescribed env new r.id input f e),
        );
      })
    where
      new : FileId
      new = id_text (bytes "file") ((c.service.seq + 1) % u64_mod)

      fresh : Ctx
      fresh = record c { service = record c.service { seq = (c.service.seq + 1) % u64_mod } }

      key : Text
      key = path_kind_key input.virtual_path input.kind

      next : (c.service.seq + 1) % u64_mod ≡ c.service.seq + 1
      next = mod-eq_of_lt (omega (arith, room))

      later : ((c.service.seq + 1) % u64_mod + 1) % u64_mod ≡ c.service.seq + 2
      later =
          let two : c.service.seq + 1 + 1 ≡ c.service.seq + 2 = omega arith in
          ap (λ n. (n + 1) % u64_mod) next ∙ ap (λ n. n % u64_mod) two ∙ mod-eq_of_lt room

-- A Create that succeeds, in a transaction in which the invariant holds and whose counter has room for two
-- more identifiers, found the path free for the kind and binds it to the next identifier of the
-- counter, which no file has; it leaves every other binding and every file of another identifier, and
-- the counter goes up by two. The identifier leads to the file that the input describes: its
-- metadata, and by its kind nothing (a directory), or one generation with the text or the blob.
pub create_body-IsCreated :
    {sha : Text → Text} (env : Env) (input : CreateInput) (c c' : Ctx) (ref : FileRef)
    → IsSound sha c
    → c.service.seq + 2 < u64_mod
    → create_body env input c ≡ (ok ref, c')
    → IsCreated env input c c' ref.file_id
unfolding create_body resolve_path
create_body-IsCreated env input c c' ref sound room h =
    let (named, there) =
      ensure_ok
        (not (
          text_eq input.virtual_path []
          || text_eq input.kind []
          || text_eq input.creator_chunk_id []))
        invalid_input (λ _. create_named env input) c c' ref h in
    let (free, rest) =
      ensure_ok (not (is_bound (resolve_path c.service c.state input.virtual_path input.kind)))
        path_already_exists (λ _. create_new env input) c c' ref there in
    created env input c c' ref sound room
      (bound_of (sees c (path_kind_key input.virtual_path input.kind)) free) rest
