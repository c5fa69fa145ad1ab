-- ===== src/Vfs/Memory/Sound/Creates.antt =====
-- Create keeps the invariant: its identifier is fresh.
use native.Mathlib.Nat.{mod-eq_of_lt}
use satis.Base.{
  ℕ, ◌+◌, ◌<◌, ◌%◌, Text, bytes, text_eq, true, not, ◌||◌, Option, none, some, [], ◌≡◌, refl, sym,
  ap, subst, ◌∙◌, arith, decimal-injective,
}
use satis.Vfs.Types.{
  FileId, ok, active, CreateInput, file_created, invalid_input, path_already_exists,
}
use satis.Vfs.Names.{path_kind_key}
use satis.Vfs.Memory.{Env, MemoryFile, resolve_key, resolve_path, lookup_file, u64_mod, id_text}
use satis.Vfs.Memory.Exec.{Ctx, lift, fresh_id}
use satis.Vfs.Memory.Coherence.{Coherent-ext, Coherent-bind, unbound_elsewhere, put_at, key_of}
use satis.Vfs.Memory.Views.{set_binding-IsOverlay, resolve_key-set_binding}
use satis.Vfs.Memory.Files.{IsFile, initial_file-IsFile}
use satis.Vfs.Memory.Edit.{
  create_body, create_named, create_new, bind_new, initial_file, is_bound, set_binding,
  path_and_kind,
}
use satis.Vfs.Memory.Sound.{
  sees, holds, Allocated, AreFiles, AreFiles-put, AreFiles-grow, IsSound, Post, bind-Post,
  ensure-Post, lift-Post, Any, log_event-Post,
}

file_id-injective : (m n : ℕ) → id_text (bytes "file") m ≡ id_text (bytes "file") n → m ≡ n
file_id-injective m n e = decimal-injective m n (cc)

-- No file of a sound view has an identifier that is still to come.
pub fresh_missing :
    {sha : Text → Text} (seq : ℕ) (file : FileId → Option MemoryFile)
    → AreFiles sha seq file
    → file (id_text (bytes "file") (seq + 1)) ≡ none
fresh_missing seq file h = missing (file (id_text (bytes "file") (seq + 1))) refl
  where
    missing :
        (o : Option MemoryFile)
        → file (id_text (bytes "file") (seq + 1)) ≡ o
        → file (id_text (bytes "file") (seq + 1)) ≡ none
    missing none e = e
    missing (some f) e =
        let (n, q, le) = h.allocated (id_text (bytes "file") (seq + 1)) f e in
        absurd (omega (arith, file_id-injective (seq + 1) n q))

-- What a new file is called.
initial_file-named :
    (env : Env) (id : FileId) (input : CreateInput) (f : MemoryFile)
    → initial_file env id input ≡ ok f
    → (f.meta.file_id ≡ id)
      × (key_of f.meta ≡ path_kind_key input.virtual_path input.kind)
      × (f.meta.delete_state ≡ active)
unfolding initial_file
initial_file-named env id input f h = ground arith

unbound_is_none : (o : Option FileId) → not (is_bound o) ≡ true → o ≡ none
unbound_is_none none e = refl
unbound_is_none (some id) e = cc

module _ {sha : Text → Text} where
  bind_new-Post :
      (env : Env) (input : CreateInput) (id : FileId) (f : MemoryFile) (c : Ctx)
      → IsSound sha c
      → holds c id ≡ none
      → Allocated c.service.seq id
      → c.service.seq + 1 < u64_mod
      → sees c (path_kind_key input.virtual_path input.kind) ≡ none
      → IsFile sha f
      → (f.meta.file_id ≡ id)
        × (key_of f.meta ≡ path_kind_key input.virtual_path input.kind)
        × (f.meta.delete_state ≡ active)
      → Post (IsSound sha) Any (bind_new env input id f c)
  unfolding lookup_file
  bind_new-Post env input id f c h missing own room vacant fine (same_id, same_key, act) =
      log_event-Post f file_created input.creator_chunk_id env.now
        (path_and_kind input.virtual_path input.kind)
        (record c { state = set_binding input.virtual_path input.kind id c.state })
        (record {
          coherent =
              Coherent-ext
                (λ key.
                  ap (λ k. put_at k (some id) (sees c) key) same_key
                  ∙ sym (
                      resolve_key-set_binding c.service c.state input.virtual_path input.kind id
                        key))
                (λ j. ap (λ k. put_at k (some f) (holds c) j) (sym same_id))
                (Coherent-bind h.coherent id f f
                  (λ key e. unbound_elsewhere h.coherent id f f key missing e)
                  (ap (sees c) same_key ∙ vacant) same_id act);
          files =
              AreFiles-put c.service.seq (holds c) f.meta.file_id f h.files fine
                (subst (Allocated c.service.seq) (sym same_id) own);
          overlay = set_binding-IsOverlay h.overlay input.virtual_path input.kind id;
          room = room;
        })

  -- The service once `fresh_id` has given out one more identifier.
  advanced-IsSound :
      (c : Ctx) (n : ℕ)
      → n ≡ c.service.seq + 1
      → IsSound sha c
      → IsSound sha (record c { service = record c.service { seq = n } })
  unfolding resolve_key lookup_file
  advanced-IsSound c n e h = record {
    coherent = h.coherent;
    files =
        subst (λ k. AreFiles sha k (holds c)) (sym e)
          (AreFiles-grow c.service.seq (holds c) (holds c) (λ j. refl) h.files);
    overlay = h.overlay;
  }

  create_new-Post :
      (env : Env) (input : CreateInput) (c : Ctx)
      → env.sha256_hex ≡ sha
      → c.service.seq + 2 < u64_mod
      → IsSound sha c
      → sees c (path_kind_key input.virtual_path input.kind) ≡ none
      → Post (IsSound sha) Any (create_new env input c)
  unfolding fresh_id lookup_file resolve_key
  create_new-Post env input c same_sha room h vacant =
      bind-Post (IsSound sha) (λ f d. (initial_file env id input ≡ ok f) × (d ≡ c')) Any
        (lift (initial_file env id input)) (bind_new env input id) c'
        (lift-Post (IsSound sha) (initial_file env id input) c' h')
        λ f d k e.
          subst (λ x. Post (IsSound sha) Any (bind_new env input id f x)) (sym e.1)
            (bind_new-Post env input id f c' h'
              (ap (λ n. lookup_file c.service c.state (id_text (bytes "file") n)) next
                ∙ fresh_missing c.service.seq (holds c) h.files)
              (seq', refl, omega arith) (omega (arith, next)) vacant
              (subst (λ g. IsFile g f) same_sha (initial_file-IsFile env id input f e.0))
              (initial_file-named env id input f e.0))
    where
      seq' : ℕ
      seq' = (c.service.seq + 1) % u64_mod

      next : seq' ≡ c.service.seq + 1
      next = mod-eq_of_lt (omega arith)

      id : FileId
      id = id_text (bytes "file") seq'

      c' : Ctx
      c' = record c { service = record c.service { seq = seq' } }

      h' : IsSound sha c'
      h' = advanced-IsSound c seq' next h

  pub create_body-Post :
      (env : Env) (input : CreateInput) (c : Ctx)
      → env.sha256_hex ≡ sha
      → c.service.seq + 2 < u64_mod
      → IsSound sha c
      → Post (IsSound sha) Any (create_body env input c)
  unfolding create_body resolve_path
  create_body-Post env input c same_sha room h =
      ensure-Post (IsSound sha) Any
        (not (
          text_eq input.virtual_path []
          || text_eq input.kind []
          || text_eq input.creator_chunk_id []))
        invalid_input (λ _. create_named env input) c h
        λ named.
          ensure-Post (IsSound sha) Any
            (not (is_bound (resolve_path c.service c.state input.virtual_path input.kind)))
            path_already_exists (λ _. create_new env input) c h
            λ free.
              create_new-Post env input c same_sha room h
                (unbound_is_none (sees c (path_kind_key input.virtual_path input.kind)) free)
