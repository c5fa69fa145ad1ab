-- ===== src/Vfs/Memory/Sound/Contents.antt =====
-- Read and Write keep the invariant.
use satis.Base.{
  ◌+◌, ◌<◌, Text, text_eq, word_eq, nat_eq, Bool, true, false, not, Bool-cases, inl, inr, some, [],
  ◌≡◌, refl, sym, ap, subst, ◌∙◌, arith, ◌||◌,
}
use satis.Vfs.Types.{
  ok, Txn, ReadInput, WriteInput, file_not_found, file_read, file_written, kind_directory,
  invalid_input,
}
use satis.Vfs.Memory.{Env, MemoryContent, MemoryFile, MemoryService, TxnState, u64_mod, resolve}
use satis.Vfs.Memory.Exec.{Ctx, ◌>>=◌, lift, pure}
use satis.Vfs.Memory.Coherence.{Coherent-touch, key_of}
use satis.Vfs.Memory.Files.{IsFile, written_file-IsFile}
use satis.Vfs.Memory.Content.{content_or_zero, next_content, same_content}
use satis.Vfs.Memory.Edit.{
  log_event, locate_mutable, read_body, read_located, read_result, read_payload, content_read,
  generation_read, is_present, write_body, write_located, store_content, touched, written_file,
  current_content,
}
use satis.Vfs.Memory.Sound.{
  holds, AreFiles-put, IsSound, IsReady, Post, bind-Post, ensure-Post, lift-Post, Any,
  log_event-Post,
}
use satis.Vfs.Memory.Sound.Located.{IsLocated, locate_mutable-Post}

module _ {sha : Text → Text} (s : MemoryService) (room : s.seq + 2 < u64_mod) where
  -- A located file with new contents and times.
  touched-IsReady :
      (allow : Bool) (f f' : MemoryFile) (c : Ctx)
      → IsSound sha c
      → IsLocated s allow f c
      → f'.meta.file_id ≡ f.meta.file_id
      → key_of f'.meta ≡ key_of f.meta
      → f'.meta.delete_state ≡ f.meta.delete_state
      → IsFile sha f'
      → IsReady sha f' c
  touched-IsReady allow f f' c h l same_id same_key same_state fine =
      let found : holds c f'.meta.file_id ≡ some f = ap (holds c) same_id ∙ l.found in
      record {
        coherent = Coherent-touch h.coherent f'.meta.file_id f f' found same_id same_key same_state;
        files =
            AreFiles-put c.service.seq (holds c) f'.meta.file_id f' h.files fine
              (h.files.allocated f'.meta.file_id f found);
        overlay = h.overlay;
        room = omega (arith, ap (λ (x : MemoryService). x.seq) l.same);
      }

  read_located-Post :
      (env : Env) (txn : Txn) (input : ReadInput) (f : MemoryFile) (c : Ctx)
      → IsSound sha c
      → IsLocated s true f c
      → Post (IsSound sha) Any (read_located env txn input f c)
  read_located-Post env txn input f c h l =
      ensure-Post (IsSound sha) Any
        (is_present (content_read input f) || text_eq f.meta.kind kind_directory) file_not_found
        (λ _. do
          ref ←
              log_event (touched f env.now) file_read txn.chunk_id env.now
                (read_payload (generation_read input f))
          pure (
              read_result f (generation_read input f) (content_or_zero (content_read input f))
                input.view ref))
        c h
        λ present.
          bind-Post (IsSound sha) Any Any
            (log_event (touched f env.now) file_read txn.chunk_id env.now
              (read_payload (generation_read input f)))
            (λ ref. pure (
              read_result f (generation_read input f) (content_or_zero (content_read input f))
                input.view ref))
            c
            (log_event-Post (touched f env.now) file_read txn.chunk_id env.now
              (read_payload (generation_read input f)) c
              (touched-IsReady true f (touched f env.now) c h l refl refl refl (
                let fine = h.files.content f.meta.file_id f l.found in
                record { current = fine.current; recorded = fine.recorded })))
            (λ ref d k _. (k, tt))

  pub read_body-Post :
      (env : Env) (txn : Txn) (input : ReadInput) (t : TxnState)
      → IsSound sha (record { service = s; state = t })
      → Post (IsSound sha) Any (read_body env txn input (record { service = s; state = t }))
  unfolding read_body
  read_body-Post env txn input t h =
      bind-Post (IsSound sha) (IsLocated s true) Any
        (locate_mutable (λ s t. resolve s t input.target true)) (read_located env txn input)
        (record { service = s; state = t })
        (locate_mutable-Post (record { service = s; state = t }) input.target true h)
        (read_located-Post env txn input)

  store_content-Post :
      (env : Env) (input : WriteInput) (f : MemoryFile) (content : MemoryContent) (c : Ctx)
      → env.sha256_hex ≡ sha
      → IsSound sha c
      → IsLocated s false f c
      → Post (IsSound sha) Any (store_content env input f content c)
  unfolding written_file
  store_content-Post env input f content c same_sha h l =
      elim (Bool-cases (same_content f.meta.kind (current_content f) content)) [
        | inl e ↦ rw e (h, tt)
        | inr e ↦ rw e (
            log_event-Post (written_file env input f content) file_written input.writer_chunk_id
              env.now _ c
              (touched-IsReady false f (written_file env input f content) c h l refl refl refl (
                subst (λ g. IsFile g (written_file env input f content)) same_sha
                  (written_file-IsFile env input f content))))
      ]

  write_located-Post :
      (env : Env) (input : WriteInput) (f : MemoryFile) (c : Ctx)
      → env.sha256_hex ≡ sha
      → IsSound sha c
      → IsLocated s false f c
      → Post (IsSound sha) Any (write_located env input f c)
  write_located-Post env input f c same_sha h l =
      bind-Post (IsSound sha)
        (λ content d. (next_content f.meta.kind (current_content f) input ≡ ok content) × (d ≡ c))
        Any (lift (next_content f.meta.kind (current_content f) input)) (store_content env input f)
        c (lift-Post (IsSound sha) (next_content f.meta.kind (current_content f) input) c h)
        (λ content d k e.
          store_content-Post env input f content d same_sha k
            (subst (IsLocated s false f) (sym e.1) l))

  pub write_body-Post :
      (env : Env) (input : WriteInput) (t : TxnState)
      → env.sha256_hex ≡ sha
      → IsSound sha (record { service = s; state = t })
      → Post (IsSound sha) Any (write_body env input (record { service = s; state = t }))
  unfolding write_body
  write_body-Post env input t same_sha h =
      ensure-Post (IsSound sha) Any (not (text_eq input.writer_chunk_id [])) invalid_input
        (λ _. locate_mutable (λ s t. resolve s t input.target false) >>= write_located env input)
        (record { service = s; state = t }) h
        λ named.
          bind-Post (IsSound sha) (IsLocated s false) Any
            (locate_mutable (λ s t. resolve s t input.target false)) (write_located env input)
            (record { service = s; state = t })
            (locate_mutable-Post (record { service = s; state = t }) input.target false h)
            (λ f c k l. write_located-Post env input f c same_sha k l)
