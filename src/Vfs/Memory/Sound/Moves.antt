-- ===== src/Vfs/Memory/Sound/Moves.antt =====
-- Create, Delete and Rename keep the invariant.
use satis.Base.{
  ◌+◌, ◌<◌, Text, bytes, text_eq, text_eq_iff, true, false, not, Bool-cases, inl, inr, Option, none,
  some, [], ◌∷◌, ◌≡◌, refl, sym, ap, ◌∙◌, arith,
}
use satis.Vfs.Types.{
  FileId, deleted, DeleteInput, RenameInput, file_deleted, file_renamed, invalid_input,
  path_already_exists, text,
}
use satis.Vfs.Names.{path_kind_key}
use satis.Vfs.Memory.{
  Env, MemoryFile, MemoryService, TxnState, resolve_key, resolve_path, lookup_file, u64_mod,
  resolve,
}
use satis.Vfs.Memory.Exec.{Ctx, ◌>>=◌}
use satis.Vfs.Memory.Coherence.{
  Coherent, Coherent-ext, Coherent-unbind, Coherent-bind, put_at, key_of,
}
use satis.Vfs.Memory.Views.{
  drop_binding-IsOverlay, set_binding-IsOverlay, resolve_key-drop_binding, resolve_key-set_binding,
}
use satis.Vfs.Memory.Files.{IsFile}
use satis.Vfs.Memory.Edit.{
  locate_mutable, delete_body, delete_located, deleted_file, rename_body, rename_free,
  rename_located, renamed_file, taken_by_other, drop_binding, set_binding,
}
use satis.Vfs.Memory.Sound.{
  sees, holds, AreFiles, AreFiles-put, IsSound, Post, bind-Post, ensure-Post, Any, log_event-Post,
  put_at-put_at,
}
use satis.Vfs.Memory.Sound.Located.{IsLocated, locate_mutable-Post}

put_at-cong :
    {A : Type 0} (k : Text) (v : A) (f g : Text → A) (j : Text)
    → f j ≡ g j
    → put_at k v f j ≡ put_at k v g j
put_at-cong k v f g j e = elim (Bool-cases (text_eq k j)) [ inl p ↦ rw p | inr p ↦ rw p e ]

module _ {sha : Text → Text} (s : MemoryService) (room : s.seq + 2 < u64_mod) where
  -- A located file that is renamed or deleted has the contents that it had.
  moved-AreFiles :
      (f f' : MemoryFile) (c : Ctx)
      → IsSound sha c
      → IsLocated s false f c
      → IsFile sha f'
      → AreFiles sha c.service.seq (put_at f.meta.file_id (some f') (holds c))
  moved-AreFiles f f' c h l fine =
      AreFiles-put c.service.seq (holds c) f.meta.file_id f' h.files fine
        (h.files.allocated f.meta.file_id f l.found)

  vacated :
      (f f' : MemoryFile) (c : Ctx)
      → IsSound sha c
      → IsLocated s false f c
      → f'.meta.file_id ≡ f.meta.file_id
      → f'.meta.delete_state ≡ deleted
      → Coherent (put_at (key_of f.meta) none (sees c)) (put_at f.meta.file_id (some f') (holds c))
  vacated f f' c h l same_id gone =
      Coherent-unbind h.coherent f.meta.file_id f f' l.found (l.live refl) same_id gone

  delete_located-Post :
      (env : Env) (input : DeleteInput) (f : MemoryFile) (c : Ctx)
      → IsSound sha c
      → IsLocated s false f c
      → Post (IsSound sha) Any (delete_located env input f c)
  unfolding lookup_file
  delete_located-Post env input f c h l =
      log_event-Post (deleted_file f env.now) file_deleted input.chunk_id env.now
        ((bytes "reason", text input.reason)
          ∷ (bytes "virtual_path", text f.meta.virtual_path)
          ∷ [])
        (record c { state = drop_binding f.meta.virtual_path f.meta.kind c.state })
        (record {
          coherent =
              Coherent-ext
                (λ key.
                  sym (
                    resolve_key-drop_binding c.service c.state f.meta.virtual_path f.meta.kind key))
                (λ j. refl) (vacated f (deleted_file f env.now) c h l refl refl);
          files = moved-AreFiles f (deleted_file f env.now) c h l (
              let fine = h.files.content f.meta.file_id f l.found in
              record { current = fine.current; recorded = fine.recorded });
          overlay = drop_binding-IsOverlay h.overlay f.meta.virtual_path f.meta.kind;
          room = omega (arith, ap (λ (x : MemoryService). x.seq) l.same);
        })

  pub delete_body-Post :
      (env : Env) (input : DeleteInput) (t : TxnState)
      → IsSound sha (record { service = s; state = t })
      → Post (IsSound sha) Any (delete_body env input (record { service = s; state = t }))
  unfolding delete_body
  delete_body-Post env input t h =
      bind-Post (IsSound sha) (IsLocated s false) Any
        (locate_mutable (λ s t. resolve s t input.target false)) (delete_located env input)
        (record { service = s; state = t })
        (locate_mutable-Post (record { service = s; state = t }) input.target false h)
        (delete_located-Post env input)

  -- Only its own key leads to a located file.
  only_key :
      (f : MemoryFile) (c : Ctx) (key : Text)
      → IsSound sha c
      → IsLocated s false f c
      → sees c key ≡ some f.meta.file_id
      → key_of f.meta ≡ key
  only_key f c key h l e =
      let (g, at, act, k) = h.coherent.bound key f.meta.file_id e in
      let same : g ≡ f = cc (at, l.found) in sym (ap (λ (x : MemoryFile). key_of x.meta) same) ∙ k

  free_of_others :
      (f : MemoryFile) (c : Ctx) (key : Text)
      → IsSound sha c
      → IsLocated s false f c
      → taken_by_other (sees c key) f.meta.file_id ≡ false
      → put_at (key_of f.meta) none (sees c) key ≡ none
  free_of_others f c key h l free = elim (Bool-cases (text_eq (key_of f.meta) key)) [
    | inl e ↦ rw e
    | inr e ↦ rw e (vacant (sees c key) refl e)
  ]
    where
      vacant :
          (o : Option FileId)
          → sees c key ≡ o
          → text_eq (key_of f.meta) key ≡ false
          → sees c key ≡ none
      vacant none p e = p
      vacant (some j) p e =
          let mine : text_eq j f.meta.file_id ≡ true = ground arith in
          let same : key_of f.meta ≡ key =
            only_key f c key h l (p ∙ ap some ((text_eq_iff j f.meta.file_id).0 mine)) in
          absurd (cc ((text_eq_iff (key_of f.meta) key).1 same, e))

  rename_located-Post :
      (env : Env) (input : RenameInput) (f : MemoryFile) (c : Ctx)
      → IsSound sha c
      → IsLocated s false f c
      → taken_by_other
          (resolve_path c.service c.state input.new_virtual_path f.meta.kind)
          f.meta.file_id
        ≡ false
      → Post (IsSound sha) Any (rename_located env input f c)
  unfolding lookup_file resolve_path
  rename_located-Post env input f c h l free =
      log_event-Post new file_renamed input.chunk_id env.now
        ((bytes "old_virtual_path", text f.meta.virtual_path)
          ∷ (bytes "new_virtual_path", text input.new_virtual_path)
          ∷ [])
        (record c { state = set_binding input.new_virtual_path f.meta.kind f.meta.file_id dropped })
        (record {
          coherent =
              Coherent-ext sees_new
                (λ j. put_at-put_at f.meta.file_id (some new) (some gone) (holds c) j) bound_again;
          files = moved-AreFiles f new c h l (
              let fine = h.files.content f.meta.file_id f l.found in
              record { current = fine.current; recorded = fine.recorded });
          overlay =
              set_binding-IsOverlay
                (drop_binding-IsOverlay h.overlay f.meta.virtual_path f.meta.kind)
                input.new_virtual_path f.meta.kind f.meta.file_id;
          room = omega (arith, ap (λ (x : MemoryService). x.seq) l.same);
        })
    where
      new : MemoryFile
      new = renamed_file f input.new_virtual_path env.now

      gone : MemoryFile
      gone = deleted_file f env.now

      dropped : TxnState
      dropped = drop_binding f.meta.virtual_path f.meta.kind c.state

      without : Text → Option FileId
      without = put_at (key_of f.meta) none (sees c)

      vacant : without (key_of new.meta) ≡ none
      vacant = free_of_others f c (path_kind_key input.new_virtual_path f.meta.kind) h l free

      unbound : (key : Text) → without key ≡ some f.meta.file_id → ⊥
      unbound key e = elim (Bool-cases (text_eq (key_of f.meta) key)) [
        | inl p ↦ cc (rw p at e)
        | inr p ↦ cc ((text_eq_iff (key_of f.meta) key).1 (only_key f c key h l (rw p at e)), p)
      ]

      bound_again :
          Coherent
            (put_at (key_of new.meta) (some f.meta.file_id) without)
            (put_at f.meta.file_id (some new) (put_at f.meta.file_id (some gone) (holds c)))
      bound_again =
          Coherent-bind (vacated f gone c h l refl refl) f.meta.file_id f new unbound vacant refl
            (l.live refl)

      sees_new :
          (key : Text)
          → put_at (key_of new.meta) (some f.meta.file_id) without key
            ≡ resolve_key c.service
                (set_binding input.new_virtual_path f.meta.kind f.meta.file_id dropped)
                key
      sees_new key =
          put_at-cong (key_of new.meta) (some f.meta.file_id) without
            (resolve_key c.service dropped) key
            (sym (resolve_key-drop_binding c.service c.state f.meta.virtual_path f.meta.kind key))
          ∙ sym (
              resolve_key-set_binding c.service dropped input.new_virtual_path f.meta.kind
                f.meta.file_id key)

  rename_free-Post :
      (env : Env) (input : RenameInput) (f : MemoryFile) (c : Ctx)
      → IsSound sha c
      → IsLocated s false f c
      → Post (IsSound sha) Any (rename_free env input f c)
  rename_free-Post env input f c h l =
      ensure-Post (IsSound sha) Any
        (not (
          taken_by_other (resolve_path c.service c.state input.new_virtual_path f.meta.kind)
            f.meta.file_id))
        path_already_exists (λ _. rename_located env input f) c h
        (λ e. rename_located-Post env input f c h l (ground arith))

  pub rename_body-Post :
      (env : Env) (input : RenameInput) (t : TxnState)
      → IsSound sha (record { service = s; state = t })
      → Post (IsSound sha) Any (rename_body env input (record { service = s; state = t }))
  unfolding rename_body
  rename_body-Post env input t h =
      ensure-Post (IsSound sha) Any (not (text_eq input.new_virtual_path [])) invalid_input
        (λ _. locate_mutable (λ s t. resolve s t input.target false) >>= rename_free env input)
        (record { service = s; state = t }) h
        λ named.
          bind-Post (IsSound sha) (IsLocated s false) Any
            (locate_mutable (λ s t. resolve s t input.target false)) (rename_free env input)
            (record { service = s; state = t })
            (locate_mutable-Post (record { service = s; state = t }) input.target false h)
            (rename_free-Post env input)
