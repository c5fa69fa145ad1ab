-- ===== src/Vfs/Memory/Effects/Names.antt =====
-- Delete and Rename: the bindings that they make and drop, and the file that they leave.
use satis.Base.{
  refl, Option, ◌⊎◌, ◌+◌, ◌%◌, bytes, Text, text_eq, text_eq_iff, true, false, not, Bool-cases, inl,
  inr, none, some, [], ◌≡◌, ◌≢◌, sym, ap, ◌∙◌, arith,
}
use satis.Vfs.Types.{
  FileId, FileRef, ok, DeleteInput, RenameInput, deleted, invalid_input, path_already_exists,
}
use satis.Vfs.Names.{path_kind_key}
use satis.Vfs.Memory.{
  Env, MemoryFile, MemoryService, TxnState, resolve, resolve_key, resolve_path, lookup_file,
  id_text, u64_mod,
}
use satis.Vfs.Memory.Exec.{Ctx, ◌>>=◌}
use satis.Vfs.Memory.Coherence.{put_at, key_of}
use satis.Vfs.Memory.Views.{resolve_key-set_binding, resolve_key-drop_binding}
use satis.Vfs.Memory.Edit.{
  locate_mutable, with_event_id, delete_body, delete_located, deleted_file, rename_body,
  rename_free, rename_located, renamed_file, taken_by_other, drop_binding, set_binding,
}
use satis.Vfs.Memory.Sound.{sees, holds, IsSound, put_at_self}
use satis.Vfs.Memory.Effects.{Located, ensure_ok, locate_ok, IsLogged, log_event_ok}

-- The identifier that an event gets, which is the next of the counter.
abbrev pub next_event : Ctx → Text
next_event c = id_text (bytes "evt") ((c.service.seq + 1) % u64_mod)

pub event_after : (a b : Ctx) → b.service ≡ a.service → next_event b ≡ next_event a
event_after a b h = ap (λ (s : MemoryService). id_text (bytes "evt") ((s.seq + 1) % u64_mod)) h

pub put_at_ne {ℓ} :
    {A : Type ℓ} (k : Text) (v : A) (f : Text → A) (j : Text) → k ≢ j → put_at k v f j ≡ f j
put_at_ne k v f j h = elim (Bool-cases (text_eq k j)) [
  | inl e ↦ absurd (h ((text_eq_iff k j).0 e))
  | inr e ↦ rw e
]

-- What a Delete that succeeds leaves.
pub record IsGone (env : Env) (input : DeleteInput) (c c' : Ctx) (f : MemoryFile) : Type 0 where
  pub resolved : resolve c.service c.state input.target false ≡ ok f
  pub freed : sees c' (key_of f.meta) ≡ none
  pub others : (key : Text) → key_of f.meta ≢ key → sees c' key ≡ sees c key
  pub kept : (id : FileId) → f.meta.file_id ≢ id → holds c' id ≡ holds c id
  pub gone :
      holds c' f.meta.file_id
      ≡ some (record f {
        meta = record f.meta {
          delete_state = deleted;
          updated_at = env.now;
          last_event_id = next_event c;
        };
      })

-- In a transaction in which the invariant holds, a Delete that succeeds drops the binding of the file's path and kind and no other. Of the file it
-- sets the delete state, the time of the update and the last event, and keeps all else: the contents,
-- the versions and the rest of the metadata. It changes no other file.
pub delete_body-IsGone :
    {sha : Text → Text} (env : Env) (input : DeleteInput) (c c' : Ctx) (ref : FileRef)
    → IsSound sha c
    → delete_body env input c ≡ (ok ref, c')
    → (f : MemoryFile) × IsGone env input c c' f
unfolding delete_body lookup_file
delete_body-IsGone env input c c' ref sound h =
    let (f, d, l, rest) =
      locate_ok c input.target false sound (delete_located env input) c' ref h in
    let path = f.meta.virtual_path in
    let kind = f.meta.kind in
    let r : IsLogged (deleted_file f env.now) env.now ref
        (record d { state = drop_binding path kind d.state }) c' =
      log_event_ok (deleted_file f env.now) _ _ _ _
        (record d { state = drop_binding path kind d.state }) c' ref rest in
    (
      f,
      record {
        resolved = l.resolved;
        freed =
            r.bindings (key_of f.meta)
            ∙ resolve_key-drop_binding d.service d.state path kind (key_of f.meta)
            ∙ put_at_self (key_of f.meta) none (sees d);
        others = λ key apart.
            r.bindings key
            ∙ resolve_key-drop_binding d.service d.state path kind key
            ∙ put_at_ne (key_of f.meta) none (sees d) key apart
            ∙ l.view.bindings key;
        kept = λ id apart.
            r.files id ∙ put_at_ne f.meta.file_id _ (holds d) id apart ∙ l.view.files id;
        gone =
            r.files f.meta.file_id
            ∙ put_at_self f.meta.file_id _ (holds d)
            ∙ ap (λ e. some (with_event_id (deleted_file f env.now) e))
                (r.id_lem ∙ event_after c d l.view.service);
      },
    )

not_taken :
    (o : Option FileId) (id : FileId) → taken_by_other o id ≡ false → (o ≡ none) ⊎ (o ≡ some id)
not_taken none id h = inl refl
not_taken (some j) id h = inr (ap (λ x. some x) ((text_eq_iff j id).0 (ground arith)))

-- What a Rename that succeeds leaves.
pub record IsMoved (env : Env) (input : RenameInput) (c c' : Ctx) (f : MemoryFile) : Type 0 where
  pub resolved : resolve c.service c.state input.target false ≡ ok f
  pub was_free :
      (sees c (path_kind_key input.new_virtual_path f.meta.kind) ≡ none)
      ⊎ (sees c (path_kind_key input.new_virtual_path f.meta.kind) ≡ some f.meta.file_id)
  pub bound : sees c' (path_kind_key input.new_virtual_path f.meta.kind) ≡ some f.meta.file_id
  pub freed :
      path_kind_key input.new_virtual_path f.meta.kind ≢ key_of f.meta
      → sees c' (key_of f.meta) ≡ none
  pub others :
      (key : Text)
      → path_kind_key input.new_virtual_path f.meta.kind ≢ key
      → key_of f.meta ≢ key
      → sees c' key ≡ sees c key
  pub kept : (id : FileId) → f.meta.file_id ≢ id → holds c' id ≡ holds c id
  pub moved :
      holds c' f.meta.file_id
      ≡ some (record f {
        meta = record f.meta {
          virtual_path = input.new_virtual_path;
          updated_at = env.now;
          last_event_id = next_event c;
        };
      })

module _ (env : Env) (input : RenameInput) (c c' : Ctx) (ref : FileRef) (f : MemoryFile) (d : Ctx)
    (l : Located input.target false f c d) where
  moved :
      not (
          taken_by_other
            (resolve_path d.service d.state input.new_virtual_path f.meta.kind)
            f.meta.file_id)
        ≡ true
      → rename_located env input f d ≡ (ok ref, c')
      → IsMoved env input c c' f
  unfolding lookup_file resolve_path
  moved free final =
      let old = key_of f.meta in
      let new = path_kind_key input.new_virtual_path f.meta.kind in
      let dropped : TxnState = drop_binding f.meta.virtual_path f.meta.kind d.state in
      let bound : TxnState =
        set_binding input.new_virtual_path f.meta.kind f.meta.file_id dropped in
      let g : MemoryFile = renamed_file f input.new_virtual_path env.now in
      let r : IsLogged g env.now ref (record d { state = bound }) c' =
        log_event_ok g _ _ _ _ (record d { state = bound }) c' ref final in
      record {
        resolved = l.resolved;
        was_free =
            not_taken (sees c new) f.meta.file_id (
              ap (λ o. taken_by_other o f.meta.file_id) (sym (l.view.bindings new)) ∙ ground arith);
        bound =
            r.bindings new
            ∙ resolve_key-set_binding d.service dropped input.new_virtual_path f.meta.kind
                f.meta.file_id new
            ∙ put_at_self new _ (resolve_key d.service dropped);
        freed = λ apart.
            r.bindings old
            ∙ resolve_key-set_binding d.service dropped input.new_virtual_path f.meta.kind
                f.meta.file_id old
            ∙ put_at_ne new _ (resolve_key d.service dropped) old apart
            ∙ resolve_key-drop_binding d.service d.state f.meta.virtual_path f.meta.kind old
            ∙ put_at_self old none (sees d);
        others = λ key apart_new apart_old.
            r.bindings key
            ∙ resolve_key-set_binding d.service dropped input.new_virtual_path f.meta.kind
                f.meta.file_id key
            ∙ put_at_ne new _ (resolve_key d.service dropped) key apart_new
            ∙ resolve_key-drop_binding d.service d.state f.meta.virtual_path f.meta.kind key
            ∙ put_at_ne old none (sees d) key apart_old
            ∙ l.view.bindings key;
        kept = λ id apart.
            r.files id ∙ put_at_ne f.meta.file_id _ (holds d) id apart ∙ l.view.files id;
        moved =
            r.files f.meta.file_id
            ∙ put_at_self f.meta.file_id _ (holds d)
            ∙ ap (λ e. some (with_event_id g e)) (r.id_lem ∙ event_after c d l.view.service);
      }

-- In a transaction in which the invariant holds, a Rename that succeeds binds the new path to the file, drops the binding of the old one unless
-- the two have one key, and leaves every other binding and file. Of the file it sets the path, the
-- time of the update and the last event, and keeps all else: the contents, the versions and the rest
-- of the metadata. The new path was bound to no file of that kind, or to this one.
pub rename_body-IsMoved :
    {sha : Text → Text} (env : Env) (input : RenameInput) (c c' : Ctx) (ref : FileRef)
    → IsSound sha c
    → rename_body env input c ≡ (ok ref, c')
    → (f : MemoryFile) × IsMoved env input c c' f
unfolding rename_body lookup_file
rename_body-IsMoved env input c c' ref sound h =
    let (named, located) =
      ensure_ok (not (text_eq input.new_virtual_path [])) invalid_input
        (λ _. locate_mutable (λ s t. resolve s t input.target false) >>= rename_free env input) c c'
        ref h in
    let (f, d, l, rest) =
      locate_ok c input.target false sound (rename_free env input) c' ref located in
    let (free, final) =
      ensure_ok
        (not (
          taken_by_other (resolve_path d.service d.state input.new_virtual_path f.meta.kind)
            f.meta.file_id))
        path_already_exists (λ _. rename_located env input f) d c' ref rest in
    (f, moved env input c c' ref f d l free final)
