-- ===== src/Vfs/Memory/Effects/Reads.antt =====
-- Reading back what was written.
use mathlib.Core.Path.{fun_ext}
use satis.Base.{
  Text, text_eq, lookup, nat_eq, word_eq, Bool, true, false, if◌then◌else◌, Bool-cases, inl, inr,
  Option, some, [], ◌≡◌, refl, sym, ap, subst, ◌∙◌, arith,
}
use satis.Vfs.Types.{
  FileId, FileRef, Result, ok, err, ResolveInput, ReadInput, WriteInput, Txn, invalid_input,
  Generation, ReadResult, ReadView,
}
use satis.Vfs.Memory.{
  Env, MemoryContent, MemoryFile, MemoryService, TxnState, resolve, resolve_key, resolve_path,
  resolve_path_input, bindings_for_path, bindings_among, only_binding, found_or_missing,
  lookup_file, make_file_ref, visible_file, same_bool, ◌>>=◌ as then_result,
}
use satis.Vfs.Names.{path_kind_key, normalize_virtual_path, indexed_file_kinds}
use satis.Vfs.Memory.Exec.{Ctx, ◌>>=◌, mutable_file, put_file}
use satis.Vfs.Memory.Content.{
  next_content, payload_bytes, is_binary, content_or_zero, apply_read_view,
}
use satis.Vfs.Memory.Edit.{
  log_event, write_body, current_content, read_body, read_located, read_result, content_read,
  generation_read, is_present,
}
use satis.Vfs.Memory.Sound.{sees, holds, IsSound}
use satis.Vfs.Memory.Sound.Located.{mutable_file-held}
use satis.Vfs.Memory.Effects.Writes.{write_body-IsWritten}

-- The locator's file identifier depends on the bindings alone.
located_id : MemoryService → TxnState → ResolveInput → Result FileId
located_id s t input =
    if same_bool (text_eq input.virtual_path []) (text_eq input.file_id [])
    then err invalid_input
    else if text_eq input.virtual_path []
    then ok input.file_id
    else resolve_path_input s t input

resolve-located_id :
    (s : MemoryService) (t : TxnState) (input : ResolveInput) (allow : Bool)
    → resolve s t input allow
      ≡ then_result (located_id s t input) (λ id. visible_file allow (lookup_file s t id))
unfolding resolve located_id
resolve-located_id s t input allow =
    elim (Bool-cases (same_bool (text_eq input.virtual_path []) (text_eq input.file_id []))) [
      | inl e ↦ rw e
      | inr e ↦
          rw e (elim (Bool-cases (text_eq input.virtual_path [])) [ inl p ↦ rw p | inr p ↦ rw p ])
    ]

-- The same over any function from keys to bindings.
located_by : (Text → Option FileId) → ResolveInput → Result FileId
located_by find input =
    if same_bool (text_eq input.virtual_path []) (text_eq input.file_id [])
    then err invalid_input
    else if text_eq input.virtual_path []
    then ok input.file_id
    else if text_eq input.expected_kind []
    then only_binding (
        bindings_among
          (λ kind. find (path_kind_key (normalize_virtual_path input.virtual_path) kind))
          indexed_file_kinds)
    else found_or_missing (find (path_kind_key input.virtual_path input.expected_kind))

located_id-located_by :
    (s : MemoryService) (t : TxnState) (input : ResolveInput)
    → located_id s t input ≡ located_by (resolve_key s t) input
unfolding located_id located_by resolve_path_input bindings_for_path resolve_path
located_id-located_by s t input = refl

same_located_id :
    (c c' : Ctx) (input : ResolveInput)
    → ((key : Text) → sees c' key ≡ sees c key)
    → located_id c'.service c'.state input ≡ located_id c.service c.state input
same_located_id c c' input h =
    located_id-located_by c'.service c'.state input
    ∙ ap (λ find. located_by find input) (fun_ext h)
    ∙ sym (located_id-located_by c.service c.state input)

-- A locator leads to the same identifier after a write, and so to the file's new state.
resolved_again :
    (c c' : Ctx) (r : Result FileId) (input : ResolveInput) (f g : MemoryFile)
    → located_id c.service c.state input ≡ r
    → ((key : Text) → sees c' key ≡ sees c key)
    → resolve c.service c.state input false ≡ ok f
    → ((id : FileId) → holds c id ≡ some f → f.meta.file_id ≡ id)
    → holds c' f.meta.file_id ≡ some g
    → resolve c'.service c'.state input true ≡ ok g
resolved_again c c' (err x) input f g e same h owned after = absurd (
    cc (
      resolve-located_id c.service c.state input false,
      ap (λ r. then_result r (λ id. visible_file false (lookup_file c.service c.state id))) e,
      h,
    ))
resolved_again c c' (ok id) input f g e same h owned after =
    let v : visible_file false (holds c id) ≡ ok f =
      sym (ap (λ r. then_result r (λ id. visible_file false (holds c id))) e)
      ∙ sym (resolve-located_id c.service c.state input false)
      ∙ h in
    let found : holds c id ≡ some f = ground arith in
    let here : holds c' id ≡ some g = ap (holds c') (sym (owned id found)) ∙ after in
    resolve-located_id c'.service c'.state input true
    ∙ ap (λ r. then_result r (λ id. visible_file true (holds c' id)))
        (same_located_id c c' input same ∙ e)
    ∙ ap (visible_file true) here

-- What a read returns, whatever copy of the file it makes.
read_located-result :
    (env : Env) (txn : Txn) (input : ReadInput) (g : MemoryFile) (c : Ctx)
    → is_present (content_read input g) ≡ true
    → (read_located env txn input g c).0
      ≡ ok (
          read_result g
            (generation_read input g)
            (content_or_zero (content_read input g))
            input.view
            (make_file_ref g.meta env.now))
unfolding log_event
read_located-result env txn input g c h = rw h

module _ (env : Env) (txn : Txn) (input : ReadInput) (g : MemoryFile) (c : Ctx) where
  abbrev expected : ReadResult
  expected =
      read_result g (generation_read input g) (content_or_zero (content_read input g)) input.view
        (make_file_ref g.meta env.now)

  read_resolved :
      (r : Result MemoryFile)
      → r ≡ ok g
      → holds c g.meta.file_id ≡ some g
      → is_present (content_read input g) ≡ true
      → (◌>>=◌
          (◌>>=◌ (λ d. (r, d)) (λ f. mutable_file f.meta.file_id))
          (read_located env txn input)
          c).0
        ≡ ok expected
  read_resolved r h here present = rw h (elim (mutable_file-held c g.meta.file_id g here) [
    | inl e ↦ subst goal (sym e) (read_located-result env txn input g c present)
    | inr e ↦ subst goal (sym e) (
        read_located-result env txn input g (record c { state = put_file g.meta.file_id g c.state })
          present)
  ])
    where
      goal : Result MemoryFile × Ctx → Type 0
      goal x = (◌>>=◌ (λ d. x) (read_located env txn input) c).0 ≡ ok expected

  read_body-result :
      resolve c.service c.state input.target true ≡ ok g
      → holds c g.meta.file_id ≡ some g
      → is_present (content_read input g) ≡ true
      → (read_body env txn input c).0 ≡ ok expected
  unfolding read_body
  read_body-result h here present =
      read_resolved (resolve c.service c.state input.target true) h here present

-- The text or bytes that a read of a whole file returns are its current content.
abbrev pub read_bytes : Bool → ReadResult → Text
read_bytes binary res = if binary then res.blob else res.text

whole_read :
    (g : MemoryFile) (n : Generation) (content : MemoryContent) (view : ReadView) (ref : FileRef)
    → view.mode ≡ []
    → read_bytes (is_binary g.meta.kind) (read_result g n content view ref)
      ≡ payload_bytes g.meta.kind content
unfolding apply_read_view text_eq
whole_read g n content view ref h = elim (Bool-cases (is_binary g.meta.kind)) [
  | inl e ↦ rw e
  | inr e ↦ rw (e, h)
]

-- After a write that succeeds, a read of the same target, whole and of the current generation,
-- succeeds and returns what the write made of the content.
pub read-write :
    {sha : Text → Text} (env : Env) (txn : Txn) (w : WriteInput) (r : ReadInput) (c c' : Ctx)
    (ref : FileRef)
    → IsSound sha c
    → write_body env w c ≡ (ok ref, c')
    → r.target ≡ w.target
    → r.generation ≡ 0
    → r.view.mode ≡ []
    → (f : MemoryFile) × (v : MemoryContent) × (res : ReadResult) × (resolve c.service c.state
          w.target false
        ≡ ok f)
      × (next_content f.meta.kind (current_content f) w ≡ ok v)
      × ((read_body env txn r c').0 ≡ ok res)
      × (read_bytes (is_binary f.meta.kind) res ≡ payload_bytes f.meta.kind v)
read-write env txn w r c c' ref sound h same_target current whole =
    let (f, g, x) = write_body-IsWritten env w c c' ref sound h in
    let (v, e, p) = x.content in
    let at : generation_read r g ≡ g.meta.current_generation = rw current in
    let resolved : resolve c'.service c'.state r.target true ≡ ok g = rw same_target (
      resolved_again c c' (located_id c.service c.state w.target) w.target f g refl x.bindings
        x.resolved (λ id found. (sound.coherent.owned id f found).0) x.after) in
    let present : is_present (content_read r g) ≡ true =
      ap (λ n. is_present (lookup n g.content_by_g)) at ∙ x.stored in
    let mine : holds c' g.meta.file_id ≡ some g = ap (holds c') x.same_id ∙ x.after in
    (
      f,
      v,
      expected env txn r g c',
      x.resolved,
      e,
      read_body-result env txn r g c' resolved mine present,
      ap (λ k. read_bytes (is_binary k) (expected env txn r g c')) (sym x.same_kind)
          ∙ whole_read g (generation_read r g) (content_or_zero (content_read r g)) r.view
              (make_file_ref g.meta env.now) whole
          ∙ ap (λ n. payload_bytes g.meta.kind (content_or_zero (lookup n g.content_by_g))) at
          ∙ p
          ∙ ap (λ k. payload_bytes k v) x.same_kind,
    )
