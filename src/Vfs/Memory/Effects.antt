-- ===== src/Vfs/Memory/Effects.antt =====
-- What the operations that succeed do to what the transaction sees.
pub mod Writes
pub mod Reads
pub mod Names
pub mod Creates
use satis.Base.{
  ℕ, ◌+◌, ◌%◌, bytes, Text, text_eq, text_eq_iff, text_eq_refl, Map, lookup, word_eq, Bool, true,
  false, if◌then◌else◌, Bool-cases, inl, inr, Option, none, some, ◌≡◌, refl, sym, ap, subst, ◌∙◌,
  arith,
}
use satis.Vfs.Types.{
  FileId, FileRef, Result, ok, err, ResolveInput, EventType, ChunkId, PayloadValue, VfsError,
  active,
}
use satis.Vfs.Memory.{
  Env, id_text, u64_mod, MemoryFile, MemoryService, TxnState, resolve, resolve_key, lookup_file,
  make_file_ref,
}
use satis.Vfs.Memory.Exec.{Exec, Ctx, ◌>>=◌, ensure, fresh_id, mutable_file, put_file}
use satis.Vfs.Memory.Coherence.{put_at}
use satis.Vfs.Memory.Views.{lookup_file-put_file}
use satis.Vfs.Memory.Locate.{IsFound, resolve-IsFound}
use satis.Vfs.Memory.Edit.{log_event, with_event_id, locate_mutable}
use satis.Vfs.Memory.Sound.{sees, holds, IsSound}
use satis.Vfs.Memory.Sound.Located.{mutable_file-held, copied}

module _ {A B : Type 0} where
  bind_of :
      (f : A → Exec B) (r : Result A) (c c' : Ctx) (b : B)
      → (◌>>=◌ (λ d. (r, c)) f c) ≡ (ok b, c')
      → (a : A) × (r ≡ ok a) × (f a c ≡ (ok b, c'))
  bind_of f (ok a) c c' b h = (a, refl, h)
  bind_of f (err e) c c' b h = absurd (cc)

  -- The steps of a chain that succeeds.
  pub bind_ok :
      (m : Exec A) (f : A → Exec B) (c c' : Ctx) (b : B)
      → (m >>= f) c ≡ (ok b, c')
      → (a : A) × ((m c).0 ≡ ok a) × (f a (m c).1 ≡ (ok b, c'))
  bind_ok m f c c' b h = bind_of f (m c).0 (m c).1 c' b h

pub ensure_ok :
    {B : Type 0} (test : Bool) (e : VfsError) (k : Unit {0} → Exec B) (c c' : Ctx) (b : B)
    → (ensure test e >>= k) c ≡ (ok b, c')
    → (test ≡ true) × (k tt c ≡ (ok b, c'))
ensure_ok true e k c c' b h = (refl, h)
ensure_ok false e k c c' b h = absurd (cc)

-- The transaction's view, which the copy of a file does not change.
pub record SameView (a b : Ctx) : Type 0 where
  pub service : b.service ≡ a.service
  pub bindings : (key : Text) → sees b key ≡ sees a key
  pub files : (id : FileId) → holds b id ≡ holds a id

-- A file that a locator led to, in the transaction's own copy.
pub record Located (input : ResolveInput) (allow : Bool) (f : MemoryFile) (a b : Ctx) : Type 0 where
  pub resolved : resolve a.service a.state input allow ≡ ok f
  pub view : SameView a b
  pub found : holds a f.meta.file_id ≡ some f
  pub live : allow ≡ false → f.meta.delete_state ≡ active

copied-SameView :
    (c : Ctx) (id : FileId) (f : MemoryFile)
    → holds c id ≡ some f
    → SameView c (record c { state = put_file id f c.state })
unfolding resolve_key
copied-SameView c id f h = record {
  service = refl;
  bindings = λ key. refl;
  files = λ j. sym (copied c f id j h);
}

mutable_view :
    (c : Ctx) (id : FileId) (f g : MemoryFile)
    → holds c id ≡ some f
    → (mutable_file id c).0 ≡ ok g
    → (f ≡ g) × SameView c (mutable_file id c).1
mutable_view c id f g h e = elim (mutable_file-held c id f h) [
  | inl p ↦ (
    cc (ap (λ (x : Result MemoryFile × Ctx). x.0) p, e),
    rw p (record { service = refl; bindings = λ key. refl; files = λ j. refl }),
  )
  | inr p ↦ (cc (ap (λ (x : Result MemoryFile × Ctx). x.0) p, e), rw p (copied-SameView c id f h))
]

module _ {sha : Text → Text} (c : Ctx) (input : ResolveInput) (allow : Bool)
    (sound : IsSound sha c) where
  Located-of :
      (r : Result MemoryFile) (g : MemoryFile)
      → resolve c.service c.state input allow ≡ r
      → (◌>>=◌ (λ d. (r, d)) (λ f. mutable_file f.meta.file_id) c).0 ≡ ok g
      → Located input allow g c (◌>>=◌ (λ d. (r, d)) (λ f. mutable_file f.meta.file_id) c).1
  Located-of (err x) g p e = absurd (cc)
  Located-of (ok f) g p e =
      let (id, i) = resolve-IsFound c.service c.state input allow f p in
      let found : holds c f.meta.file_id ≡ some f =
        ap (holds c) (sound.coherent.owned id f i.found).0 ∙ i.found in
      let (same, view) = mutable_view c f.meta.file_id f g found e in
      subst (λ x. Located input allow x c (mutable_file f.meta.file_id c).1) same
        (record { resolved = p; view = view; found = found; live = i.live })

  pub locate_ok :
      {B : Type 0} (k : MemoryFile → Exec B) (c' : Ctx) (b : B)
      → (locate_mutable (λ s t. resolve s t input allow) >>= k) c ≡ (ok b, c')
      → (f : MemoryFile) × (d : Ctx) × Located input allow f c d × (k f d ≡ (ok b, c'))
  locate_ok k c' b h =
      let (g, e, rest) = bind_ok (locate_mutable (λ s t. resolve s t input allow)) k c c' b h in
      (
        g,
        (locate_mutable (λ s t. resolve s t input allow) c).1,
        Located-of (resolve c.service c.state input allow) g refl e,
        rest,
      )

-- The transaction after an event: the file is stored, with the event's identifier.
pub record IsLogged (f : MemoryFile) (now : ℕ) (ref : FileRef) (a b : Ctx) : Type 0 where
  pub id : Text
  pub files :
      (j : FileId) → holds b j ≡ put_at f.meta.file_id (some (with_event_id f id)) (holds a) j
  pub bindings : (key : Text) → sees b key ≡ sees a key
  pub ref_lem : ref ≡ make_file_ref f.meta now
  pub id_lem : id ≡ id_text (bytes "evt") ((a.service.seq + 1) % u64_mod)
  pub seq : b.service.seq ≡ (a.service.seq + 1) % u64_mod

pub log_event_ok :
    (f : MemoryFile) (type : EventType) (chunk_id : ChunkId) (now : ℕ)
    (payload : Map Text PayloadValue) (c c' : Ctx) (ref : FileRef)
    → log_event f type chunk_id now payload c ≡ (ok ref, c')
    → IsLogged f now ref c c'
unfolding log_event fresh_id resolve_key lookup_file
log_event_ok f type chunk_id now payload c c' ref h =
    let end : c' ≡ (log_event f type chunk_id now payload c).1 =
      sym (ap (λ (x : Result FileRef × Ctx). x.1) h) in
    let new : Text = id_text (bytes "evt") ((c.service.seq + 1) % u64_mod) in
    record {
      id = new;
      files = λ j.
          ap (λ (d : Ctx). holds d j) end
          ∙ lookup_file-put_file c.service c.state f.meta.file_id (with_event_id f new) j;
      bindings = λ key. ap (λ (d : Ctx). sees d key) end;
      ref_lem = cc (ap (λ (x : Result FileRef × Ctx). x.0) h);
      id_lem = refl;
      seq = ap (λ (d : Ctx). d.service.seq) end;
    }
