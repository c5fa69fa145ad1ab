-- ===== src/Vfs/Memory/Sound.antt =====
-- The invariant of a transaction, and rules for the operations that keep it.
pub mod Located
pub mod Contents
pub mod Moves
pub mod Creates
use native.Mathlib.Nat.{mod-eq_of_lt}
use satis.Base.{
  ℕ, ◌+◌, ◌<◌, ◌≤◌, ◌%◌, Text, bytes, text_eq, text_eq_iff, text_eq_refl, Map, lookup, insert,
  word_eq, lookup-insert, or_else, Bool, true, false, if◌then◌else◌, Bool-cases, inl, inr, Option,
  none, some, [], ◌∷◌, ◌≡◌, refl, sym, ap, subst, ◌∙◌, arith, decimal,
}
use satis.Vfs.Types.{
  FileId, Result, ok, err, active, Txn, EventType, ChunkId, PayloadValue, VfsError,
}
use satis.Vfs.Memory.{
  MemoryFile, MemoryService, TxnState, resolve_key, lookup_file, id_text, u64_mod, resolve,
  visible_file,
}
use satis.Vfs.Memory.Exec.{Exec, Ctx, ◌>>=◌, ensure, lift, put_file, mutable_file}
use satis.Vfs.Memory.Coherence.{Coherent, Coherent-ext, Coherent-touch, Bindings, put_at, key_of}
use satis.Vfs.Memory.Views.{IsOverlay, lookup_file-put_file}
use satis.Vfs.Memory.Files.{IsFile}
use satis.Vfs.Memory.Edit.{log_event, locate_mutable, with_event_id}

abbrev pub sees : Ctx → Text → Option FileId
sees c = resolve_key c.service c.state

abbrev pub holds : Ctx → FileId → Option MemoryFile
holds c = lookup_file c.service c.state

-- An identifier that the service has given to a file.
abbrev pub Allocated : ℕ → FileId → Type 0
Allocated seq id = (n : ℕ) × (id ≡ id_text (bytes "file") n) × (n ≤ seq)

-- The files of a view are well formed and have identifiers of the service.
pub record AreFiles (sha : Text → Text) (seq : ℕ) (file : FileId → Option MemoryFile) : Type 0 where
  pub content : (id : FileId) (f : MemoryFile) → file id ≡ some f → IsFile sha f
  pub allocated : (id : FileId) (f : MemoryFile) → file id ≡ some f → Allocated seq id

pub record IsSound (sha : Text → Text) (c : Ctx) : Type 0 where
  pub coherent : Coherent (sees c) (holds c)
  pub files : AreFiles sha c.service.seq (holds c)
  pub overlay : IsOverlay c.state

module _ {sha : Text → Text} where
  pub AreFiles-put :
      (seq : ℕ) (file : FileId → Option MemoryFile) (id : FileId) (f : MemoryFile)
      → AreFiles sha seq file
      → IsFile sha f
      → Allocated seq id
      → AreFiles sha seq (put_at id (some f) file)
  AreFiles-put seq file id f h fine own = record {
    content = λ j g e. elim (Bool-cases (text_eq id j)) [
      | inl p ↦ subst (IsFile sha) (ground arith) fine
      | inr p ↦ h.content j g (ground arith)
    ];
    allocated = λ j g e. elim (Bool-cases (text_eq id j)) [
      | inl p ↦ subst (Allocated seq) ((text_eq_iff id j).0 p) own
      | inr p ↦ h.allocated j g (ground arith)
    ];
  }

  pub AreFiles-ext :
      {seq : ℕ} {file file' : FileId → Option MemoryFile}
      → ((id : FileId) → file id ≡ file' id)
      → AreFiles sha seq file
      → AreFiles sha seq file'
  AreFiles-ext p h = record {
    content = λ j g e. h.content j g (p j ∙ e);
    allocated = λ j g e. h.allocated j g (p j ∙ e);
  }

  pub AreFiles-grow :
      (seq : ℕ) (file file' : FileId → Option MemoryFile)
      → ((id : FileId) → file id ≡ file' id)
      → AreFiles sha seq file
      → AreFiles sha (seq + 1) file'
  AreFiles-grow seq file file' p h = record {
    content = λ j g e. h.content j g (p j ∙ e);
    allocated = λ j g e. let (n, q, le) = h.allocated j g (p j ∙ e) in (n, q, omega arith);
  }

-- What holds before the event of an operation is logged: the file's new state is not yet stored.
pub record IsReady (sha : Text → Text) (file : MemoryFile) (c : Ctx) : Type 0 where
  pub coherent : Coherent (sees c) (put_at file.meta.file_id (some file) (holds c))
  pub files : AreFiles sha c.service.seq (put_at file.meta.file_id (some file) (holds c))
  pub overlay : IsOverlay c.state
  pub room : c.service.seq + 1 < u64_mod

pub put_at_self {ℓ} : {A : Type ℓ} (k : Text) (v : A) (f : Text → A) → put_at k v f k ≡ v
put_at_self k v f = rw (text_eq_refl k)

pub put_at-put_at {ℓ} :
    {A : Type ℓ} (k : Text) (v w : A) (f : Text → A) (j : Text)
    → put_at k v (put_at k w f) j ≡ put_at k v f j
put_at-put_at k v w f j = elim (Bool-cases (text_eq k j)) [ inl e ↦ rw e | inr e ↦ rw e ]

module _ (c : Ctx) (file : MemoryFile) (id : Text) where
  renewed :
      (j : FileId)
      → put_at file.meta.file_id
          (some (with_event_id file id))
          (put_at file.meta.file_id (some file) (holds c))
          j
        ≡ lookup_file c.service (put_file file.meta.file_id (with_event_id file id) c.state) j
  renewed j =
      let new = with_event_id file id in
      put_at-put_at file.meta.file_id (some new) (some file) (holds c) j
      ∙ sym (lookup_file-put_file c.service c.state file.meta.file_id new j)

  renewed-IsFile : {sha : Text → Text} → IsFile sha file → IsFile sha (with_event_id file id)
  renewed-IsFile h = record { current = h.current; recorded = h.recorded }

  renewed-Coherent :
      {sha : Text → Text}
      → IsReady sha file c
      → Coherent
          (sees c)
          (lookup_file c.service (put_file file.meta.file_id (with_event_id file id) c.state))
  renewed-Coherent r =
      Coherent-ext (λ key. refl) renewed
        (Coherent-touch r.coherent file.meta.file_id file (with_event_id file id)
          (put_at_self file.meta.file_id (some file) (holds c)) refl refl refl)

  renewed-AreFiles :
      {sha : Text → Text}
      → IsReady sha file c
      → AreFiles sha
          (c.service.seq + 1)
          (lookup_file c.service (put_file file.meta.file_id (with_event_id file id) c.state))
  renewed-AreFiles r =
      let self = put_at_self file.meta.file_id (some file) (holds c) in
      AreFiles-grow c.service.seq
        (put_at file.meta.file_id (some (with_event_id file id))
          (put_at file.meta.file_id (some file) (holds c)))
        (lookup_file c.service (put_file file.meta.file_id (with_event_id file id) c.state)) renewed
        (AreFiles-put c.service.seq (put_at file.meta.file_id (some file) (holds c))
          file.meta.file_id (with_event_id file id) r.files
          (renewed-IsFile (r.files.content file.meta.file_id file self))
          (r.files.allocated file.meta.file_id file self))

module _ {sha : Text → Text} (file : MemoryFile) (type : EventType) (chunk_id : ChunkId) (now : ℕ)
    (payload : Map Text PayloadValue) (c : Ctx) where
  pub log_event-IsSound :
      IsReady sha file c → IsSound sha (log_event file type chunk_id now payload c).1
  unfolding log_event resolve_key lookup_file
  log_event-IsSound r =
      let seq' : ℕ = (c.service.seq + 1) % u64_mod in
      let e : seq' ≡ c.service.seq + 1 = mod-eq_of_lt r.room in
      let id : Text = id_text (bytes "evt") seq' in
      record {
        coherent = renewed-Coherent c file id r;
        files =
            subst
              (λ n. AreFiles sha n (
                lookup_file c.service (put_file file.meta.file_id (with_event_id file id) c.state)))
              (sym e) (renewed-AreFiles c file id r);
        overlay = record { flags = r.overlay.flags; disjoint = r.overlay.disjoint };
      }

-- What an operation leaves: `P` in any case, and `Q` of a value that it returns.
abbrev Outcome : {A : Type 0} → (Ctx → Type 0) → (A → Ctx → Type 0) → Result A → Ctx → Type 0
Outcome P Q (ok a) c = P c × Q a c
Outcome P Q (err e) c = P c

abbrev pub Post : {A : Type 0} → (Ctx → Type 0) → (A → Ctx → Type 0) → Result A × Ctx → Type 0
Post P Q r = Outcome P Q r.0 r.1

module _ {A B : Type 0} (P : Ctx → Type 0) (Q : A → Ctx → Type 0) (R : B → Ctx → Type 0) where
  bind-Outcome :
      (f : A → Exec B) (r : Result A) (c : Ctx)
      → Outcome P Q r c
      → ((a : A) (c' : Ctx) → P c' → Q a c' → Post P R (f a c'))
      → Post P R (◌>>=◌ (λ d. (r, c)) f c)
  bind-Outcome f (ok a) c h k = k a c h.0 h.1
  bind-Outcome f (err e) c h k = h

  pub bind-Post :
      (m : Exec A) (f : A → Exec B) (c : Ctx)
      → Post P Q (m c)
      → ((a : A) (c' : Ctx) → P c' → Q a c' → Post P R (f a c'))
      → Post P R ((m >>= f) c)
  bind-Post m f c h k = bind-Outcome f (m c).0 (m c).1 h k

pub ensure-Post :
    {B : Type 0} (P : Ctx → Type 0) (R : B → Ctx → Type 0) (test : Bool) (e : VfsError)
    (k : Unit {0} → Exec B) (c : Ctx)
    → P c
    → (test ≡ true → Post P R (k tt c))
    → Post P R ((ensure test e >>= k) c)
ensure-Post P R true e k c h then_k = then_k refl
ensure-Post P R false e k c h then_k = h

-- A value computed beside the state.
pub lift-Post :
    {A : Type 0} (P : Ctx → Type 0) (r : Result A) (c : Ctx)
    → P c
    → Post P (λ a d. (r ≡ ok a) × (d ≡ c)) (lift r c)
lift-Post P (ok a) c h = (h, (refl, refl))
lift-Post P (err e) c h = h

abbrev pub Any : {A : Type 0} → A → Ctx → Type 0
Any a c = Unit

pub state_of_Post :
    {A : Type 0} (P : Ctx → Type 0) (Q : A → Ctx → Type 0) (r : Result A × Ctx) → Post P Q r → P r.1
state_of_Post {A} P Q r h = of_outcome r.0 r.1 h
  where
    of_outcome : (r : Result A) (c : Ctx) → Outcome P Q r c → P c
    of_outcome (ok a) c h = h.0
    of_outcome (err e) c h = h

pub log_event-Post :
    {sha : Text → Text} (file : MemoryFile) (type : EventType) (chunk_id : ChunkId) (now : ℕ)
    (payload : Map Text PayloadValue) (c : Ctx)
    → IsReady sha file c
    → Post (IsSound sha) Any (log_event file type chunk_id now payload c)
log_event-Post file type chunk_id now payload c r =
    unfold log_event in (log_event-IsSound file type chunk_id now payload c r, tt)
