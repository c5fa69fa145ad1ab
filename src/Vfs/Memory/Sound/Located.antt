-- ===== src/Vfs/Memory/Sound/Located.antt =====
-- The files that an operation works on: resolved, and copied into the transaction.
use satis.Base.{
  Text, text_eq, text_eq_iff, lookup, word_eq, Bool, false, Bool-cases, inl, inr, ◌⊎◌, Option, none,
  some, ◌≡◌, refl, sym, ap, ◌∙◌, arith,
}
use satis.Vfs.Types.{FileId, Result, ok, err, active, ResolveInput}
use satis.Vfs.Memory.{MemoryFile, MemoryService, resolve_key, lookup_file, resolve}
use satis.Vfs.Memory.Exec.{Ctx, ◌>>=◌, put_file, mutable_file}
use satis.Vfs.Memory.Coherence.{Coherent-ext}
use satis.Vfs.Memory.Views.{lookup_file-put_file}
use satis.Vfs.Memory.Locate.{IsFound, resolve-IsFound}
use satis.Vfs.Memory.Edit.{locate_mutable}
use satis.Vfs.Memory.Sound.{holds, AreFiles-ext, IsSound, Post}

-- A located file is the transaction's own, under its own identifier.
pub record IsLocated (s : MemoryService) (allow : Bool) (f : MemoryFile) (c : Ctx) : Type 0 where
  pub same : c.service ≡ s
  pub found : holds c f.meta.file_id ≡ some f
  pub live : allow ≡ false → f.meta.delete_state ≡ active

-- mutableFile of a held file returns it, and at most adds the transaction's own copy.
pub mutable_file-held :
    (c : Ctx) (id : FileId) (f : MemoryFile)
    → holds c id ≡ some f
    → (mutable_file id c ≡ (ok f, c))
      ⊎ (mutable_file id c ≡ (ok f, record c { state = put_file id f c.state }))
unfolding mutable_file lookup_file
mutable_file-held c id f h = mine (lookup id c.state.files) refl
  where
    mine :
        (o : Option MemoryFile)
        → lookup id c.state.files ≡ o
        → (mutable_file id c ≡ (ok f, c))
          ⊎ (mutable_file id c ≡ (ok f, record c { state = put_file id f c.state }))
    mine none e = inr (ground arith)
    mine (some g) e = inl (ground arith)

pub copied :
    (c : Ctx) (f : MemoryFile) (id j : FileId)
    → holds c id ≡ some f
    → holds c j ≡ lookup_file c.service (put_file id f c.state) j
copied c f id j h =
    rw (lookup_file-put_file c.service c.state id f j) (elim (Bool-cases (text_eq id j)) [
      | inl e ↦ rw e (rw (← (text_eq_iff id j).0 e) h)
      | inr e ↦ rw e
    ])

module _ {sha : Text → Text} where
  copied-IsSound :
      (c : Ctx) (f : MemoryFile) (id : FileId)
      → holds c id ≡ some f
      → IsSound sha c
      → IsSound sha (record c { state = put_file id f c.state })
  unfolding resolve_key
  copied-IsSound c f id e h = record {
    coherent = Coherent-ext (λ key. refl) (λ j. copied c f id j e) h.coherent;
    files = AreFiles-ext (λ j. copied c f id j e) h.files;
    overlay = record { flags = h.overlay.flags; disjoint = h.overlay.disjoint };
  }

  mutable_file-Post :
      (c : Ctx) (allow : Bool) (f : MemoryFile)
      → IsSound sha c
      → IsFound c.service c.state allow f.meta.file_id f
      → Post (IsSound sha) (IsLocated c.service allow) (mutable_file f.meta.file_id c)
  mutable_file-Post c allow f h i = elim (mutable_file-held c f.meta.file_id f i.found) [
    | inl e ↦ rw e (h, record { same = refl; found = i.found; live = i.live })
    | inr e ↦ rw e (
      copied-IsSound c f f.meta.file_id i.found h,
      record {
        same = refl;
        found = sym (copied c f f.meta.file_id f.meta.file_id i.found) ∙ i.found;
        live = i.live;
      },
    )
  ]

  located :
      (c : Ctx) (input : ResolveInput) (allow : Bool) (r : Result MemoryFile)
      → IsSound sha c
      → resolve c.service c.state input allow ≡ r
      → Post
          (IsSound sha)
          (IsLocated c.service allow)
          (◌>>=◌ (λ d. (r, d)) (λ f. mutable_file f.meta.file_id) c)
  located c input allow (err x) h e = h
  located c input allow (ok f) h e =
      let (id, i) = resolve-IsFound c.service c.state input allow f e in
      let same : f.meta.file_id ≡ id = (h.coherent.owned id f i.found).0 in
      mutable_file-Post c allow f h (record { found = ap (holds c) same ∙ i.found; live = i.live })

  pub locate_mutable-Post :
      (c : Ctx) (input : ResolveInput) (allow : Bool)
      → IsSound sha c
      → Post
          (IsSound sha)
          (IsLocated c.service allow)
          (locate_mutable (λ s t. resolve s t input allow) c)
  locate_mutable-Post c input allow h =
      located c input allow (resolve c.service c.state input allow) h refl
