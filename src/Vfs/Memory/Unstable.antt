-- ===== src/Vfs/Memory/Unstable.antt =====
-- Paths that normalise to another path when they are normalised twice.
use satis.Base.{
  Text, text_eq_iff, Map, lookup, word_eq, none, some, List, [], ◌∷◌, ◌≡◌, ◌≢◌, refl, sym, ◌∙◌,
  arith,
}
use satis.Base.All.{All}
use satis.Vfs.Types.{FileId, FileKind}
use satis.Vfs.Names.{separator, path_kind_key, normalize_virtual_path, indexed_file_kinds}
use satis.Vfs.Names.Clean.{IsFree, free}
use satis.Vfs.Names.Keys.{path_kind_key_injective}
use satis.Vfs.Memory.{lookup_path_binding, bindings_among, committed_bindings_for_path}

-- A binding of a path that normalises to something else than a given path.
abbrev pub IsElsewhere : Text → Text × FileId → Type 0
IsElsewhere path (key, id) =
    (q : Text) × (j : FileKind) × IsFree separator j
    × (key ≡ path_kind_key q j)
    × (normalize_virtual_path q ≢ path)

elsewhere :
    (p : Text) (j : FileKind) (index : Map Text FileId)
    → IsFree separator j
    → All (IsElsewhere (normalize_virtual_path p)) index
    → lookup_path_binding index p j ≡ none
unfolding lookup_path_binding lookup
elsewhere p j [] fj h = refl
elsewhere p j ((key, id) ∷ index) fj ((q, i, fi, e, apart), h) = ground (
  arith,
  elsewhere p j index fj h,
  text_eq_iff key (path_kind_key p j),
  λ (x : key ≡ path_kind_key p j). apart (path_kind_key_injective q p i j fi fj (sym e ∙ x)).0,
)

module _ (p : Text) (index : Map Text FileId)
    (h : All (IsElsewhere (normalize_virtual_path (normalize_virtual_path p))) index) where
  missed-All :
      (kinds : List FileKind)
      → All (IsFree separator) kinds
      → bindings_among (lookup_path_binding index (normalize_virtual_path p)) kinds ≡ []
  unfolding bindings_among
  missed-All [] f = refl
  missed-All (j ∷ js) f =
      rw (elsewhere (normalize_virtual_path p) j index f.0 h, bindings_among) (missed-All js f.1)

-- An index that binds a path for a kind, where normalising the path twice changes it, and whose other
-- bindings are not of the path that normalising twice gives: the lookup that is told the kind finds
-- the binding, and the lookup over all kinds finds none.
pub unstable_path_lost :
    (p : Text) (k : FileKind) (id : FileId) (rest : Map Text FileId)
    → IsFree separator k
    → normalize_virtual_path (normalize_virtual_path p) ≢ normalize_virtual_path p
    → All (IsElsewhere (normalize_virtual_path (normalize_virtual_path p))) rest
    → (lookup_path_binding ((path_kind_key p k, id) ∷ rest) p k ≡ some id)
      × (committed_bindings_for_path ((path_kind_key p k, id) ∷ rest) p ≡ [])
unfolding lookup_path_binding lookup committed_bindings_for_path free
unstable_path_lost p k id rest fk unstable h = (
  ground (arith, text_eq_iff (path_kind_key p k) (path_kind_key p k)),
  missed-All p ((path_kind_key p k, id) ∷ rest) ((p, k, fk, refl, λ e. unstable (sym e)), h)
      indexed_file_kinds (refl, (refl, (refl, (refl, (refl, tt))))),
)
