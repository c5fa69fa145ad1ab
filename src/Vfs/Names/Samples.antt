-- ===== src/Vfs/Names/Samples.antt =====
-- Paths and keys on small inputs.
use satis.Base.All.{All}
use satis.Vfs.Types.{FileId}
use satis.Base.{
  Map, Text, bytes, text_eq, text_eq_iff, List, [], ◌∷◌, ◌≡◌, ◌≢◌, refl, true, inl, inr, some,
}
use satis.Base.All.{All}
use satis.Vfs.Types.{kind_text, kind_binary}
use satis.Vfs.Names.{
  clean, slash, join, normalize_virtual_path, path_kind_key, split_path_kind_key, trim_space,
}
use satis.Vfs.Names.Clean.{
  IsPlain, free, clean-clean, normalize_virtual_path_canonical, normalize_virtual_path_stable,
}
use satis.Vfs.Names.Keys.{path_kind_key_injective, split_path_kind_key-path_kind_key}
use satis.Vfs.Memory.{lookup_path_binding, committed_bindings_for_path}
use satis.Vfs.Memory.Listing.{Child, direct_child}
use satis.Vfs.Memory.Listing.Parts.{IsChild, direct_child-IsChild}
use satis.Vfs.Memory.Unstable.{IsElsewhere, unstable_path_lost}

abbrev path : Text
path = bytes "/a/./b//../c"

clean-clean_example : clean (clean path) ≡ clean path
clean-clean_example = clean-clean path

normalize_virtual_path_canonical_example :
    (ws : List Text) × (normalize_virtual_path path ≡ slash ∷ join slash ws) × All IsPlain ws
normalize_virtual_path_canonical_example = normalize_virtual_path_canonical path

normalize_virtual_path_stable_example :
    normalize_virtual_path (normalize_virtual_path path) ≡ normalize_virtual_path path
unfolding normalize_virtual_path trim_space
normalize_virtual_path_stable_example = normalize_virtual_path_stable path refl

path_kind_key_injective_example :
    (normalize_virtual_path path ≡ normalize_virtual_path (bytes "a/c")) × (kind_text ≡ kind_text)
unfolding path_kind_key normalize_virtual_path free
path_kind_key_injective_example =
    path_kind_key_injective path (bytes "a/c") kind_text kind_text refl refl refl

split_path_kind_key-path_kind_key_example :
    split_path_kind_key (path_kind_key path kind_binary)
    ≡ some (normalize_virtual_path path, kind_binary)
split_path_kind_key-path_kind_key_example =
    split_path_kind_key-path_kind_key path kind_binary (inr (inl refl))

changed :
    normalize_virtual_path (normalize_virtual_path (bytes "/a /"))
    ≢ normalize_virtual_path (bytes "/a /")
unfolding normalize_virtual_path text_eq
changed e = cc (
    (text_eq_iff (normalize_virtual_path (normalize_virtual_path (bytes "/a /")))
        (normalize_virtual_path (bytes "/a /"))).1
      e)

abbrev others : Map Text FileId
others = (path_kind_key (bytes "/b") kind_text, bytes "file_2") ∷ []

others-IsElsewhere :
    All (IsElsewhere (normalize_virtual_path (normalize_virtual_path (bytes "/a /")))) others
unfolding normalize_virtual_path free text_eq
others-IsElsewhere = (
  (
    bytes "/b",
    kind_text,
    refl,
    refl,
    λ e. cc ((text_eq_iff (normalize_virtual_path (bytes "/b")) (bytes "/a")).1 e),
  ),
  tt,
)

unstable_path_lost_example :
    (lookup_path_binding
        ((path_kind_key (bytes "/a /") kind_text, bytes "file_1") ∷ others)
        (bytes "/a /")
        kind_text
      ≡ some (bytes "file_1"))
    × (committed_bindings_for_path
          ((path_kind_key (bytes "/a /") kind_text, bytes "file_1") ∷ others)
          (bytes "/a /")
        ≡ [])
unfolding free
unstable_path_lost_example =
    unstable_path_lost (bytes "/a /") kind_text (bytes "file_1") others refl changed
      others-IsElsewhere

abbrev child : Child
child = record { name = bytes "b"; full_path = bytes "/a/b"; descends = true }

direct_child-IsChild_example : IsChild (bytes "/a") (bytes "/a/b/c") child
unfolding direct_child
direct_child-IsChild_example = direct_child-IsChild (bytes "/a") (bytes "/a/b/c") child refl
