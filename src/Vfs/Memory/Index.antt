-- ===== src/Vfs/Memory/Index.antt =====
-- hasAnyBinding and countNonDirectoryBindings of a path index (vfs/path_index.go).
use satis.Base.{ℕ, suc, Text, text_eq, Map, Bool, true, false, if◌then◌else◌, List, [], ◌∷◌}
use satis.Vfs.Types.{FileId, FileKind, kind_directory}
use satis.Vfs.Memory.{committed_bindings_for_path}

unfoldable pub index_has_any_binding : Map Text FileId → Text → Bool
unfolding committed_bindings_for_path
index_has_any_binding index path = elim (committed_bindings_for_path index path) [
  | [] ↦ false
  | _ ∷ _ ↦ true
]

abbrev pub count_others : List (FileKind × FileId) → ℕ
count_others [] = 0
count_others ((kind, id) ∷ rest) =
    if text_eq kind kind_directory then count_others rest else suc (count_others rest)

unfoldable pub count_non_directory_bindings : Map Text FileId → Text → ℕ
unfolding committed_bindings_for_path
count_non_directory_bindings index path = count_others (committed_bindings_for_path index path)
