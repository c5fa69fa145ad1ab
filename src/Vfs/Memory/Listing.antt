-- ===== src/Vfs/Memory/Listing.antt =====
-- ListDir and the helpers that it calls (vfs/memory.go). A map is traversed in the order of its
-- list; the result is sorted by name and kind, and of the bindings of one key the last one stays.
pub mod Parts
pub mod Entries
use satis.Base.{
  ℕ, Text, bytes, text_eq, text_ltb, sort_by, Map, lookup, insert, word_eq, drop, length, Bool,
  true, false, not, ◌&&◌, ◌||◌, ◌==◌, if◌then◌else◌, Option, none, some, List, [], ◌∷◌, ◌++◌, map,
}
use satis.Vfs.Types.{
  FileId, FileKind, DirEntry, Txn, Result, ok, err, kind_directory, invalid_kind, file_not_found,
}
use satis.Vfs.Names.{slash, path_kind_key, split_path_kind_key, normalize_virtual_path}
use satis.Vfs.Memory.{
  MemoryFile, MemoryService, TxnState, flag, lookup_file, resolve_path, bindings_for_path,
  is_deleted, require_txn,
}
use satis.Vfs.Memory.Content.{starts_with}

pub record Child : Type 0 where
  pub name : Text
  pub full_path : Text
  pub descends : Bool

-- strings.SplitN(s, "/", 2): what is before the first slash, and whether there is one.
unfoldable pub first_part : Text → Text × Bool
first_part [] = ([], false)
first_part (c ∷ cs) =
    let rest = first_part cs in if c == slash then ([], true) else (c ∷ rest.0, rest.1)

abbrev pub child_at : Text → Text × Bool → Option Child
child_at prefix parts =
    if text_eq parts.0 []
    then none
    else some (record { name = parts.0; full_path = prefix ++ parts.0; descends = parts.1 })

-- The directory with a slash behind it, which the path has to start with.
abbrev pub dir_prefix : Text → Text
dir_prefix dir = if text_eq dir (slash ∷ []) then slash ∷ [] else dir ++ slash ∷ []

unfoldable pub direct_child : Text → Text → Option Child
unfolding first_part starts_with text_eq
direct_child dir path =
    if text_eq path dir || not (starts_with (dir_prefix dir) path)
    then none
    else child_at (dir_prefix dir) (first_part (drop (length (dir_prefix dir)) path))

pub record Visible : Type 0 where
  pub path : Text
  pub kind : FileKind
  pub file_id : FileId

abbrev onto_visible : Option (Text × FileKind) → FileId → List Visible → List Visible
onto_visible none id rest = rest
onto_visible (some (path, kind)) id rest = record { path = path; kind = kind; file_id = id } ∷ rest

-- The bindings of an index whose keys pass a test.
unfoldable pub bindings_where : (Text → Bool) → Map Text FileId → List Visible
unfolding split_path_kind_key
bindings_where test [] = []
bindings_where test ((key, id) ∷ index) =
    let rest = bindings_where test index in
    if test key then onto_visible (split_path_kind_key key) id rest else rest

abbrev is_some {ℓ} : {A : Type ℓ} → Option A → Bool
is_some none = false
is_some (some a) = true

-- The calls that forEachVisiblePathBinding makes: first for the transaction's own index, then for the
-- committed one without the keys that were seen.
unfoldable pub visible_bindings : MemoryService → TxnState → List Visible
unfolding bindings_where lookup
visible_bindings s t =
    bindings_where (λ key. not (flag (lookup key t.deleted_paths))) t.path_index
    ++ bindings_where
        (λ key.
          not (flag (lookup key t.deleted_paths))
          && not (is_some (lookup key t.path_index) && is_some (split_path_kind_key key)))
        s.path_index

unfoldable pub has_child_among : Text → List Visible → Bool
unfolding direct_child
has_child_among dir [] = false
has_child_among dir (b ∷ bs) = is_some (direct_child dir b.path) || has_child_among dir bs

abbrev has_visible_child : MemoryService → TxnState → Text → Bool
has_visible_child s t dir = has_child_among dir (visible_bindings s t)

abbrev has_any_binding : MemoryService → TxnState → Text → Bool
has_any_binding s t path = elim (bindings_for_path s t path) [ [] ↦ false | _ ∷ _ ↦ true ]

abbrev is_shown : Option MemoryFile → Bool
is_shown none = false
is_shown (some file) = not (is_deleted file.meta.delete_state)

abbrev put_entry : Child → FileKind → Map Text DirEntry → Map Text DirEntry
put_entry child kind entries =
    insert (path_kind_key child.full_path kind)
      (record { name = child.name; virtual_path = child.full_path; kind = kind }) entries

-- One call of the function that listDir passes.
abbrev add_entry : MemoryService → TxnState → Text → Visible → Map Text DirEntry → Map Text DirEntry
add_entry s t dir b entries = elim (direct_child dir b.path) [
  | none ↦ entries
  | some child ↦
      if child.descends
      then put_entry child kind_directory entries
      else if is_shown (lookup_file s t b.file_id)
      then put_entry child b.kind entries
      else entries
]

unfoldable pub entries_of :
    MemoryService → TxnState → Text → List Visible → Map Text DirEntry → Map Text DirEntry
unfolding direct_child insert path_kind_key lookup_file
entries_of s t dir [] entries = entries
entries_of s t dir (b ∷ bs) entries = entries_of s t dir bs (add_entry s t dir b entries)

abbrev entry_before : DirEntry → DirEntry → Bool
entry_before a b = if text_eq a.name b.name then text_ltb a.kind b.kind else text_ltb a.name b.name

abbrev entry_of : Text × DirEntry → DirEntry
entry_of e = e.1

abbrev sorted_entries : MemoryService → TxnState → Text → List DirEntry
sorted_entries s t dir =
    sort_by entry_before (map entry_of (entries_of s t dir (visible_bindings s t) []))

-- Once the path is normalised and is not the root.
abbrev list_below : MemoryService → TxnState → Text → Result (List DirEntry)
list_below s t dir = elim (resolve_path s t dir kind_directory) [
  | some id ↦
      if is_shown (lookup_file s t id) then ok (sorted_entries s t dir) else err file_not_found
  | none ↦
      if has_visible_child s t dir
      then ok (sorted_entries s t dir)
      else if has_any_binding s t dir
      then err invalid_kind
      else err file_not_found
]

unfoldable pub list_entries : MemoryService → TxnState → Text → Result (List DirEntry)
unfolding entries_of visible_bindings has_child_among normalize_virtual_path sort_by
list_entries s t path =
    let dir = normalize_virtual_path path in
    if text_eq dir (slash ∷ []) then ok (sorted_entries s t dir) else list_below s t dir

unfoldable pub list_dir : Txn → Text → MemoryService → Result (List DirEntry)
unfolding list_entries
list_dir txn path s = elim (require_txn txn s) [ ok t ↦ list_entries s t path | err e ↦ err e ]
