-- ===== src/Vfs/Names.antt =====
-- normalizeVirtualPath (vfs/disk.go) and the keys of the path index (vfs/path_index.go), with
-- strings.TrimSpace and filepath.Clean on a Unix system.
pub mod Trim
pub mod Clean
pub mod Keys
mod Samples
use satis.Base.{
  ℕ, zero, suc, ◌-◌, Text, bytes, text_eq, length, take, drop, Bool, true, false, ◌&&◌, ◌||◌, ◌==◌,
  leb, ltb, if◌then◌else◌, Option, none, some, List, [], ◌∷◌, ◌++◌, reverse,
}
use satis.Vfs.Types.{
  FileKind, kind_text, kind_binary, kind_directory, kind_generated, kind_ephemeral,
}

-- The spaces of one, two and three bytes that unicode.IsSpace knows.
unfoldable pub is_space : ℕ → Bool
is_space c = (leb 9 c && leb c 13) || c == 32

unfoldable pub is_space₂ : ℕ → ℕ → Bool
is_space₂ c d = c == 0xC2 && (d == 0x85 || d == 0xA0)

unfoldable pub is_space₃ : ℕ → ℕ → ℕ → Bool
is_space₃ c d e =
    (c == 0xE1 && d == 0x9A && e == 0x80)
    || (c == 0xE2 && d == 0x80 && (leb 0x80 e && leb e 0x8A || e == 0xA8 || e == 0xA9 || e == 0xAF))
    || (c == 0xE2 && d == 0x81 && e == 0x9F)
    || (c == 0xE3 && d == 0x80 && e == 0x80)

-- The length of the space at the front of a text, and at the back of a reversed one; 0 for none.
unfoldable pub space_front : Text → ℕ
unfolding is_space is_space₂ is_space₃
space_front [] = 0
space_front (c ∷ []) = if is_space c then 1 else 0
space_front (c ∷ d ∷ []) = if is_space c then 1 else if is_space₂ c d then 2 else 0
space_front (c ∷ d ∷ e ∷ _) =
    if is_space c then 1 else if is_space₂ c d then 2 else if is_space₃ c d e then 3 else 0

unfoldable pub space_back : Text → ℕ
unfolding is_space is_space₂ is_space₃
space_back [] = 0
space_back (c ∷ []) = if is_space c then 1 else 0
space_back (c ∷ d ∷ []) = if is_space c then 1 else if is_space₂ d c then 2 else 0
space_back (c ∷ d ∷ e ∷ _) =
    if is_space c then 1 else if is_space₂ d c then 2 else if is_space₃ e d c then 3 else 0

-- Drops spaces of the given measure. The count is of the bytes that are left of a space.
unfoldable pub trim_from : (Text → ℕ) → ℕ → Text → Text
trim_from space k [] = []
trim_from space (suc k) (c ∷ cs) = trim_from space k cs
trim_from space zero (c ∷ cs) =
    let n = space (c ∷ cs) in
    let rest = trim_from space (n - 1) cs in if n == 0 then c ∷ cs else rest

-- strings.TrimSpace
unfoldable pub trim_space : Text → Text
unfolding trim_from space_front space_back
trim_space s = reverse (trim_from space_back 0 (reverse (trim_from space_front 0 s)))

abbrev pub onto_first : ℕ → List Text → List Text
onto_first c [] = (c ∷ []) ∷ []
onto_first c (w ∷ ws) = (c ∷ w) ∷ ws

-- strings.Split by one byte
unfoldable pub split : ℕ → Text → List Text
split sep [] = [] ∷ []
split sep (c ∷ cs) = let rest = split sep cs in if c == sep then [] ∷ rest else onto_first c rest

-- strings.Join by one byte
unfoldable pub join : ℕ → List Text → Text
join sep [] = []
join sep (w ∷ []) = w
join sep (w ∷ v ∷ vs) = w ++ sep ∷ join sep (v ∷ vs)

abbrev pub slash : ℕ
slash = b'/'

abbrev pub pop : List Text → List Text
pop [] = []
pop (w ∷ ws) = ws

-- The elements of a rooted path, `.` and `..` resolved, the last one first.
unfoldable pub resolve_dots : List Text → List Text → List Text
resolve_dots done [] = done
resolve_dots done (w ∷ ws) =
    resolve_dots
      (if text_eq w [] || text_eq w (bytes ".")
        then done
        else if text_eq w (bytes "..")
        then pop done
        else w ∷ done)
      ws

-- filepath.Clean of a rooted path
unfoldable pub clean : Text → Text
unfolding split join resolve_dots
clean path = slash ∷ join slash (reverse (resolve_dots [] (split slash path)))

unfoldable pub has_slash : Text → Bool
has_slash [] = false
has_slash (c ∷ cs) = c == slash

unfoldable pub rooted : Text → Text
unfolding has_slash
rooted path = if has_slash path then path else slash ∷ path

unfoldable pub cleaned_path : Text → Text
unfolding clean rooted
cleaned_path path =
    let cleaned = clean (rooted path) in
    if text_eq cleaned (bytes ".") then slash ∷ [] else rooted cleaned

unfoldable pub normalize_virtual_path : Text → Text
unfolding trim_space cleaned_path text_eq
normalize_virtual_path path =
    if text_eq (trim_space path) [] then slash ∷ [] else cleaned_path (trim_space path)

abbrev pub separator : ℕ
separator = 0x1F

abbrev pub indexed_file_kinds : List FileKind
indexed_file_kinds = kind_text ∷ kind_binary ∷ kind_directory ∷ kind_generated ∷ kind_ephemeral ∷ []

unfoldable pub path_kind_key : Text → FileKind → Text
path_kind_key virtual_path kind = normalize_virtual_path virtual_path ++ separator ∷ kind

abbrev pub has_suffix : Text → Text → Bool
has_suffix key suffix =
    ltb (length suffix) (length key) && text_eq (drop (length key - length suffix) key) suffix

unfoldable pub split_by_kinds : List FileKind → Text → Option (Text × FileKind)
split_by_kinds [] key = none
split_by_kinds (kind ∷ kinds) key =
    let rest = split_by_kinds kinds key in
    if has_suffix key (separator ∷ kind)
    then some (take (length key - length (separator ∷ kind)) key, kind)
    else rest

unfoldable pub split_path_kind_key : Text → Option (Text × FileKind)
unfolding split_by_kinds
split_path_kind_key key = split_by_kinds indexed_file_kinds key
