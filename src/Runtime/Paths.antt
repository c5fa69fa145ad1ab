-- ===== src/Runtime/Paths.antt =====
-- The paths that an instruction works on: resolvePath (satis/runtime.go).
use satis.Base.{
  Text, bytes, text_eq, Bool, true, false, if◌then◌else◌, List, [], ◌∷◌, ◌++◌, ◌≡◌, refl, ◌∙◌,
}
use satis.Base.All.{All}
use satis.Vfs.Names.{trim_space, join, slash, normalize_virtual_path}
use satis.Vfs.Names.Clean.{IsPlain, normalize_virtual_path_canonical}
use satis.Runtime.{normalize_absolute_path, is_absolute, resolve_path}

-- A rooted path whose elements are neither empty nor `.` or `..`, and hold no slash.
abbrev pub IsCanonical : Text → Type 0
IsCanonical path = (ws : List Text) × (path ≡ slash ∷ join slash ws) × All IsPlain ws

-- It is the same function as that of the virtual file system.
normalize_absolute_path_virtual :
    (path : Text) → normalize_absolute_path path ≡ normalize_virtual_path path
unfolding normalize_absolute_path normalize_virtual_path
normalize_absolute_path_virtual path = refl

normalize_absolute_path-IsCanonical : (path : Text) → IsCanonical (normalize_absolute_path path)
normalize_absolute_path-IsCanonical path =
    let (ws, e, plain) = normalize_virtual_path_canonical path in
    (ws, normalize_absolute_path_virtual path ∙ e, plain)

if-IsCanonical :
    (b : Bool) (p q : Text) → IsCanonical p → IsCanonical q → IsCanonical (if b then p else q)
if-IsCanonical true p q h k = h
if-IsCanonical false p q h k = k

-- Whatever the working directory and the path are, the resolved path is rooted and in canonical form, so that no
-- `..` leads out of the root.
pub resolve_path-IsCanonical : (cwd path : Text) → IsCanonical (resolve_path cwd path)
unfolding resolve_path
resolve_path-IsCanonical cwd path =
    let given = trim_space path in
    let base = normalize_absolute_path cwd in
    if-IsCanonical (text_eq given []) base _ (normalize_absolute_path-IsCanonical cwd) (
      if-IsCanonical (is_absolute given) (normalize_absolute_path given) _
        (normalize_absolute_path-IsCanonical given)
        (if-IsCanonical (text_eq base (bytes "/")) (normalize_absolute_path (b'/' ∷ given))
          (normalize_absolute_path (base ++ b'/' ∷ given))
          (normalize_absolute_path-IsCanonical (b'/' ∷ given))
          (normalize_absolute_path-IsCanonical (base ++ b'/' ∷ given))))
