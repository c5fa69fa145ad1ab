-- ===== src/Vfs/Memory/Content.antt =====
-- Contents: the first one of a new file, the one that a write makes, and the view of a read
-- (Create, Write and applyReadView of vfs/memory.go).
pub mod Patch
use satis.Base.{
  ℕ, zero, suc, ◌+◌, ◌-◌, Text, text_eq, length, take, drop, Bool, true, false, ◌&&◌, ◌||◌, ◌==◌,
  ltb, if◌then◌else◌, Option, none, some, List, [], ◌∷◌, ◌++◌,
}
use satis.Base.Ints.{ℤ, pos, negsuc}
use satis.Vfs.Types.{
  FileKind, kind_text, kind_binary, kind_generated, kind_ephemeral, mode_replace_full, mode_append,
  mode_patch_text, WriteInput, PatchTextInput, ReadView, Result, ok, err, invalid_input,
  invalid_kind, invalid_write_mode, patch_no_match, patch_multiple_match,
}
use satis.Vfs.Names.{split, join}
use satis.Vfs.Memory.{MemoryContent}

abbrev pub is_text_kind : FileKind → Bool
is_text_kind kind =
    text_eq kind kind_text || text_eq kind kind_generated || text_eq kind kind_ephemeral

abbrev pub is_binary : FileKind → Bool
is_binary kind = text_eq kind kind_binary

abbrev pub of_text : Text → MemoryContent
of_text s = record { text = s; blob = [] }

abbrev pub of_blob : Text → MemoryContent
of_blob b = record { text = []; blob = b }

-- The zero value, which Go's map gives at a missing generation.
abbrev pub no_content : MemoryContent
no_content = record { text = []; blob = [] }

abbrev pub content_or_zero : Option MemoryContent → MemoryContent
content_or_zero none = no_content
content_or_zero (some c) = c

unfoldable pub starts_with : Text → Text → Bool
starts_with [] s = true
starts_with (c ∷ cs) [] = false
starts_with (c ∷ cs) (d ∷ ds) = c == d && starts_with cs ds

-- strings.Count of a non-empty text; the first argument is the rest of a match to pass over.
unfoldable pub count_from : ℕ → Text → Text → ℕ
unfolding starts_with
count_from k [] old = 0
count_from (suc k) (c ∷ cs) old = count_from k cs old
count_from zero (c ∷ cs) old =
    let hit = starts_with old (c ∷ cs) in
    (if hit then 1 else 0) + count_from (if hit then length old - 1 else 0) cs old

-- strings.Replace of the first match
unfoldable pub replace_first : Text → Text → Text → Text
unfolding starts_with
replace_first old new [] = []
replace_first old new (c ∷ cs) =
    let rest = c ∷ replace_first old new cs in
    if starts_with old (c ∷ cs) then new ++ drop (length old) (c ∷ cs) else rest

unfoldable pub patched : Text → PatchTextInput → Result MemoryContent
unfolding count_from replace_first
patched current patch =
    let matches = count_from 0 current patch.old_text in
    if matches == 0
    then err patch_no_match
    else if matches == 1
    then ok (of_text (replace_first patch.old_text patch.new_text current))
    else err patch_multiple_match

unfoldable pub replaced_content : FileKind → WriteInput → Result MemoryContent
replaced_content kind input =
    if is_binary kind
    then ok (of_blob input.blob)
    else if is_text_kind kind
    then ok (of_text input.text)
    else err invalid_kind

unfoldable pub appended_content : FileKind → MemoryContent → WriteInput → Result MemoryContent
appended_content kind current input =
    if is_text_kind kind then ok (of_text (current.text ++ input.text)) else err invalid_kind

abbrev pub patch_or_invalid :
    FileKind → MemoryContent → Option PatchTextInput → Result MemoryContent
patch_or_invalid kind current none = err invalid_input
patch_or_invalid kind current (some patch) =
    if text_eq patch.old_text []
    then err invalid_input
    else if is_text_kind kind
    then patched current.text patch
    else err invalid_kind

-- The switch over the write mode.
unfoldable pub next_content : FileKind → MemoryContent → WriteInput → Result MemoryContent
unfolding replaced_content appended_content text_eq
next_content kind current input =
    if text_eq input.mode mode_replace_full
    then replaced_content kind input
    else if text_eq input.mode mode_append
    then appended_content kind current input
    else if text_eq input.mode mode_patch_text
    then patch_or_invalid kind current input.patch_text
    else err invalid_write_mode

-- The bytes that the size and the checksum are of.
abbrev pub payload_bytes : FileKind → MemoryContent → Text
payload_bytes kind content = if is_binary kind then content.blob else content.text

abbrev pub same_content : FileKind → MemoryContent → MemoryContent → Bool
same_content kind a b = if is_binary kind then text_eq a.blob b.blob else text_eq a.text b.text

abbrev is_zero : ℤ → Bool
is_zero (pos n) = n == 0
is_zero (negsuc n) = false

-- A first line that is not positive is 1.
abbrev start_of : ℤ → ℕ
start_of (pos n) = if n == 0 then 1 else n
start_of (negsuc n) = 1

-- A last line that is not positive, or past the end, is the last one.
abbrev end_of : ℤ → ℕ → ℕ
end_of (pos n) count = if n == 0 || ltb count n then count else n
end_of (negsuc n) count = count

abbrev line_range : List Text → ℕ → ℕ → Text
line_range lines start end =
    if ltb end start || ltb (length lines) start
    then []
    else join b'\n' (take (end - (start - 1)) (drop (start - 1) lines))

unfoldable pub apply_read_view : Text → ReadView → Text
unfolding split join text_eq
apply_read_view text view =
    if text_eq view.mode [] || (is_zero view.start_line && is_zero view.end_line)
    then text
    else let lines = split b'\n' text in
      line_range lines (start_of view.start_line) (end_of view.end_line (length lines))
