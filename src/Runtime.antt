-- ===== src/Runtime.antt =====
-- The values of the variables at run time and what an instruction reads of them (satis/runtime.go). An error is
-- `none`: its message is not modelled.
pub mod Selection
pub mod Paths
mod Samples
use satis.Base.{
  ℕ, zero, suc, ◌+◌, ◌-◌, ltb, leb, Text, bytes, text_eq, Map, lookup, word_eq, length, take, drop,
  Bool, true, false, not, ◌&&◌, ◌||◌, ◌==◌, if◌then◌else◌, Option, none, some, List, [], ◌∷◌, ◌++◌,
}
use satis.Base.Ints.{ℤ, pos, negsuc}
use satis.Vfs.Names.{trim_space, split, join, cleaned_path}
use satis.Vfs.Types.{FileRef}
use satis.Language.Ast.{Value, ListSelector, ValueKind}
use satis.Language.Values.{◌>>=◌}

pub record ConversationMessage : Type 0 where
  pub role : Text
  pub content : Text

-- A runtimeValue, whose fields beside that of its kind are not read.
pub data RuntimeValue : Type 0 where
  text : Text → RuntimeValue
  text_list : List Text → RuntimeValue
  object : FileRef → RuntimeValue
  object_list : List FileRef → RuntimeValue
  conversation : List ConversationMessage → RuntimeValue

abbrev pub Variables : Type 0
Variables = Map Text RuntimeValue

-- `if index < 0 { index += length }`
abbrev pub from_end : ℤ → ℕ → ℤ
from_end (pos n) len = pos n
from_end (negsuc n) len = if ltb n len then pos (len - suc n) else negsuc (n - len)

unfoldable pub normalize_index : ℤ → ℕ → Option ℕ
normalize_index index len = elim (from_end index len) [
  | pos n ↦ if ltb n len then some n else none
  | negsuc n ↦ none
]

-- `if bound < 0 { bound = 0 }; if bound > length { bound = length }`
abbrev pub clamp : ℤ → ℕ → ℕ
clamp (pos n) len = if ltb len n then len else n
clamp (negsuc n) len = 0

abbrev pub slice_start : ListSelector → ℕ → ℕ
slice_start selector len =
    clamp (if selector.has_start then from_end selector.start len else pos 0) len

abbrev pub slice_end : ListSelector → ℕ → ℕ
slice_end selector len = clamp (if selector.has_end then from_end selector.end len else pos len) len

unfoldable pub normalize_slice_bounds : ListSelector → ℕ → ℕ × ℕ
normalize_slice_bounds selector len =
    let start = slice_start selector len in
    let end = slice_end selector len in (start, if ltb end start then start else end)

-- `xs[start:end]`
abbrev pub slice {ℓ} : {A : Type ℓ} → ℕ × ℕ → List A → List A
slice (start, end) xs = drop start (take end xs)

abbrev pub item {ℓ} : {A : Type ℓ} → ℕ → List A → Option A
item n [] = none
item zero (x ∷ xs) = some x
item (suc n) (x ∷ xs) = item n xs

abbrev pub item_at {ℓ} : {A : Type ℓ} → ListSelector → List A → Option A
item_at selector xs = elim (normalize_index selector.index (length xs)) [
  | none ↦ none
  | some n ↦ item n xs
]

abbrev pub items_at {ℓ} : {A : Type ℓ} → ListSelector → List A → List A
items_at selector xs = slice (normalize_slice_bounds selector (length xs)) xs

unfoldable pub apply_list_selector : RuntimeValue → ListSelector → Option RuntimeValue
unfolding normalize_index normalize_slice_bounds
apply_list_selector (text_list texts) selector =
    if selector.has_index
    then (elim (item_at selector texts) [ none ↦ none | some t ↦ some (text t) ])
    else some (text_list (items_at selector texts))
apply_list_selector (object_list objects) selector =
    if selector.has_index
    then (elim (item_at selector objects) [ none ↦ none | some o ↦ some (object o) ])
    else some (object_list (items_at selector objects))
apply_list_selector (text t) selector = none
apply_list_selector (object o) selector = none
apply_list_selector (conversation messages) selector = none

abbrev pub is_list_runtime_value : RuntimeValue → Bool
is_list_runtime_value (text_list texts) = true
is_list_runtime_value (object_list objects) = true
is_list_runtime_value _ = false

abbrev pub if_list : Option RuntimeValue → Option RuntimeValue
if_list none = none
if_list (some rv) = if is_list_runtime_value rv then some rv else none

abbrev pub or_next : Option RuntimeValue → Option RuntimeValue → Option RuntimeValue
or_next none next = next
or_next (some rv) next = some rv

-- The list that a name or the name with `_list` has, if lists are preferred, and else the variable.
unfoldable pub lookup_runtime_value : Variables → Text → Bool → Option RuntimeValue
unfolding lookup
lookup_runtime_value env name prefer_list =
    let listed = if_list (lookup (name ++ bytes "_list") env) in
    if prefer_list
    then or_next (if_list (lookup name env)) (or_next listed (or_next (lookup name env) listed))
    else lookup name env

unfoldable pub resolve_value_selection : Variables → Value → Bool → Option RuntimeValue
unfolding lookup_runtime_value apply_list_selector
resolve_value_selection env value prefer_list = elim value.kind [
  | ValueKind.string ↦ some (text value.text)
  | ValueKind.variable ↦ lookup_runtime_value env value.text prefer_list >>= λ rv.
      if value.has_selector then apply_list_selector rv value.selector else some rv
  | ValueKind.unset ↦ none
]

abbrev pub as_text : RuntimeValue → Option Text
as_text (text t) = some t
as_text _ = none

unfoldable pub resolve_text_value : Variables → Value → Option Text
unfolding resolve_value_selection
resolve_text_value env value = resolve_value_selection env value false >>= as_text

abbrev pub as_prompt : RuntimeValue → Option Text
as_prompt (text t) = some t
as_prompt (text_list texts) = some (join b'\n' texts)
as_prompt _ = none

unfoldable pub resolve_prompt_text : Variables → Value → Option Text
unfolding resolve_value_selection join
resolve_prompt_text env value = resolve_value_selection env value true >>= as_prompt

unfoldable pub resolve_concat_values : Variables → List Value → Option Text
unfolding resolve_text_value
resolve_concat_values env [] = some []
resolve_concat_values env (value ∷ values) = do
  t ← resolve_text_value env value
  rest ← resolve_concat_values env values
  some (t ++ rest)

unfoldable pub join_prompts : Variables → List Value → Option Text
unfolding resolve_prompt_text
join_prompts env [] = some []
join_prompts env (value ∷ values) = do
  t ← resolve_prompt_text env value
  rest ← join_prompts env values
  some (t ++ rest)

-- The parts of a prompt and the prompt itself, which is read if there are no parts.
unfoldable pub resolve_invoke_prompt : Variables → List Value → Value → Option Text
unfolding join_prompts
resolve_invoke_prompt env [] prompt = join_prompts env (prompt ∷ [])
resolve_invoke_prompt env (value ∷ values) prompt = join_prompts env (value ∷ values)

abbrev pub as_object : RuntimeValue → Option FileRef
as_object (object o) = some o
as_object _ = none

unfoldable pub resolve_object_var : Variables → Text → Option FileRef
unfolding lookup
resolve_object_var env name = lookup name env >>= as_object

-- The lines of a text that are not blank.
unfoldable pub trimmed_lines : List Text → List Text
unfolding trim_space text_eq
trimmed_lines [] = []
trimmed_lines (line ∷ lines) =
    let rest = trimmed_lines lines in
    if text_eq (trim_space line) [] then rest else trim_space line ∷ rest

abbrev pub or_whole : Text → List Text → List Text
or_whole t [] = t ∷ []
or_whole t (line ∷ lines) = line ∷ lines

abbrev pub as_text_list : RuntimeValue → Option (List Text)
as_text_list (text_list texts) = some texts
as_text_list (text t) = some (or_whole t (trimmed_lines (split b'\n' t)))
as_text_list _ = none

unfoldable pub resolve_text_list : Variables → Text → Option (List Text)
unfolding lookup trimmed_lines split
resolve_text_list env name = lookup name env >>= as_text_list

unfoldable pub normalize_absolute_path : Text → Text
unfolding trim_space text_eq cleaned_path
normalize_absolute_path path =
    if text_eq (trim_space path) [] then bytes "/" else cleaned_path (trim_space path)

-- `strings.HasPrefix(path, "/")`
abbrev pub is_absolute : Text → Bool
is_absolute [] = false
is_absolute (c ∷ cs) = c == b'/'

unfoldable pub resolve_path : Text → Text → Text
unfolding normalize_absolute_path trim_space text_eq
resolve_path cwd path =
    let given = trim_space path in
    let base = normalize_absolute_path cwd in
    if text_eq given []
    then base
    else if is_absolute given
    then normalize_absolute_path given
    else if text_eq base (bytes "/")
    then normalize_absolute_path (b'/' ∷ given)
    else normalize_absolute_path (base ++ b'/' ∷ given)

-- A flag's value is a string, or a variable that holds a text.
unfoldable pub resolve_software_flag_value : Variables → Value → Option Text
unfolding resolve_value_selection
resolve_software_flag_value env value = elim value.kind [
  | ValueKind.string ↦ some value.text
  | ValueKind.variable ↦ resolve_value_selection env value false >>= as_text
  | ValueKind.unset ↦ none
]

abbrev pub as_objects : RuntimeValue → Option (List FileRef)
as_objects (object_list objects) = some objects
as_objects _ = none

abbrev one_object : Option FileRef → Option (List FileRef)
one_object none = none
one_object (some o) = some (o ∷ [])

-- The variable's list, the list of the name with `_list`, or the variable's object. What the name with
-- `_list` holds is to be a list.
unfoldable pub resolve_readable_objects : Variables → Text → Option (List FileRef)
unfolding lookup
resolve_readable_objects env name =
    let single = one_object (lookup name env >>= as_object) in
    let listed : Option (List FileRef) = elim (lookup (name ++ bytes "_list") env) [
      | some rv ↦ as_objects rv
      | none ↦ single
    ] in
    elim (lookup name env >>= as_objects) [ some objects ↦ some objects | none ↦ listed ]
