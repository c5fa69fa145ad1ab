-- ===== src/Language/Values.antt =====
-- The parts of an instruction: values, paths, variables and flags (satis/parser.go). An error is
-- `none`: its message is not modelled.
pub mod Escape
pub mod Shapes
use satis.Base.{
  ℕ, zero, suc, Text, bytes, text_eq, Map, insert, lookup, word_eq, length, take, drop, Bool, true,
  false, not, ◌&&◌, ◌||◌, ◌==◌, if◌then◌else◌, Option, none, some, List, [], ◌∷◌, fold_case,
  equal_fold,
}
use satis.Base.Ints.{ℤ, pos}
use satis.Vfs.Names.{trim_space}
use satis.Bridge.Search.{member}
use satis.Language.Chars.{
  is_variable, is_name_byte, is_name_start, is_digit, span_bytes, has_prefix, opening,
  triple_bracket_group, atoi, all_bytes,
}
use satis.Language.Ast.{ListSelector, Value, ValueKind, unset, string, variable, SoftwareFlag}

infixl 10 ◌>>=◌ ◌>>◌
abbrev pub ◌>>=◌ {ℓ κ} : {A : Type ℓ} {B : Type κ} → Option A → (A → Option B) → Option B
none >>= f = none
some a >>= f = f a

abbrev pub ◌>>◌ {κ} : {B : Type κ} → Option (Unit {0}) → Option B → Option B
m >> k = m >>= λ _. k

-- `if !test { return err }`
abbrev pub guard : Bool → Option (Unit {0})
guard true = some tt
guard false = none

abbrev pub onto_raw : ℕ → Option Text → Option Text
onto_raw c none = none
onto_raw c (some s) = some (c ∷ s)

-- What an escape stands for.
abbrev escape_of : ℕ → Option ℕ
escape_of c =
    if c == b'n'
    then some b'\n'
    else if c == b't'
    then some b'\t'
    else if c == b'\\'
    then some b'\\'
    else none

abbrev escaped_onto : Option ℕ → Option Text → Option Text
escaped_onto none rest = none
escaped_onto (some c) rest = onto_raw c rest

unfoldable pub unescape_triple_bracket : Text → Option Text
unescape_triple_bracket [] = some []
unescape_triple_bracket (c ∷ []) = if c == b'\\' then none else some (c ∷ [])
unescape_triple_bracket (c ∷ d ∷ cs) =
    let escaped = escaped_onto (escape_of d) (unescape_triple_bracket cs) in
    let plain = onto_raw c (unescape_triple_bracket (d ∷ cs)) in
    if c == b'\\' then escaped else plain

unfoldable pub parse_triple_bracket : Text → Option Text
unfolding triple_bracket_group unescape_triple_bracket
parse_triple_bracket token = triple_bracket_group token >>= unescape_triple_bracket

unfoldable pub parse_variable : Text → Option Text
unfolding is_variable
parse_variable token = if is_variable token then some token else none

unfoldable pub parse_path_token : Text → Option Text
unfolding trim_space is_variable has_prefix text_eq
parse_path_token token =
    let path = trim_space token in
    if text_eq path [] || (has_prefix opening path || is_variable path) then none else some path

abbrev pub no_selector : ListSelector
no_selector = record {
  has_index = false;
  index = pos 0;
  has_start = false;
  start = pos 0;
  has_end = false;
  end = pos 0;
}

abbrev pub string_value : Text → Value
string_value text = record {
  kind = string;
  text = text;
  has_selector = false;
  selector = no_selector;
}

abbrev pub variable_value : Text → Value
variable_value text = record {
  kind = variable;
  text = text;
  has_selector = false;
  selector = no_selector;
}

abbrev pub no_value : Value
no_value = record { kind = unset; text = []; has_selector = false; selector = no_selector }

-- `(-?\d+)?` at the front of a text: the group, which is empty where it does not match, and the rest.
abbrev signed_front : ℕ → Text × Text → Text → Text × Text
signed_front c ([], rest) whole = ([], whole)
signed_front c (d ∷ ds, rest) whole = (c ∷ d ∷ ds, rest)

unfoldable pub number_front : Text → Text × Text
unfolding span_bytes
number_front [] = ([], [])
number_front (c ∷ cs) =
    if c == b'-'
    then signed_front c (span_bytes is_digit cs) (c ∷ cs)
    else span_bytes is_digit (c ∷ cs)

-- An optional bound: whether it is there, and its value.
abbrev pub bound : Text → Option (Bool × ℤ)
bound [] = some (false, pos 0)
bound (c ∷ cs) = elim (atoi (c ∷ cs)) [ none ↦ none | some n ↦ some (true, n) ]

abbrev pub index_selector : Text → Option ListSelector
index_selector [] = none
index_selector (c ∷ cs) = elim (atoi (c ∷ cs)) [
  | none ↦ none
  | some n ↦ some (record no_selector { has_index = true; index = n })
]

abbrev range_selector : Text → Text → Option ListSelector
range_selector first last = do
  s ← bound first
  e ← bound last
  some (record no_selector { has_start = s.0; start = s.1; has_end = e.0; end = e.1 })

-- The selector behind `[`, which ends the token with `]`.
abbrev pub selector_rest : Text → Text → Option ListSelector
selector_rest first [] = none
selector_rest first (c ∷ cs) =
    if c == b':'
    then (let last = number_front cs in
        if text_eq last.1 (b']' ∷ []) then range_selector first last.0 else none)
    else if text_eq (c ∷ cs) (b']' ∷ [])
    then index_selector first
    else none

unfoldable pub parse_list_selector : Text → Option ListSelector
unfolding number_front atoi text_eq
parse_list_selector s = let first = number_front s in selector_rest first.0 first.1

-- A variable with what stands behind its name.
abbrev pub variable_with : Text → Text → Option Value
variable_with name [] = some (variable_value name)
variable_with name (c ∷ cs) =
    if c == b'['
    then (do
      selector ← parse_list_selector cs
      some (record { kind = variable; text = name; has_selector = true; selector = selector }))
    else none

abbrev pub triple_value : Text → Option Value
triple_value token = do text ← parse_triple_bracket token; some (string_value text)

abbrev pub named_value : Text → Option Value
named_value [] = none
named_value (d ∷ ds) =
    let parts = span_bytes is_name_byte ds in
    if is_name_start d then variable_with (b'@' ∷ d ∷ parts.0) parts.1 else none

unfoldable pub parse_value : Text → Option Value
unfolding parse_triple_bracket parse_list_selector span_bytes
parse_value [] = none
parse_value (c ∷ cs) = if c == b'@' then named_value cs else triple_value (c ∷ cs)

unfoldable pub parse_value_list : List Text → Option (List Value)
unfolding parse_value
parse_value_list [] = some []
parse_value_list (token ∷ tokens) = do
  value ← parse_value token
  values ← parse_value_list tokens
  some (value ∷ values)

abbrev is_triple : Option Text → Bool
is_triple none = false
is_triple (some raw) = true

unfoldable pub parse_software_arg_value : Text → Option Value
unfolding parse_triple_bracket is_variable triple_bracket_group
parse_software_arg_value token =
    if is_triple (triple_bracket_group token)
    then triple_value token
    else if is_variable token
    then some (variable_value token)
    else some (string_value token)

unfoldable pub parse_paths : List Text → Option (List Text)
unfolding parse_path_token
parse_paths [] = some []
parse_paths (token ∷ tokens) = do
  path ← parse_path_token token
  paths ← parse_paths tokens
  some (path ∷ paths)

-- The flags of a call, none twice; the test tells which names are accepted.
unfoldable pub flags_from : (Text → Bool) → List Text → List Text → Option (List SoftwareFlag)
unfolding parse_software_arg_value has_prefix member
flags_from accepts seen [] = some []
flags_from accepts seen (name ∷ []) = none
flags_from accepts seen (name ∷ token ∷ tokens) =
    if has_prefix (bytes "--") name && (accepts name && not (member name seen))
    then (do
      value ← parse_software_arg_value token
      flags ← flags_from accepts (name ∷ seen) tokens
      some (record { name = name; value = value } ∷ flags))
    else none

-- The tokens before the first one that folds to a word, and those from it on.
unfoldable pub cut_at : Text → List Text → List Text × List Text
unfolding fold_case text_eq
cut_at word [] = ([], [])
cut_at word (token ∷ tokens) =
    let rest = cut_at word tokens in
    if equal_fold token word then ([], token ∷ tokens) else (token ∷ rest.0, rest.1)
