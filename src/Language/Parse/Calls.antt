-- ===== src/Language/Parse/Calls.antt =====
-- invoke, invoke provider, software and the calls of software.
use satis.Base.{
  ℕ, Text, bytes, text_eq, fold_case, equal_fold, to_lower, lookup, word_eq, Bool, true, false,
  ◌&&◌, ◌||◌, if◌then◌else◌, Option, none, some, List, [], ◌∷◌,
}
use satis.Bridge.Search.{member}
use satis.Language.Values.{
  ◌>>=◌, ◌>>◌, guard, parse_variable, parse_value, parse_value_list, flags_from, no_value,
}
use satis.Language.Ast.{
  Value, InvokeStmt, InvokeProviderStmt, BatchInvokeStmt, SoftwareManageStmt, SoftwareCallStmt,
  SoftwareFunction, SoftwareRegistry, Instruction,
}
use satis.Language.Parse.Files.{parse_optional_as}

-- `NAME concurrently with @list` and what is behind it.
unfoldable pub batch_invoke : ℕ → Text → Text → Text → Text → Text → Option BatchInvokeStmt
unfolding parse_value parse_variable
batch_invoke line prompt_token list_token provider output_token mode = do
  prompt ← parse_value prompt_token
  input ← parse_variable list_token
  output ← parse_variable output_token
  some (record {
    line = line;
    prompt = prompt;
    input_list = input;
    provider = provider;
    output_var = output;
    output_mode = mode;
  })

abbrev pub is_word : Text → Text → Bool
is_word token word = equal_fold token word

abbrev pub concurrent : Text → Text → Bool
concurrent t2 t3 = is_word t2 (bytes "concurrently") && is_word t3 (bytes "with")

-- The four forms of a concurrent invoke; the outer option tells whether the tokens have such a form.
unfoldable pub parse_batch_invoke : ℕ → List Text → Option (Option BatchInvokeStmt)
unfolding batch_invoke fold_case text_eq
parse_batch_invoke line (t0 ∷ t1 ∷ t2 ∷ t3 ∷ t4 ∷ t5 ∷ t6 ∷ []) =
    if concurrent t2 t3 && is_word t5 (bytes "as")
    then some (batch_invoke line t1 t4 [] t6 (bytes "separate_files"))
    else none
parse_batch_invoke line (t0 ∷ t1 ∷ t2 ∷ t3 ∷ t4 ∷ t5 ∷ t6 ∷ t7 ∷ t8 ∷ []) =
    if concurrent t2 t3 && (is_word t5 (bytes "as") && is_word t7 (bytes "mode"))
    then some (batch_invoke line t1 t4 [] t6 t8)
    else if concurrent t2 t3 && (is_word t5 (bytes "via") && is_word t7 (bytes "as"))
    then some (batch_invoke line t1 t4 t6 t8 (bytes "separate_files"))
    else none
parse_batch_invoke line (t0 ∷ t1 ∷ t2 ∷ t3 ∷ t4 ∷ t5 ∷ t6 ∷ t7 ∷ t8 ∷ t9 ∷ t10 ∷ []) =
    if concurrent t2 t3
      && (is_word t5 (bytes "via") && (is_word t7 (bytes "as") && is_word t9 (bytes "mode")))
    then some (batch_invoke line t1 t4 t6 t8 t10)
    else none
parse_batch_invoke line _ = none

-- The prompt ends before the first of these words.
unfoldable pub cut_prompt : List Text → List Text × List Text
unfolding fold_case text_eq
cut_prompt [] = ([], [])
cut_prompt (token ∷ tokens) =
    let rest = cut_prompt tokens in
    if is_word token (bytes "in")
      || is_word token (bytes "with")
      || is_word token (bytes "via")
      || is_word token (bytes "as")
    then ([], token ∷ tokens)
    else (token ∷ rest.0, rest.1)

-- `idx < len(tokens) && equalFold(tokens[idx], word)`: the token behind the word and those behind that
-- one, no token, or the tokens without the word.
unfoldable pub clause_of : Text → List Text → Option (Option Text × List Text)
unfolding fold_case text_eq
clause_of word [] = some (none, [])
clause_of word (token ∷ []) = if is_word token word then none else some (none, token ∷ [])
clause_of word (token ∷ arg ∷ tokens) =
    if is_word token word then some (some arg, tokens) else some (none, token ∷ arg ∷ tokens)

abbrev pub optional_variable : Option Text → Option Text
optional_variable none = some []
optional_variable (some token) = parse_variable token

abbrev pub optional_value : Option Text → Option (Bool × Value)
optional_value none = some (false, no_value)
optional_value (some token) = elim (parse_value token) [
  | none ↦ none
  | some value ↦ some (true, value)
]

abbrev optional_name : Option Text → Text
optional_name none = []
optional_name (some token) = token

abbrev pub is_end : List Text → Bool
is_end [] = true
is_end (token ∷ tokens) = false

-- The form of an invoke that is not concurrent.
unfoldable pub parse_single_invoke : ℕ → List Text → Option InvokeStmt
unfolding cut_prompt clause_of parse_value parse_value_list parse_variable
parse_single_invoke line tokens = do
  let parts = cut_prompt tokens
  values ← parse_value_list parts.0
  first ← elim values [ [] ↦ none | value ∷ _ ↦ some value ]
  conversation ← clause_of (bytes "in") parts.1
  conversation_var ← optional_variable conversation.0
  with_clause ← clause_of (bytes "with") conversation.1
  input ← optional_value with_clause.0
  via ← clause_of (bytes "via") with_clause.1
  as_clause ← clause_of (bytes "as") via.1
  output ← optional_variable as_clause.0
  guard (is_end as_clause.1)
  some (record {
    line = line;
    prompt_parts = values;
    prompt = first;
    conversation_var = conversation_var;
    has_input = input.0;
    input = input.1;
    provider = optional_name via.0;
    output_var = output;
  })

abbrev pub provider_stmt : ℕ → Text → Text → Text → InvokeProviderStmt
provider_stmt line action name output = record {
  line = line;
  action = action;
  name = name;
  flags = [];
  output_var = output;
}

abbrev pub named_provider : ℕ → Text → List Text → Option InvokeProviderStmt
named_provider line action [] = none
named_provider line action (name ∷ tokens) = do
  output ← parse_optional_as tokens
  some (provider_stmt line action name output)

-- The tokens without `as @var` at their end, and the variable.
unfoldable pub split_as_end : List Text → Option (List Text × Text)
unfolding parse_variable fold_case text_eq
split_as_end [] = some ([], [])
split_as_end (token ∷ []) = some (token ∷ [], [])
split_as_end (as_word ∷ token ∷ []) =
    if is_word as_word (bytes "as")
    then (do output ← parse_variable token; some ([], output))
    else some (as_word ∷ token ∷ [], [])
split_as_end (token ∷ t1 ∷ t2 ∷ tokens) = do
  rest ← split_as_end (t1 ∷ t2 ∷ tokens)
  some (token ∷ rest.0, rest.1)

-- With one token behind a provider named `as` the source slices out of range: no statement results,
-- as with an error.
unfoldable pub upsert_provider : ℕ → List Text → Option InvokeProviderStmt
unfolding split_as_end flags_from
upsert_provider line (name ∷ token ∷ tokens) = do
  parts ← split_as_end (token ∷ tokens)
  flags ← flags_from (λ flag. true) [] parts.0
  some (record (provider_stmt line (bytes "upsert") name parts.1) { flags = flags })
upsert_provider line _ = none

unfoldable pub parse_invoke_provider_instruction : ℕ → List Text → Option InvokeProviderStmt
unfolding parse_optional_as upsert_provider to_lower text_eq
parse_invoke_provider_instruction line (t0 ∷ t1 ∷ t2 ∷ tokens) =
    let action = to_lower t2 in
    if text_eq action (bytes "ls") || text_eq action (bytes "current")
    then (do output ← parse_optional_as tokens; some (provider_stmt line action [] output))
    else if text_eq action (bytes "show")
        || text_eq action (bytes "remove")
        || text_eq action (bytes "set-default")
    then named_provider line action tokens
    else if text_eq action (bytes "upsert")
    then upsert_provider line tokens
    else none
parse_invoke_provider_instruction line _ = none

abbrev pub as_batch : Option BatchInvokeStmt → Option Instruction
as_batch none = none
as_batch (some stmt) = some (Instruction.invoke_simultaneous stmt)

abbrev pub as_invoke : Option InvokeStmt → Option Instruction
as_invoke none = none
as_invoke (some stmt) = some (Instruction.invoke stmt)

abbrev pub as_provider : Option InvokeProviderStmt → Option Instruction
as_provider none = none
as_provider (some stmt) = some (Instruction.invoke_provider stmt)

unfoldable pub parse_invoke_instruction : ℕ → List Text → Option Instruction
unfolding parse_batch_invoke parse_single_invoke parse_invoke_provider_instruction fold_case text_eq
parse_invoke_instruction line [] = none
parse_invoke_instruction line (t0 ∷ []) = none
parse_invoke_instruction line (t0 ∷ t1 ∷ tokens) =
    if is_word t1 (bytes "provider")
    then as_provider (parse_invoke_provider_instruction line (t0 ∷ t1 ∷ tokens))
    else elim (parse_batch_invoke line (t0 ∷ t1 ∷ tokens)) [
      | some stmt ↦ as_batch stmt
      | none ↦ as_invoke (parse_single_invoke line (t1 ∷ tokens))
    ]

abbrev manage_stmt : ℕ → Text → Text → Text → SoftwareManageStmt
manage_stmt line action arg output = record {
  line = line;
  action = action;
  arg = arg;
  output_var = output;
}

abbrev manage_named : ℕ → Text → List Text → Option SoftwareManageStmt
manage_named line action [] = none
manage_named line action (arg ∷ tokens) = do
  output ← parse_optional_as tokens
  some (manage_stmt line action arg output)

abbrev manage_cd : ℕ → Text → List Text → Option SoftwareManageStmt
manage_cd line action (arg ∷ []) = some (manage_stmt line action arg [])
manage_cd line action _ = none

unfoldable pub parse_software_manage_instruction : ℕ → List Text → Option SoftwareManageStmt
unfolding parse_optional_as to_lower text_eq
parse_software_manage_instruction line (t0 ∷ t1 ∷ tokens) =
    let action = to_lower t1 in
    if text_eq action (bytes "ls")
      || text_eq action (bytes "pwd")
      || text_eq action (bytes "refresh")
    then (do output ← parse_optional_as tokens; some (manage_stmt line action [] output))
    else if text_eq action (bytes "cd")
    then manage_cd line action tokens
    else if text_eq action (bytes "find")
        || text_eq action (bytes "describe")
        || text_eq action (bytes "functions")
        || text_eq action (bytes "readskill")
    then manage_named line action tokens
    else none
parse_software_manage_instruction line _ = none

abbrev pub accepts_flag : SoftwareFunction → Text → Bool
accepts_flag fn name = member name fn.args

-- The arguments behind the function and the output. With one token behind it, the function's own name
-- is the one that is compared with `as`.
unfoldable pub call_parts : Text → List Text → Option (List Text × Text)
unfolding split_as_end
call_parts fn (token ∷ []) =
    if is_word fn (bytes "as")
    then (do output ← parse_variable token; some ([], output))
    else some (token ∷ [], [])
call_parts fn tokens = split_as_end tokens

unfoldable pub parse_software_call_instruction :
    SoftwareRegistry → ℕ → List Text → Option SoftwareCallStmt
unfolding call_parts flags_from lookup member
parse_software_call_instruction registry line (t0 ∷ t1 ∷ tokens) = do
  spec ← lookup t0 registry.by_name
  fn ← lookup t1 spec.functions
  parts ← call_parts t1 tokens
  flags ← flags_from (accepts_flag fn) [] parts.0
  some (record {
    line = line;
    software_name = spec.name;
    function_name = t1;
    flags = flags;
    output_var = parts.1;
  })
parse_software_call_instruction registry line _ = none
