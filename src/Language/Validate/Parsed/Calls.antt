-- ===== src/Language/Validate/Parsed/Calls.antt =====
-- The forms of invoke, invoke provider and the calls of software, and of every instruction.
use satis.Base.{
  ℕ, Text, bytes, text_eq, to_lower, Bool, true, ◌&&◌, ◌||◌, if◌then◌else◌, Option, none, some,
  List, [], ◌∷◌, lookup, word_eq, ◌≡◌, refl, arith,
}
use satis.Language.Values.{◌>>=◌, parse_variable, parse_value, parse_value_list, flags_from}
use satis.Language.Values.Shapes.{
  Post, Post-if, Post-bind, Post-guard, Post-then, IsGiven, IsUsable, AreUsable,
  parse_variable-IsGiven, parse_value-IsUsable, parse_value_list-AreUsable, flags_from-fit,
}
use satis.Language.Ast.{
  Value, InvokeStmt, InvokeProviderStmt, BatchInvokeStmt, SoftwareCallStmt, SoftwareRegistry,
}
use satis.Language.Parse.Files.{parse_optional_as}
use satis.Language.Parse.Calls.{
  batch_invoke, concurrent, is_word, parse_batch_invoke, cut_prompt, clause_of, optional_variable,
  optional_value, is_end, parse_single_invoke, named_provider, provider_stmt, split_as_end,
  upsert_provider, parse_invoke_provider_instruction, as_batch, as_invoke, as_provider,
  parse_invoke_instruction, accepts_flag, call_parts, parse_software_call_instruction,
}
use satis.Language.Validate.{all_usable, all_flags_fit}
use satis.Language.Validate.Forms.{BatchForm, IsFormed}

batch_invoke-form :
    (line : ℕ) (prompt list provider output mode : Text)
    → Post BatchForm (batch_invoke line prompt list provider output mode)
unfolding batch_invoke
batch_invoke-form line prompt list provider output mode =
    Post-bind IsUsable BatchForm (parse_value prompt) _ (parse_value-IsUsable prompt) (λ value u.
      Post-bind IsGiven BatchForm (parse_variable list) _ (parse_variable-IsGiven list) (λ input i.
        Post-bind IsGiven BatchForm (parse_variable output) _ (parse_variable-IsGiven output)
          (λ out o. (u, i, o))))

-- Of a concurrent invoke, where the tokens have its form.
abbrev Batched : Option (Option BatchInvokeStmt) → Type 0
Batched found = Post (Post BatchForm) found

parse_batch_invoke-form : (line : ℕ) (tokens : List Text) → Batched (parse_batch_invoke line tokens)
unfolding parse_batch_invoke
parse_batch_invoke-form line (t0 ∷ t1 ∷ t2 ∷ t3 ∷ t4 ∷ t5 ∷ t6 ∷ []) =
    Post-if (Post BatchForm) _ (some _) none
      (λ e. batch_invoke-form line t1 t4 [] t6 (bytes "separate_files")) (λ e. tt)
parse_batch_invoke-form line (t0 ∷ t1 ∷ t2 ∷ t3 ∷ t4 ∷ t5 ∷ t6 ∷ t7 ∷ t8 ∷ []) =
    Post-if (Post BatchForm)
      (concurrent t2 t3 && (is_word t5 (bytes "as") && is_word t7 (bytes "mode"))) (some _)
      (if concurrent t2 t3 && (is_word t5 (bytes "via") && is_word t7 (bytes "as"))
        then some (batch_invoke line t1 t4 t6 t8 (bytes "separate_files"))
        else none)
      (λ e. batch_invoke-form line t1 t4 [] t6 t8)
      (λ e.
        Post-if (Post BatchForm)
          (concurrent t2 t3 && (is_word t5 (bytes "via") && is_word t7 (bytes "as"))) (some _) none
          (λ f. batch_invoke-form line t1 t4 t6 t8 (bytes "separate_files")) (λ f. tt))
parse_batch_invoke-form line (t0 ∷ t1 ∷ t2 ∷ t3 ∷ t4 ∷ t5 ∷ t6 ∷ t7 ∷ t8 ∷ t9 ∷ t10 ∷ []) =
    Post-if (Post BatchForm) _ (some _) none (λ e. batch_invoke-form line t1 t4 t6 t8 t10) (λ e. tt)
parse_batch_invoke-form line _ = tt

abbrev HasPrompt : InvokeStmt → Type 0
HasPrompt stmt = IsUsable stmt.prompt

first_value :
    (values : List Value)
    → AreUsable values
    → Post IsUsable (elim values [ [] ↦ none | value ∷ _ ↦ some value ])
unfolding all_usable
first_value [] h = tt
first_value (value ∷ values) h = ground arith

parse_single_invoke-form :
    (line : ℕ) (tokens : List Text) → Post HasPrompt (parse_single_invoke line tokens)
unfolding parse_single_invoke
parse_single_invoke-form line tokens =
    let parts = cut_prompt tokens in
    Post-bind AreUsable HasPrompt (parse_value_list parts.0) _ (parse_value_list-AreUsable parts.0)
      (λ values us.
        Post-bind IsUsable HasPrompt (elim values [ [] ↦ none | value ∷ _ ↦ some value ]) _
          (first_value values us)
          (λ first u. Post-then HasPrompt (clause_of (bytes "in") parts.1) _ (λ conversation.
            Post-then HasPrompt (optional_variable conversation.0) _ (λ name.
              Post-then HasPrompt (clause_of (bytes "with") conversation.1) _ (λ with_clause.
                Post-then HasPrompt (optional_value with_clause.0) _ (λ input.
                  Post-then HasPrompt (clause_of (bytes "via") with_clause.1) _ (λ via.
                    Post-then HasPrompt (clause_of (bytes "as") via.1) _ (λ as_clause.
                      Post-then HasPrompt (optional_variable as_clause.0) _
                        (λ output. Post-guard HasPrompt (is_end as_clause.1) _ (λ e. u))))))))))

abbrev ProviderForm : InvokeProviderStmt → Type 0
ProviderForm stmt = all_flags_fit stmt.flags ≡ true

named_provider-form :
    (line : ℕ) (action : Text) (tokens : List Text)
    → Post ProviderForm (named_provider line action tokens)
unfolding all_flags_fit
named_provider-form line action [] = tt
named_provider-form line action (name ∷ tokens) =
    Post-then ProviderForm (parse_optional_as tokens) _ (λ output. refl)

upsert_provider-form :
    (line : ℕ) (tokens : List Text) → Post ProviderForm (upsert_provider line tokens)
unfolding upsert_provider
upsert_provider-form line (name ∷ token ∷ tokens) =
    Post-then ProviderForm (split_as_end (token ∷ tokens)) _ (λ parts.
      Post-bind (λ flags. all_flags_fit flags ≡ true) ProviderForm
        (flags_from (λ flag. true) [] parts.0) _ (flags_from-fit (λ flag. true) [] parts.0)
        (λ flags f. f))
upsert_provider-form line _ = tt

parse_invoke_provider-form :
    (line : ℕ) (tokens : List Text)
    → Post ProviderForm (parse_invoke_provider_instruction line tokens)
unfolding parse_invoke_provider_instruction all_flags_fit
parse_invoke_provider-form line (t0 ∷ t1 ∷ t2 ∷ tokens) =
    let action : Text = to_lower t2 in
    let upsert : Option InvokeProviderStmt =
      if text_eq action (bytes "upsert") then upsert_provider line tokens else none in
    let named : Bool =
      text_eq action (bytes "show")
      || text_eq action (bytes "remove")
      || text_eq action (bytes "set-default") in
    Post-if ProviderForm (text_eq action (bytes "ls") || text_eq action (bytes "current"))
      (parse_optional_as tokens >>= λ output. some (provider_stmt line action [] output))
      (if named then named_provider line action tokens else upsert)
      (λ e. Post-then ProviderForm (parse_optional_as tokens) _ (λ output. refl))
      (λ e.
        Post-if ProviderForm named (named_provider line action tokens) upsert
          (λ f. named_provider-form line action tokens)
          (λ f.
            Post-if ProviderForm (text_eq action (bytes "upsert")) (upsert_provider line tokens)
              none (λ g. upsert_provider-form line tokens) (λ g. tt)))
parse_invoke_provider-form line _ = tt

as_batch-IsFormed : (o : Option BatchInvokeStmt) → Post BatchForm o → Post IsFormed (as_batch o)
as_batch-IsFormed none h = h
as_batch-IsFormed (some stmt) h = h

as_invoke-IsFormed : (o : Option InvokeStmt) → Post HasPrompt o → Post IsFormed (as_invoke o)
as_invoke-IsFormed none h = h
as_invoke-IsFormed (some stmt) h = h

as_provider-IsFormed :
    (o : Option InvokeProviderStmt) → Post ProviderForm o → Post IsFormed (as_provider o)
as_provider-IsFormed none h = h
as_provider-IsFormed (some stmt) h = h

either-IsFormed :
    (found : Option (Option BatchInvokeStmt)) (other : Option InvokeStmt)
    → Batched found
    → Post HasPrompt other
    → Post IsFormed (elim found [ some stmt ↦ as_batch stmt | none ↦ as_invoke other ])
either-IsFormed none other h k = as_invoke-IsFormed other k
either-IsFormed (some stmt) other h k = as_batch-IsFormed stmt h

pub parse_invoke-IsFormed :
    (line : ℕ) (tokens : List Text) → Post IsFormed (parse_invoke_instruction line tokens)
unfolding parse_invoke_instruction
parse_invoke-IsFormed line [] = tt
parse_invoke-IsFormed line (t0 ∷ []) = tt
parse_invoke-IsFormed line (t0 ∷ t1 ∷ tokens) =
    Post-if IsFormed (is_word t1 (bytes "provider"))
      (as_provider (parse_invoke_provider_instruction line (t0 ∷ t1 ∷ tokens))) _
      (λ e.
        as_provider-IsFormed (parse_invoke_provider_instruction line (t0 ∷ t1 ∷ tokens))
          (parse_invoke_provider-form line (t0 ∷ t1 ∷ tokens)))
      (λ e.
        either-IsFormed (parse_batch_invoke line (t0 ∷ t1 ∷ tokens))
          (parse_single_invoke line (t1 ∷ tokens)) (parse_batch_invoke-form line (t0 ∷ t1 ∷ tokens))
          (parse_single_invoke-form line (t1 ∷ tokens)))

pub parse_software_call-form :
    (registry : SoftwareRegistry) (line : ℕ) (tokens : List Text)
    → Post
        (λ stmt. all_flags_fit stmt.flags ≡ true)
        (parse_software_call_instruction registry line tokens)
unfolding parse_software_call_instruction
parse_software_call-form registry line (t0 ∷ t1 ∷ tokens) =
    let P : SoftwareCallStmt → Type 0 = λ stmt. all_flags_fit stmt.flags ≡ true in
    Post-then P (lookup t0 registry.by_name) _ (λ spec.
      Post-then P (lookup t1 spec.functions) _ (λ fn. Post-then P (call_parts t1 tokens) _ (λ parts.
        Post-bind (λ flags. all_flags_fit flags ≡ true) P (flags_from (accepts_flag fn) [] parts.0)
          _ (flags_from-fit (accepts_flag fn) [] parts.0) (λ flags f. f))))
parse_software_call-form registry line _ = tt
