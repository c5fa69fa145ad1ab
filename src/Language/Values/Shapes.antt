-- ===== src/Language/Values/Shapes.antt =====
-- What the parsed parts of an instruction look like.
use satis.Base.{
  Text, bytes, text_eq, Bool, true, false, not, ◌&&◌, ◌||◌, ◌==◌, if◌then◌else◌, Option, none, some,
  List, [], ◌∷◌, ◌≡◌, refl, subst, arith,
}
use satis.Vfs.Names.{trim_space}
use satis.Bridge.Search.{member}
use satis.Language.Chars.{is_variable, is_name_byte, is_name_start, span_bytes, has_prefix, opening}
use satis.Language.Ast.{Value, ValueKind, SoftwareFlag}
use satis.Language.Values.{
  ◌>>=◌, ◌>>◌, guard, parse_variable, parse_path_token, parse_triple_bracket, parse_list_selector,
  parse_value, parse_value_list, parse_software_arg_value, parse_paths, flags_from, named_value,
  variable_with, triple_value, string_value, variable_value,
}
use satis.Language.Validate.{is_set, some_of, is_usable, all_usable, flag_fits, all_flags_fit}

module _ {ℓ κ} {A : Type ℓ} where
  -- What holds of a result, if there is one.
  abbrev pub Post : (A → Type κ) → Option A → Type κ
  Post P none = Unit
  Post P (some a) = P a

  pub Post-some : (P : A → Type κ) (m : Option A) (a : A) → Post P m → m ≡ some a → P a
  Post-some P m a h e = subst (Post P) e h

  pub Post-if :
      (P : A → Type κ) (b : Bool) (m n : Option A)
      → (b ≡ true → Post P m)
      → (b ≡ false → Post P n)
      → Post P (if b then m else n)
  Post-if P true m n h k = h refl
  Post-if P false m n h k = k refl

  pub Post-both : (P Q : A → Type κ) (m : Option A) → Post P m → Post Q m → Post (λ a. P a × Q a) m
  Post-both P Q none h k = tt
  Post-both P Q (some a) h k = (h, k)

-- Of a step and what follows it.
pub Post-bind {ℓ κ μ ν} :
    {A : Type ℓ} {B : Type κ} (P : A → Type μ) (Q : B → Type ν) (m : Option A) (f : A → Option B)
    → Post P m
    → ((a : A) → P a → Post Q (f a))
    → Post Q (m >>= f)
Post-bind P Q none f h k = tt
Post-bind P Q (some a) f h k = k a h

-- Of a test and what follows it.
pub Post-guard {κ ν} :
    {B : Type κ} (Q : B → Type ν) (b : Bool) (m : Option B)
    → (b ≡ true → Post Q m)
    → Post Q (guard b >> m)
Post-guard Q true m k = k refl
Post-guard Q false m k = tt

-- Of a step of which nothing is to be known.
pub Post-then {ℓ κ ν} :
    {A : Type ℓ} {B : Type κ} (Q : B → Type ν) (m : Option A) (f : A → Option B)
    → ((a : A) → Post Q (f a))
    → Post Q (m >>= f)
Post-then Q none f k = tt
Post-then Q (some a) f k = k a

abbrev pub IsGiven : Text → Type 0
IsGiven s = is_set s ≡ true

pub is_variable-IsGiven : (s : Text) → is_variable s ≡ true → IsGiven s
unfolding is_variable
is_variable-IsGiven [] h = cc
is_variable-IsGiven (c ∷ cs) h = refl

pub parse_variable-IsGiven : (token : Text) → Post IsGiven (parse_variable token)
unfolding parse_variable
parse_variable-IsGiven token =
    Post-if IsGiven (is_variable token) (some token) none (λ e. is_variable-IsGiven token e)
      (λ e. tt)

text_eq-IsGiven : (s : Text) → text_eq s [] ≡ false → IsGiven s
unfolding text_eq
text_eq-IsGiven [] h = cc
text_eq-IsGiven (c ∷ cs) h = refl

pub parse_path_token-IsGiven : (token : Text) → Post IsGiven (parse_path_token token)
unfolding parse_path_token
parse_path_token-IsGiven token =
    let path = trim_space token in
    Post-if IsGiven (text_eq path [] || (has_prefix opening path || is_variable path)) none
      (some path) (λ e. tt) (λ e. text_eq-IsGiven path (ground arith))

abbrev pub AreGiven : List Text → Type 0
AreGiven paths = some_of paths ≡ true

pub parse_paths-AreGiven :
    (tokens : List Text) → AreGiven tokens → Post AreGiven (parse_paths tokens)
unfolding parse_paths
parse_paths-AreGiven [] h = h
parse_paths-AreGiven (token ∷ tokens) h =
    Post-then AreGiven (parse_path_token token) _
      (λ path. Post-then AreGiven (parse_paths tokens) _ (λ paths. refl))

abbrev pub IsUsable : Value → Type 0
IsUsable value = is_usable value ≡ true

variable_with-IsUsable : (name rest : Text) → Post IsUsable (variable_with name rest)
variable_with-IsUsable name [] = refl
variable_with-IsUsable name (c ∷ cs) =
    Post-if IsUsable (c == b'[') (parse_list_selector cs >>= _) none
      (λ e. Post-then IsUsable (parse_list_selector cs) _ (λ selector. refl)) (λ e. tt)

named_value-IsUsable : (s : Text) → Post IsUsable (named_value s)
named_value-IsUsable [] = tt
named_value-IsUsable (d ∷ ds) =
    let parts = span_bytes is_name_byte ds in
    Post-if IsUsable (is_name_start d) (variable_with (b'@' ∷ d ∷ parts.0) parts.1) none
      (λ e. variable_with-IsUsable (b'@' ∷ d ∷ parts.0) parts.1) (λ e. tt)

-- A string value has no selector, and a variable's is absent unless it is written.
abbrev pub IsPlain : Value → Type 0
IsPlain value = value.has_selector ≡ false

triple_value-IsUsable :
    (token : Text) → Post (λ value. IsUsable value × IsPlain value) (triple_value token)
triple_value-IsUsable token =
    Post-then (λ value. IsUsable value × IsPlain value) (parse_triple_bracket token) _
      (λ text. (refl, refl))

pub parse_value-IsUsable : (token : Text) → Post IsUsable (parse_value token)
unfolding parse_value
parse_value-IsUsable [] = tt
parse_value-IsUsable (c ∷ cs) =
    Post-if IsUsable (c == b'@') (named_value cs) (triple_value (c ∷ cs))
      (λ e. named_value-IsUsable cs)
      (λ e. Post-then IsUsable (parse_triple_bracket (c ∷ cs)) _ (λ text. refl))

abbrev pub AreUsable : List Value → Type 0
AreUsable values = all_usable values ≡ true

pub parse_value_list-AreUsable : (tokens : List Text) → Post AreUsable (parse_value_list tokens)
unfolding parse_value_list all_usable
parse_value_list-AreUsable [] = refl
parse_value_list-AreUsable (token ∷ tokens) =
    Post-bind IsUsable AreUsable (parse_value token) _ (parse_value-IsUsable token) (λ value u.
      Post-bind AreUsable AreUsable (parse_value_list tokens) _ (parse_value_list-AreUsable tokens)
        (λ values us. ground arith))

pub parse_value_list-some_of :
    (tokens : List Text)
    → AreGiven tokens
    → Post (λ values. some_of values ≡ true) (parse_value_list tokens)
unfolding parse_value_list
parse_value_list-some_of [] h = h
parse_value_list-some_of (token ∷ tokens) h =
    Post-then (λ values. some_of values ≡ true) (parse_value token) _
      (λ value.
        Post-then (λ values. some_of values ≡ true) (parse_value_list tokens) _ (λ values. refl))

parse_software_arg_value-IsUsable :
    (token : Text) → Post (λ value. IsUsable value × IsPlain value) (parse_software_arg_value token)
unfolding parse_software_arg_value
parse_software_arg_value-IsUsable token =
    let P : Value → Type 0 = λ value. IsUsable value × IsPlain value in
    Post-if P _ (triple_value token) _ (λ e. triple_value-IsUsable token)
      (λ e.
        Post-if P (is_variable token) (some (variable_value token)) (some (string_value token))
          (λ f. (refl, refl)) (λ f. (refl, refl)))

prefixed-IsGiven : (name : Text) → has_prefix (bytes "--") name ≡ true → IsGiven name
unfolding has_prefix
prefixed-IsGiven [] h = cc
prefixed-IsGiven (c ∷ cs) h = refl

kept_by_nothing : (b : Bool) → not (b && false) ≡ true
kept_by_nothing true = refl
kept_by_nothing false = refl

flag_of :
    (name : Text) (value : Value)
    → IsGiven name
    → IsUsable value
    → IsPlain value
    → flag_fits (record { name = name; value = value }) ≡ true
flag_of name value g u p =
    rw (g, u, p) (kept_by_nothing (elim value.kind [ ValueKind.variable ↦ true | _ ↦ false ]))

pub flags_from-fit :
    (accepts : Text → Bool) (seen tokens : List Text)
    → Post (λ flags. all_flags_fit flags ≡ true) (flags_from accepts seen tokens)
unfolding flags_from all_flags_fit
flags_from-fit accepts seen [] = refl
flags_from-fit accepts seen (name ∷ []) = tt
flags_from-fit accepts seen (name ∷ token ∷ tokens) =
    let P : List SoftwareFlag → Type 0 = λ flags. all_flags_fit flags ≡ true in
    Post-if P (has_prefix (bytes "--") name && (accepts name && not (member name seen))) _ none
      (λ e.
        Post-bind (λ value. IsUsable value × IsPlain value) P (parse_software_arg_value token) _
          (parse_software_arg_value-IsUsable token)
          (λ value u.
            Post-bind P P (flags_from accepts (name ∷ seen) tokens) _
              (flags_from-fit accepts (name ∷ seen) tokens)
              (λ flags f.
                rw (flag_of name value (prefixed-IsGiven name (ground arith)) u.0 u.1) f)))
      (λ e. tt)
