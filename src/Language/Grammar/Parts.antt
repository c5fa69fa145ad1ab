-- ===== src/Language/Grammar/Parts.antt =====
-- The parser accepts the parts of a statement.
use satis.Base.{
  ℕ, Text, text_eq, Bool, true, false, ◌==◌, ==_iff, some, List, [], ◌∷◌, ◌++◌, ◌≡◌, ◌≢◌, refl, sym,
  ap, arith,
}
use satis.Base.All.{All}
use satis.Vfs.Names.{trim_space}
use satis.Vfs.Names.Trim.{IsVisible, trim_space_visible}
use satis.Language.Chars.{
  is_variable, is_name_byte, is_name_start, all_bytes, span_bytes, has_prefix, opening, closing,
  triple_bracket_group,
}
use satis.Language.Values.{
  parse_variable, parse_path_token, parse_triple_bracket, parse_value, string_value, variable_value,
}
use satis.Language.Values.Escape.{before_closing-closing}
use satis.Language.Ast.{Value, TargetKind, file, folder, ReadStmt, DeleteSource}
use satis.Language.Parse.Files.{
  parse_target, read_from, parse_optional_as, parse_write_target_token,
}
use satis.Language.Parse.Objects.{parse_delete_source, parse_delete_sources}
use satis.Language.Grammar.{
  IsVariable, IsPath, IsString, brackets, IsValue, literal, name, IsTarget, a_file, a_folder,
  IsSource, of_path, of_object, IsOutput, silent, named, AreSources, done, more,
}

pub parse_target-accepts :
    (token : Text) (kind : TargetKind) → IsTarget token kind → parse_target token ≡ some kind
unfolding parse_target text_eq
parse_target-accepts token file (a_file e) = rw e refl
parse_target-accepts token folder (a_folder e) = rw e refl

pub parse_variable-accepts : (token : Text) → IsVariable token → parse_variable token ≡ some token
unfolding parse_variable
parse_variable-accepts token h = rw h refl

pub parse_optional_as-accepts :
    (out : List Text) (output : Text) → IsOutput out output → parse_optional_as out ≡ some output
unfolding parse_optional_as text_eq
parse_optional_as-accepts out output silent = refl
parse_optional_as-accepts out output (named {token = token} w h) =
    rw w (parse_variable-accepts token h)

nonempty : (s : Text) → s ≢ [] → text_eq s [] ≡ false
unfolding text_eq
nonempty [] h = absurd (h refl)
nonempty (c ∷ cs) h = refl

pub parse_path_token-accepts : (path : Text) → IsPath path → parse_path_token path ≡ some path
unfolding parse_path_token
parse_path_token-accepts path h =
    rw (h.trimmed, nonempty path h.given, h.no_string, h.no_variable) refl

span_bytes-all :
    (test : ℕ → Bool) (s : Text) → all_bytes test s ≡ true → span_bytes test s ≡ (s, [])
unfolding span_bytes all_bytes
span_bytes-all test [] h = refl
span_bytes-all test (c ∷ cs) h =
    let here : test c ≡ true = ground arith in
    rw here (rw (span_bytes-all test cs (ground arith)) refl)

pub parse_value-variable :
    (token : Text) → IsVariable token → parse_value token ≡ some (variable_value token)
unfolding parse_value is_variable
parse_value-variable [] h = cc
parse_value-variable (c ∷ []) h = cc
parse_value-variable (c ∷ d ∷ ds) h =
    let front : c == b'@' ≡ true = ground arith in
    let start : is_name_start d ≡ true = ground arith in
    rw (front, start)
      (rw (span_bytes-all is_name_byte ds (ground arith))
        (ap (λ b. some (variable_value (b ∷ d ∷ ds))) (sym ((==_iff c b'@').0 front))))

pub parse_triple_bracket-accepts :
    (token text : Text) → IsString token text → parse_triple_bracket token ≡ some text
unfolding parse_triple_bracket triple_bracket_group has_prefix
parse_triple_bracket-accepts token text (brackets raw e) = rw (before_closing-closing raw) e

parse_value-literal :
    (token text : Text) → IsString token text → parse_value token ≡ some (string_value text)
unfolding parse_value
parse_value-literal token text (brackets raw e) =
    rw (parse_triple_bracket-accepts (opening ++ raw ++ closing) text (brackets raw e)) refl

pub parse_value-accepts :
    (token : Text) (value : Value) → IsValue token value → parse_value token ≡ some value
parse_value-accepts token value (literal {text = text} h) = parse_value-literal token text h
parse_value-accepts token value (name h) = parse_value-variable token h

name_byte-IsVisible : (c : ℕ) → is_name_byte c ≡ true → IsVisible c
name_byte-IsVisible c h = ground arith

name_bytes-IsVisible : (s : Text) → all_bytes is_name_byte s ≡ true → All IsVisible s
unfolding all_bytes
name_bytes-IsVisible [] h = tt
name_bytes-IsVisible (c ∷ cs) h =
    (name_byte-IsVisible c (ground arith), name_bytes-IsVisible cs (ground arith))

trim_space-variable : (token : Text) → IsVariable token → trim_space token ≡ token
unfolding is_variable
trim_space-variable [] h = cc
trim_space-variable (c ∷ []) h = cc
trim_space-variable (c ∷ d ∷ ds) h =
    trim_space_visible (c ∷ d ∷ ds)
      (ground arith, (ground arith, name_bytes-IsVisible ds (ground arith)))

-- An object or a path, by a test on its token.
pub parse_delete_source-accepts :
    (token object path : Text)
    → IsSource token object path
    → parse_delete_source token ≡ some (record { object_var = object; path = path })
unfolding parse_delete_source
parse_delete_source-accepts token object path (of_path h) =
    rw (h.no_variable) (rw (parse_path_token-accepts path h) refl)
parse_delete_source-accepts token object path (of_object h) = rw h refl

pub read_from-accepts :
    (stmt : ReadStmt) (token object path : Text)
    → stmt.object_var ≡ []
    → stmt.path ≡ []
    → IsSource token object path
    → read_from stmt token ≡ some (record stmt { object_var = object; path = path })
unfolding read_from
read_from-accepts stmt token object path o p (of_path h) =
    rw (h.no_variable) (rw (parse_path_token-accepts path h) (rw o refl))
read_from-accepts stmt token object path o p (of_object h) = rw h (rw p refl)

pub parse_write_target-accepts :
    (token object path : Text)
    → IsSource token object path
    → parse_write_target_token token ≡ some (path, object)
unfolding parse_write_target_token
parse_write_target-accepts token object path (of_path h) =
    rw (h.trimmed) (rw (h.no_variable) (rw (parse_path_token-accepts path h) refl))
parse_write_target-accepts token object path (of_object h) =
    rw (trim_space-variable token h, h) refl

pub parse_delete_sources-accepts :
    (tokens : List Text) (sources : List DeleteSource)
    → AreSources tokens sources
    → parse_delete_sources tokens ≡ some sources
unfolding parse_delete_sources
parse_delete_sources-accepts all_tokens all_sources done = refl
parse_delete_sources-accepts all_tokens all_sources
      (more {token = token} {tokens = tokens} {source = source} {sources = sources} h k) =
    rw (parse_delete_source-accepts token source.object_var source.path h)
      (rw (parse_delete_sources-accepts tokens sources k) refl)
