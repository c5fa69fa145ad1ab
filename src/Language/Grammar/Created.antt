-- ===== src/Language/Grammar/Created.antt =====
-- The parser accepts the statements that create files and folders.
use satis.Base.{
  ℕ, Text, bytes, text_eq, text_eq_iff, fold_case, equal_fold, true, false, ◌==◌, leb, ==_iff,
  Bool-cases, inl, inr, some, List, [], ◌∷◌, ◌++◌, ◌≡◌, ◌≢◌, refl, ap, ◌∙◌, arith,
}
use mathlib.Core.List.{append-nil}
use satis.Language.Chars.{is_variable}
use satis.Language.Values.{parse_paths, cut_at}
use satis.Language.Ast.{TargetKind, file}
use satis.Language.Parse.Files.{parse_as_end}
use satis.Language.Parse.Objects.{count_fold, create_with, create_without, parse_create_instruction}
use satis.Language.Grammar.{
  IsWord, IsVariable, IsString, brackets, IsTarget, IsOutput, silent, named, ArePaths, no_path,
  next_path,
}
use satis.Language.Grammar.Parts.{
  parse_target-accepts, parse_variable-accepts, parse_optional_as-accepts, parse_path_token-accepts,
  parse_triple_bracket-accepts,
}

other_word : (word token : Text) → fold_case token ≢ word → equal_fold token word ≡ false
other_word word token h = elim (Bool-cases (equal_fold token word)) [
  | inr e ↦ e
  | inl e ↦ absurd (h ((text_eq_iff (fold_case token) word).0 e))
]

-- No token folds to a word.
abbrev IsWithout : Text → List Text → Type 0
IsWithout word [] = Unit
IsWithout word (token ∷ tokens) = (equal_fold token word ≡ false) × IsWithout word tokens

cut_at-append :
    (word : Text) (xs ys : List Text)
    → IsWithout word xs
    → cut_at word (xs ++ ys) ≡ (xs ++ (cut_at word ys).0, (cut_at word ys).1)
unfolding cut_at
cut_at-append word [] ys h = refl
cut_at-append word (x ∷ xs) ys h = rw (h.0) (rw (cut_at-append word xs ys h.1) refl)

cut_at-front :
    (word : Text) (xs ys : List Text)
    → IsWithout word xs
    → cut_at word ys ≡ ([], ys)
    → cut_at word (xs ++ ys) ≡ (xs, ys)
cut_at-front word xs ys h e =
    cut_at-append word xs ys h ∙ rw e (ap (λ zs. (zs, ys)) (append-nil xs))

cut_at-nothing : (word : Text) (xs : List Text) → IsWithout word xs → cut_at word xs ≡ (xs, [])
unfolding cut_at
cut_at-nothing word [] h = refl
cut_at-nothing word (x ∷ xs) h = rw (h.0) (rw (cut_at-nothing word xs h.1) refl)

count_fold-append :
    (word : Text) (xs ys : List Text)
    → IsWithout word xs
    → count_fold word (xs ++ ys) ≡ count_fold word ys
unfolding count_fold
count_fold-append word [] ys h = refl
count_fold-append word (x ∷ xs) ys h = rw (h.0) (omega (arith, count_fold-append word xs ys h.1))

count_fold-nothing : (word : Text) (xs : List Text) → IsWithout word xs → count_fold word xs ≡ 0
unfolding count_fold
count_fold-nothing word [] h = refl
count_fold-nothing word (x ∷ xs) h = rw (h.0) (omega (arith, count_fold-nothing word xs h.1))

paths_as : (paths : List Text) → ArePaths paths → IsWithout (bytes "as") paths
paths_as paths no_path = tt
paths_as paths (next_path {path = path} {paths = rest} p a w k) =
    (other_word (bytes "as") path a, paths_as rest k)

paths_with : (paths : List Text) → ArePaths paths → IsWithout (bytes "with") paths
paths_with paths no_path = tt
paths_with paths (next_path {path = path} {paths = rest} p a w k) =
    (other_word (bytes "with") path w, paths_with rest k)

parse_paths-accepts : (paths : List Text) → ArePaths paths → parse_paths paths ≡ some paths
unfolding parse_paths
parse_paths-accepts paths no_path = refl
parse_paths-accepts paths (next_path {path = path} {paths = rest} p a w k) =
    rw (parse_path_token-accepts path p) (rw (parse_paths-accepts rest k) refl)

-- A variable and a string are no words.
variable_as :
    (token : Text)
    → IsVariable token
    → (equal_fold token (bytes "as") ≡ false) × (equal_fold token (bytes "with") ≡ false)
unfolding is_variable fold_case text_eq
variable_as [] h = cc
variable_as (c ∷ []) h = cc
variable_as (c ∷ d ∷ ds) h =
    let front : c == b'@' ≡ true = ground arith in rw ((==_iff c b'@').0 front) (refl, refl)

string_word :
    (token text : Text)
    → IsString token text
    → (equal_fold token (bytes "as") ≡ false) × (equal_fold token (bytes "with") ≡ false)
unfolding fold_case text_eq
string_word token text (brackets raw e) = (refl, refl)

out_with : (out : List Text) (output : Text) → IsOutput out output → IsWithout (bytes "with") out
unfolding text_eq
out_with out output silent = tt
out_with out output (named {token = token} w v) = (rw w refl, ((variable_as token v).1, tt))

out_count :
    (out : List Text) (output : Text)
    → IsOutput out output
    → leb (count_fold (bytes "as") out) 1 ≡ true
unfolding count_fold text_eq
out_count out output silent = refl
out_count out output (named {token = token} w v) = rw (w, (variable_as token v).0) refl

out_cut :
    (out : List Text) (output : Text) → IsOutput out output → cut_at (bytes "as") out ≡ ([], out)
unfolding cut_at text_eq
out_cut out output silent = refl
out_cut out output (named {token = token} w v) = rw w refl

parse_as_end-accepts :
    (out : List Text) (output : Text) → IsOutput out output → parse_as_end out ≡ some output
unfolding parse_as_end
parse_as_end-accepts out output silent = refl
parse_as_end-accepts out output (named {token = token} w v) = parse_variable-accepts token v

-- Behind the paths, and in front of them.
paths_no_with :
    (paths out : List Text) (output : Text)
    → ArePaths paths
    → IsOutput out output
    → IsWithout (bytes "with") (paths ++ out)
paths_no_with paths out output no_path o = out_with out output o
paths_no_with paths out output (next_path {path = path} {paths = rest} p a w k) o =
    (other_word (bytes "with") path w, paths_no_with rest out output k o)

as_count :
    (paths out : List Text) (output : Text)
    → ArePaths paths
    → IsOutput out output
    → leb (count_fold (bytes "as") (paths ++ out)) 1 ≡ true
as_count paths out output ps o =
    rw (count_fold-append (bytes "as") paths out (paths_as paths ps)) (out_count out output o)

create_without-accepts :
    (n : ℕ) (kind : TargetKind) (path : Text) (paths out : List Text) (output : Text)
    → ArePaths (path ∷ paths)
    → IsOutput out output
    → create_without n kind (path ∷ paths ++ out)
      ≡ some (record {
        line = n;
        target_kind = kind;
        paths = path ∷ paths;
        has_content = false;
        content = [];
        output_var = output;
      })
unfolding create_without
create_without-accepts n kind path paths out output ps o =
    rw
      (cut_at-front (bytes "as") (path ∷ paths) out (paths_as (path ∷ paths) ps)
        (out_cut out output o))
      (rw (parse_paths-accepts (path ∷ paths) ps) (rw (parse_as_end-accepts out output o) refl))

pub create-accepts :
    (n : ℕ) (head target : Text) (kind : TargetKind) (path : Text) (paths out : List Text)
    (output : Text)
    → IsTarget target kind
    → ArePaths (path ∷ paths)
    → IsOutput out output
    → parse_create_instruction n (head ∷ target ∷ path ∷ paths ++ out)
      ≡ some (record {
        line = n;
        target_kind = kind;
        paths = path ∷ paths;
        has_content = false;
        content = [];
        output_var = output;
      })
unfolding parse_create_instruction
create-accepts n head target kind path paths out output t ps o =
    let free = paths_no_with (path ∷ paths) out output ps o in
    rw (parse_target-accepts target kind t) (
      rw
        (
          count_fold-nothing (bytes "with") (path ∷ paths ++ out) free,
          as_count (path ∷ paths) out output ps o,
        )
        (rw (cut_at-nothing (bytes "with") (path ∷ paths ++ out) free)
          (create_without-accepts n kind path paths out output ps o)))

-- The clause with the content, behind the paths.
cut_content :
    (word : Text) (rest : List Text)
    → IsWord (bytes "with") word
    → cut_at (bytes "with") (word ∷ rest) ≡ ([], word ∷ rest)
unfolding cut_at text_eq
cut_content word rest w = rw w refl

count_with :
    (word token text : Text) (out : List Text) (output : Text)
    → IsWord (bytes "with") word
    → IsString token text
    → IsOutput out output
    → count_fold (bytes "with") (word ∷ token ∷ out) ≡ 1
unfolding count_fold text_eq
count_with word token text out output w s o =
    rw (w, (string_word token text s).1)
      (omega (arith, count_fold-nothing (bytes "with") out (out_with out output o)))

count_as :
    (word token text : Text) (out : List Text) (output : Text)
    → IsWord (bytes "with") word
    → IsString token text
    → IsOutput out output
    → leb (count_fold (bytes "as") (word ∷ token ∷ out)) 1 ≡ true
unfolding count_fold text_eq
count_as word token text out output w s o =
    let rest = out_count out output o in rw (w, (string_word token text s).0) (ground arith)

create_with-accepts :
    (n : ℕ) (path : Text) (paths : List Text) (word token text : Text) (out : List Text)
    (output : Text)
    → ArePaths (path ∷ paths)
    → IsString token text
    → IsOutput out output
    → create_with n file (path ∷ paths) (word ∷ token ∷ out)
      ≡ some (record {
        line = n;
        target_kind = file;
        paths = path ∷ paths;
        has_content = true;
        content = text;
        output_var = output;
      })
unfolding create_with
create_with-accepts n path paths word token text out output ps s o =
    rw (count_fold-nothing (bytes "as") (path ∷ paths) (paths_as (path ∷ paths) ps)) (
      rw (parse_paths-accepts (path ∷ paths) ps) (
        rw (parse_triple_bracket-accepts token text s)
          (rw (parse_optional_as-accepts out output o) refl)))

pub create_with_content-accepts :
    (n : ℕ) (head target path : Text) (paths : List Text) (word token text : Text) (out : List Text)
    (output : Text)
    → IsTarget target file
    → ArePaths (path ∷ paths)
    → IsWord (bytes "with") word
    → IsString token text
    → IsOutput out output
    → parse_create_instruction n (head ∷ target ∷ path ∷ paths ++ word ∷ token ∷ out)
      ≡ some (record {
        line = n;
        target_kind = file;
        paths = path ∷ paths;
        has_content = true;
        content = text;
        output_var = output;
      })
unfolding parse_create_instruction
create_with_content-accepts n head target path paths word token text out output t ps w s o =
    let clause = word ∷ token ∷ out in
    rw (parse_target-accepts target file t) (
      rw
        (
          count_fold-append (bytes "with") (path ∷ paths) clause (paths_with (path ∷ paths) ps),
          count_fold-append (bytes "as") (path ∷ paths) clause (paths_as (path ∷ paths) ps),
        )
        (rw (count_with word token text out output w s o, count_as word token text out output w s o)
          (rw
            (cut_at-front (bytes "with") (path ∷ paths) clause (paths_with (path ∷ paths) ps)
              (cut_content word (token ∷ out) w))
            (create_with-accepts n path paths word token text out output ps s o))))
