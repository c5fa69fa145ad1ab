-- ===== src/Language/Validate/Parsed/Files.antt =====
-- The forms of cd, load, resolve, read, print, concat and write.
use satis.Base.{
  ℕ, Text, bytes, equal_fold, true, ◌&&◌, Option, none, some, List, [], ◌∷◌, ◌≡◌, refl,
}
use satis.Vfs.Names.{trim_space}
use satis.Language.Chars.{is_variable, atoi}
use satis.Language.Values.{
  parse_path_token, parse_paths, parse_variable, parse_value, parse_value_list, cut_at,
}
use satis.Language.Values.Shapes.{
  Post, Post-if, Post-bind, Post-guard, Post-then, Post-both, IsGiven, AreGiven, IsUsable,
  AreUsable, parse_variable-IsGiven, is_variable-IsGiven, parse_path_token-IsGiven,
  parse_value-IsUsable, parse_value_list-AreUsable, parse_value_list-some_of,
}
use satis.Language.Ast.{PathStmt, ResolveStmt, LoadStmt, ReadStmt, Instruction}
use satis.Language.Parse.Files.{
  parse_cd, parse_ls, parse_as_end, parse_load_sources, parse_load_instruction, load_cd_of,
  load_ls_of, as_load, parse_target, parse_resolve_instruction, read_from, parse_read_instruction,
  parse_print_instruction, parse_as_output, parse_concat_instruction, parse_write_target_token,
  parse_optional_as, parse_write_instruction, is_line_range,
}
use satis.Language.Validate.{exactly_one, some_of}
use satis.Language.Validate.Forms.{ReadForm, WriteForm, ConcatForm, IsFormed}

pub parse_cd-IsGiven :
    (line : ℕ) (tokens : List Text) → Post (λ stmt. IsGiven stmt.path) (parse_cd line tokens)
unfolding parse_cd
parse_cd-IsGiven line (t0 ∷ t1 ∷ []) =
    Post-bind IsGiven (λ stmt. IsGiven stmt.path) (parse_path_token t1) _
      (parse_path_token-IsGiven t1) (λ path g. g)
parse_cd-IsGiven line _ = tt

parse_load_sources-AreGiven :
    (line : ℕ) (tokens : List Text)
    → Post (λ stmt. AreGiven stmt.sources) (parse_load_sources line tokens)
unfolding parse_load_sources
parse_load_sources-AreGiven line tokens =
    let P : LoadStmt → Type 0 = λ stmt. AreGiven stmt.sources in
    let parts = cut_at (bytes "as") tokens in
    Post-then P (parse_as_end parts.1) _ (λ output.
      Post-then P (parse_paths parts.0) _ (λ sources. Post-guard P (some_of sources) _ (λ e. e)))

pub parse_resolve-form :
    (line : ℕ) (tokens : List Text)
    → Post
        (λ stmt. IsGiven stmt.path × IsGiven stmt.output_var)
        (parse_resolve_instruction line tokens)
unfolding parse_resolve_instruction
parse_resolve-form line (t0 ∷ t1 ∷ t2 ∷ t3 ∷ t4 ∷ []) =
    let P : ResolveStmt → Type 0 = λ stmt. IsGiven stmt.path × IsGiven stmt.output_var in
    Post-guard P (equal_fold t3 (bytes "as")) _ (λ e. Post-then P (parse_target t1) _ (λ kind.
      Post-bind IsGiven P (parse_path_token t2) _ (parse_path_token-IsGiven t2) (λ path g.
        Post-bind IsGiven P (parse_variable t4) _ (parse_variable-IsGiven t4)
          (λ output o. (g, o)))))
parse_resolve-form line _ = tt

read_from-form :
    (stmt : ReadStmt) (token : Text)
    → stmt.path ≡ []
    → stmt.object_var ≡ []
    → IsGiven stmt.output_var
    → Post ReadForm (read_from stmt token)
unfolding read_from
read_from-form stmt token p o g =
    Post-if ReadForm (is_variable token) _ _ (λ e. (g, rw (p, is_variable-IsGiven token e) refl))
      (λ e.
        Post-bind IsGiven ReadForm (parse_path_token token) _ (parse_path_token-IsGiven token)
          (λ path h. (g, rw (o, h) refl)))

pub parse_read-form :
    (line : ℕ) (tokens : List Text) → Post ReadForm (parse_read_instruction line tokens)
unfolding parse_read_instruction
parse_read-form line (t0 ∷ t1 ∷ t2 ∷ t3 ∷ []) =
    Post-guard ReadForm (equal_fold t2 (bytes "as")) _ (λ e.
      Post-bind IsGiven ReadForm (parse_variable t3) _ (parse_variable-IsGiven t3)
        (λ output g. read_from-form _ t1 refl refl g))
parse_read-form line (t0 ∷ t1 ∷ t2 ∷ t3 ∷ t4 ∷ t5 ∷ t6 ∷ []) =
    Post-guard ReadForm (equal_fold t2 (bytes "lines") && equal_fold t5 (bytes "as")) _ (λ e.
      Post-then ReadForm (atoi t3) _ (λ start. Post-then ReadForm (atoi t4) _ (λ last.
        Post-guard ReadForm (is_line_range start last) _ (λ r.
          Post-bind IsGiven ReadForm (parse_variable t6) _ (parse_variable-IsGiven t6)
            (λ output g. read_from-form _ t1 refl refl g)))))
parse_read-form line _ = tt

pub parse_print-form :
    (line : ℕ) (tokens : List Text)
    → Post (λ stmt. IsUsable stmt.value) (parse_print_instruction line tokens)
unfolding parse_print_instruction
parse_print-form line (t0 ∷ t1 ∷ []) =
    Post-bind IsUsable (λ stmt. IsUsable stmt.value) (parse_value t1) _ (parse_value-IsUsable t1)
      (λ value u. u)
parse_print-form line _ = tt

parse_as_output-IsGiven : (tokens : List Text) → Post IsGiven (parse_as_output tokens)
unfolding parse_as_output
parse_as_output-IsGiven (as_word ∷ token ∷ []) = parse_variable-IsGiven token
parse_as_output-IsGiven _ = tt

values_of :
    (tokens : List Text)
    → AreGiven tokens
    → Post (λ values. (some_of values ≡ true) × AreUsable values) (parse_value_list tokens)
values_of tokens h =
    Post-both (λ values. some_of values ≡ true) AreUsable (parse_value_list tokens)
      (parse_value_list-some_of tokens h) (parse_value_list-AreUsable tokens)

pub parse_concat-form :
    (line : ℕ) (tokens : List Text) → Post ConcatForm (parse_concat_instruction line tokens)
unfolding parse_concat_instruction
parse_concat-form line [] = tt
parse_concat-form line (t0 ∷ tokens) =
    let parts = cut_at (bytes "as") tokens in
    Post-guard ConcatForm (some_of parts.0) _ (λ e.
      Post-bind IsGiven ConcatForm (parse_as_output parts.1) _ (parse_as_output-IsGiven parts.1)
        (λ output g.
          Post-bind (λ values. (some_of values ≡ true) × AreUsable values) ConcatForm
            (parse_value_list parts.0) _ (values_of parts.0 e) (λ values u. (g, u.0, u.1))))

-- A path or a variable, and not both.
target-form :
    (token : Text)
    → Post (λ target. exactly_one target.0 target.1 ≡ true) (parse_write_target_token token)
unfolding parse_write_target_token
target-form token =
    let P : Text × Text → Type 0 = λ target. exactly_one target.0 target.1 ≡ true in
    Post-if P (is_variable (trim_space token)) _ _
      (λ e. rw (is_variable-IsGiven (trim_space token) e) refl)
      (λ e.
        Post-bind IsGiven P (parse_path_token (trim_space token)) _
          (parse_path_token-IsGiven (trim_space token)) (λ path g. rw g refl))

pub parse_write-form :
    (line : ℕ) (tokens : List Text) → Post WriteForm (parse_write_instruction line tokens)
unfolding parse_write_instruction
parse_write-form line (t0 ∷ t1 ∷ t2 ∷ t3 ∷ tokens) =
    Post-guard WriteForm (equal_fold t2 (bytes "into")) _ (λ e.
      Post-bind IsUsable WriteForm (parse_value t1) _ (parse_value-IsUsable t1) (λ value u.
        Post-bind (λ target. exactly_one target.0 target.1 ≡ true) WriteForm
          (parse_write_target_token t3) _ (target-form t3)
          (λ target x. Post-then WriteForm (parse_optional_as tokens) _ (λ output. (u, x)))))
parse_write-form line _ = tt

load_cd_of-IsFormed :
    (o : Option PathStmt) → Post (λ stmt. IsGiven stmt.path) o → Post IsFormed (load_cd_of o)
load_cd_of-IsFormed none h = h
load_cd_of-IsFormed (some stmt) h = h

load_ls_of-IsFormed : (o : Option PathStmt) → Post IsFormed (load_ls_of o)
load_ls_of-IsFormed none = tt
load_ls_of-IsFormed (some stmt) = tt

as_load-IsFormed :
    (o : Option LoadStmt) → Post (λ stmt. AreGiven stmt.sources) o → Post IsFormed (as_load o)
as_load-IsFormed none h = h
as_load-IsFormed (some stmt) h = h

pub parse_load-IsFormed :
    (line : ℕ) (tokens : List Text) → Post IsFormed (parse_load_instruction line tokens)
unfolding parse_load_instruction
parse_load-IsFormed line [] = tt
parse_load-IsFormed line (t0 ∷ []) = tt
parse_load-IsFormed line (t0 ∷ t1 ∷ tokens) =
    Post-if IsFormed _ (some (Instruction.load_pwd line)) _ (λ e. tt)
      (λ e.
        Post-if IsFormed (equal_fold t1 (bytes "cd")) (load_cd_of (parse_cd line (t1 ∷ tokens))) _
          (λ f.
            load_cd_of-IsFormed (parse_cd line (t1 ∷ tokens)) (parse_cd-IsGiven line (t1 ∷ tokens)))
          (λ f.
            Post-if IsFormed (equal_fold t1 (bytes "ls")) (load_ls_of (parse_ls line (t1 ∷ tokens)))
              _ (λ g. load_ls_of-IsFormed (parse_ls line (t1 ∷ tokens)))
              (λ g.
                as_load-IsFormed (parse_load_sources line (t1 ∷ tokens))
                  (parse_load_sources-AreGiven line (t1 ∷ tokens)))))
