-- ===== src/Language/Validate/Parsed/Objects.antt =====
-- The forms of create, copy, move, rename, patch and delete.
use satis.Base.{
  ℕ, Text, bytes, text_eq, equal_fold, Bool, true, false, not, ◌&&◌, ◌||◌, ◌==◌, leb, List, [], ◌∷◌,
  ◌≡◌, refl, arith,
}
use satis.Language.Chars.{is_variable}
use satis.Language.Values.{parse_path_token, parse_paths, parse_triple_bracket, cut_at}
use satis.Language.Values.Shapes.{
  Post, Post-if, Post-bind, Post-guard, Post-then, Post-both, IsGiven, AreGiven,
  is_variable-IsGiven, parse_path_token-IsGiven, parse_paths-AreGiven,
}
use satis.Language.Ast.{TargetKind, file, folder, PatchStmt, DeleteSource}
use satis.Language.Parse.Files.{parse_target, parse_as_end, parse_optional_as}
use satis.Language.Parse.Objects.{
  count_fold, is_present, create_with, create_without, parse_create_instruction,
  parse_object_path_instruction, parse_patch_instruction, parse_delete_source, parse_delete_sources,
  keeps_root, parse_delete_instruction,
}
use satis.Language.Validate.{some_of, one_source, all_one_source, root_source, is_set, is_folder}
use satis.Language.Validate.Forms.{CreateForm, ObjectForm, DeleteForm}

create_with-form :
    (line : ℕ) (kind : TargetKind) (tokens rest : List Text)
    → Post CreateForm (create_with line kind tokens rest)
unfolding create_with
create_with-form line folder tokens (with_word ∷ content ∷ rest) =
    Post-guard CreateForm (is_present tokens && count_fold (bytes "as") tokens == 0) _ (λ e. tt)
create_with-form line file tokens (with_word ∷ content ∷ rest) =
    Post-guard CreateForm (is_present tokens && count_fold (bytes "as") tokens == 0) _ (λ e.
      Post-bind AreGiven CreateForm (parse_paths tokens) _
        (parse_paths-AreGiven tokens (ground arith))
        (λ paths g.
          Post-then CreateForm (parse_triple_bracket content) _
            (λ text. Post-then CreateForm (parse_optional_as rest) _ (λ output. (g, refl)))))
create_with-form line kind tokens _ = tt

unused_content : (kind : TargetKind) → (is_folder kind && false) ≡ false
unused_content file = refl
unused_content folder = refl

create_without-form :
    (line : ℕ) (kind : TargetKind) (tokens : List Text)
    → Post CreateForm (create_without line kind tokens)
unfolding create_without
create_without-form line kind tokens =
    let parts = cut_at (bytes "as") tokens in
    Post-guard CreateForm (is_present parts.0) _ (λ e.
      Post-bind AreGiven CreateForm (parse_paths parts.0) _ (parse_paths-AreGiven parts.0 e)
        (λ paths g.
          Post-then CreateForm (parse_as_end parts.1) _ (λ output. (g, unused_content kind))))

pub parse_create-form :
    (line : ℕ) (tokens : List Text) → Post CreateForm (parse_create_instruction line tokens)
unfolding parse_create_instruction
parse_create-form line (t0 ∷ t1 ∷ t2 ∷ tokens) =
    let parts = cut_at (bytes "with") (t2 ∷ tokens) in
    Post-then CreateForm (parse_target t1) _ (λ kind.
      Post-guard CreateForm
        (leb (count_fold (bytes "with") (t2 ∷ tokens)) 1
          && leb (count_fold (bytes "as") (t2 ∷ tokens)) 1)
        _
        (λ e.
          Post-if CreateForm (is_present parts.1) (create_with line kind parts.0 parts.1)
            (create_without line kind (t2 ∷ tokens))
            (λ f. create_with-form line kind parts.0 parts.1)
            (λ f. create_without-form line kind (t2 ∷ tokens))))
parse_create-form line _ = tt

pub parse_object_path-form :
    (line : ℕ) (tokens : List Text) → Post ObjectForm (parse_object_path_instruction line tokens)
unfolding parse_object_path_instruction
parse_object_path-form line (t0 ∷ t1 ∷ t2 ∷ t3 ∷ tokens) =
    Post-guard ObjectForm (is_variable t1 && equal_fold t2 (bytes "to")) _ (λ e.
      Post-bind IsGiven ObjectForm (parse_path_token t3) _ (parse_path_token-IsGiven t3) (λ path g.
        Post-then ObjectForm (parse_optional_as tokens) _
          (λ output. (is_variable-IsGiven t1 (ground arith), g))))
parse_object_path-form line _ = tt

pub parse_patch-form :
    (line : ℕ) (tokens : List Text)
    → Post (λ stmt. IsGiven stmt.object_var) (parse_patch_instruction line tokens)
unfolding parse_patch_instruction
parse_patch-form line (t0 ∷ t1 ∷ t2 ∷ t3 ∷ t4 ∷ t5 ∷ tokens) =
    let P : PatchStmt → Type 0 = λ stmt. IsGiven stmt.object_var in
    Post-guard P
      (is_variable t1 && (equal_fold t2 (bytes "replace") && equal_fold t4 (bytes "with"))) _
      (λ e. Post-then P (parse_triple_bracket t3) _ (λ old_text.
        Post-then P (parse_triple_bracket t5) _ (λ new_text.
          Post-then P (parse_optional_as tokens) _
            (λ output. is_variable-IsGiven t1 (ground arith)))))
parse_patch-form line _ = tt

-- A source is an object or a path, and not both.
abbrev IsSource : DeleteSource → Type 0
IsSource source = one_source source ≡ true

parse_delete_source-IsSource : (token : Text) → Post IsSource (parse_delete_source token)
unfolding parse_delete_source
parse_delete_source-IsSource token =
    Post-if IsSource (is_variable token) _ _ (λ e. rw (is_variable-IsGiven token e) refl)
      (λ e.
        Post-bind IsGiven IsSource (parse_path_token token) _ (parse_path_token-IsGiven token)
          (λ path g. rw g refl))

abbrev AreSources : List DeleteSource → Type 0
AreSources sources = all_one_source sources ≡ true

parse_delete_sources-form : (tokens : List Text) → Post AreSources (parse_delete_sources tokens)
unfolding parse_delete_sources all_one_source
parse_delete_sources-form [] = refl
parse_delete_sources-form (token ∷ tokens) =
    Post-bind IsSource AreSources (parse_delete_source token) _ (parse_delete_source-IsSource token)
      (λ source u.
        Post-bind AreSources AreSources (parse_delete_sources tokens) _
          (parse_delete_sources-form tokens) (λ sources us. rw u us))

-- There is a source for each token.
first_source :
    (token : Text) (tokens : List Text)
    → Post (λ sources. some_of sources ≡ true) (parse_delete_sources (token ∷ tokens))
unfolding parse_delete_sources
first_source token tokens =
    let P : List DeleteSource → Type 0 = λ sources. some_of sources ≡ true in
    Post-then P (parse_delete_source token) _
      (λ source. Post-then P (parse_delete_sources tokens) _ (λ sources. refl))

decided : (b : Bool) → (not b || b) ≡ true
decided true = refl
decided false = refl

empty_or_set : (s : Text) → text_eq s [] ≡ not (is_set s)
unfolding text_eq
empty_or_set [] = refl
empty_or_set (c ∷ cs) = refl

keeps_root-root_source :
    (sources : List DeleteSource) → (not (keeps_root sources) || root_source sources) ≡ true
unfolding text_eq
keeps_root-root_source [] = refl
keeps_root-root_source (source ∷ []) =
    rw (empty_or_set source.object_var) (decided (root_source (source ∷ [])))
keeps_root-root_source (source ∷ next ∷ sources) = refl

pub parse_delete-form :
    (line : ℕ) (tokens : List Text) → Post DeleteForm (parse_delete_instruction line tokens)
unfolding parse_delete_instruction
parse_delete-form line (t0 ∷ t1 ∷ t2 ∷ tokens) =
    let P : List DeleteSource → Type 0 = λ sources. (some_of sources ≡ true) × AreSources sources in
    let known : Post P (parse_delete_sources (t2 ∷ tokens)) =
      Post-both (λ sources. some_of sources ≡ true) AreSources (parse_delete_sources (t2 ∷ tokens))
        (first_source t2 tokens) (parse_delete_sources-form (t2 ∷ tokens)) in
    Post-if DeleteForm (equal_fold t1 (bytes "all")) _ _
      (λ e.
        Post-bind P DeleteForm (parse_delete_sources (t2 ∷ tokens)) _ known
          (λ sources h. (h.0, h.1, keeps_root-root_source sources)))
      (λ e. Post-then DeleteForm (parse_target t1) _ (λ kind.
        Post-bind P DeleteForm (parse_delete_sources (t2 ∷ tokens)) _ known
          (λ sources h. (h.0, h.1, refl))))
parse_delete-form line _ = tt
