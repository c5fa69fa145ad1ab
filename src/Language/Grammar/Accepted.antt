-- ===== src/Language/Grammar/Accepted.antt =====
-- The parser accepts every statement of the grammar, and returns the statement that it stands for.
use satis.Base.{
  Bool, inl, inr, [], text_eq_iff, arith, ℕ, Text, bytes, text_eq, equal_fold, false, some, List,
  ◌∷◌, ◌≡◌, refl, ap,
}
use satis.Language.Tokens.Quoted.{print_tokens, tokenize_command_line-print_tokens}
use satis.Language.Ast.{ObjectPathStmt, Instruction, SoftwareRegistry, DeleteSource}
use satis.Language.Parse.Files.{
  parse_cd, parse_pwd, parse_ls, parse_resolve_instruction, parse_read_instruction,
  parse_print_instruction, parse_write_instruction,
}
use satis.Language.Parse.Objects.{
  keeps_root, parse_object_path_instruction, parse_patch_instruction, parse_delete_instruction,
}
use satis.Language.Parse.Chunks.{made, parse_objects, parse_files, parse_tokens, parse_instruction}
use satis.Language.Grammar.{
  KeepsRoot, here, an_object, elsewhere, several, IsWord, IsTransfer, transfer, IsStatement,
  IsTarget, a_file, a_folder, AreSources,
}
use satis.Language.Grammar
use satis.Language.Grammar.Created.{create-accepts, create_with_content-accepts}
use satis.Language.Grammar.Parts.{
  parse_target-accepts, parse_variable-accepts, parse_optional_as-accepts, parse_path_token-accepts,
  parse_triple_bracket-accepts, parse_value-accepts, read_from-accepts, parse_write_target-accepts,
  parse_delete_sources-accepts,
}

transfer-accepted :
    (n : ℕ) (head : Text) (tokens : List Text) (stmt : ObjectPathStmt)
    → IsTransfer n tokens stmt
    → parse_object_path_instruction n (head ∷ tokens) ≡ some stmt
unfolding parse_object_path_instruction text_eq
transfer-accepted n head tokens stmt
      (transfer {path = path} {out = out} {output = output} v w p o) =
    rw (v, w)
      (rw (parse_path_token-accepts path p) (rw (parse_optional_as-accepts out output o) refl))

-- A target is not the word `all`.
target_word :
    (target : Text) (kind : _) → IsTarget target kind → equal_fold target (bytes "all") ≡ false
unfolding text_eq
target_word target kind (a_file e) = rw e refl
target_word target kind (a_folder e) = rw e refl

keeps_root-accepts :
    (sources : List DeleteSource) (keep : Bool) → KeepsRoot sources keep → keeps_root sources ≡ keep
unfolding text_eq
keeps_root-accepts sources keep (here {source = source} o (inl e)) =
    ground (arith, text_eq_iff source.object_var [], text_eq_iff source.path (bytes "."))
keeps_root-accepts sources keep (here {source = source} o (inr e)) =
    ground (arith, text_eq_iff source.object_var [], text_eq_iff source.path (bytes "./"))
keeps_root-accepts sources keep (an_object {source = source} o) =
    ground (arith, text_eq_iff source.object_var [])
keeps_root-accepts sources keep (elsewhere {source = source} a b) =
    ground (arith, text_eq_iff source.path (bytes "."), text_eq_iff source.path (bytes "./"))
keeps_root-accepts sources keep several = refl

-- Parsing the tokens of a statement of the grammar gives the statement.
pub parse_tokens-accepts :
    (registry : SoftwareRegistry) (n : ℕ) (tokens : List Text) (stmt : Instruction)
    → IsStatement n tokens stmt
    → parse_tokens registry n tokens ≡ some stmt
unfolding parse_tokens parse_files parse_objects parse_cd parse_pwd parse_ls
    parse_resolve_instruction parse_read_instruction parse_print_instruction parse_write_instruction
    parse_patch_instruction parse_delete_instruction text_eq
parse_tokens-accepts registry n tokens stmt (Grammar.pwd w) = rw w refl
parse_tokens-accepts registry n tokens stmt (Grammar.commit w) = rw w refl
parse_tokens-accepts registry n tokens stmt (Grammar.rollback w) = rw w refl
parse_tokens-accepts registry n tokens stmt (Grammar.cd {path = path} w p) =
    rw w (rw (parse_path_token-accepts path p) refl)
parse_tokens-accepts registry n tokens stmt (Grammar.ls {path = path} w p) =
    rw w (rw (parse_path_token-accepts path p) refl)
parse_tokens-accepts registry n tokens stmt
      (Grammar.resolve {target = target} {kind = kind} {path = path} {output = output} w t p a v) =
    rw (w, a)
      (rw (parse_target-accepts target kind t)
        (rw (parse_path_token-accepts path p) (rw (parse_variable-accepts output v) refl)))
parse_tokens-accepts registry n tokens stmt
      (Grammar.read {token = token} {object = object} {path = path} {output = output} w s a v) =
    rw (w, a)
      (rw (parse_variable-accepts output v)
        (ap (made Instruction.read) (read_from-accepts _ token object path refl refl s)))
parse_tokens-accepts registry n tokens stmt (Grammar.print {token = token} {value = value} w v) =
    rw w (rw (parse_value-accepts token value v) refl)
parse_tokens-accepts registry n tokens stmt
      (Grammar.write {token = token} {value = value} {target = target} {object = object}
        {path = path} {out = out} {output = output} w v i s o) =
    rw (w, i)
      (rw (parse_value-accepts token value v) (
        rw (parse_write_target-accepts target object path s)
          (rw (parse_optional_as-accepts out output o) refl)))
parse_tokens-accepts registry n tokens stmt
      (Grammar.copy {head = head} {tokens = rest} {stmt = copied} w t) =
    rw w (ap (made Instruction.copy) (transfer-accepted n head rest copied t))
parse_tokens-accepts registry n tokens stmt
      (Grammar.move {head = head} {tokens = rest} {stmt = moved} w t) =
    rw w (ap (made Instruction.move) (transfer-accepted n head rest moved t))
parse_tokens-accepts registry n tokens stmt
      (Grammar.rename {head = head} {tokens = rest} {stmt = renamed} w t) =
    rw w (ap (made Instruction.rename) (transfer-accepted n head rest renamed t))
parse_tokens-accepts registry n tokens stmt
      (Grammar.patch {old_token = old_token} {old_text = old_text} {new_token = new_token}
        {new_text = new_text} {out = out} {output = output} w v r s h t o) =
    rw (w, v, r, h)
      (rw (parse_triple_bracket-accepts old_token old_text s) (
        rw (parse_triple_bracket-accepts new_token new_text t)
          (rw (parse_optional_as-accepts out output o) refl)))
parse_tokens-accepts registry n tokens stmt
      (Grammar.delete {target = target} {kind = kind} {token = token} {tokens = rest}
        {sources = sources} w t s) =
    rw (w, target_word target kind t)
      (rw (parse_target-accepts target kind t)
        (rw (parse_delete_sources-accepts (token ∷ rest) sources s) refl))
parse_tokens-accepts registry n tokens stmt
      (Grammar.delete_all {token = token} {tokens = rest} {sources = sources} {keep = keep} w a s
        k) =
    rw (w, a)
      (rw (parse_delete_sources-accepts (token ∷ rest) sources s)
        (rw (keeps_root-accepts sources keep k) refl))
parse_tokens-accepts registry n tokens stmt
      (Grammar.create {head = head} {target = target} {kind = kind} path paths out {output = output}
        w t ps o) =
    rw w (
      ap (made Instruction.create) (create-accepts n head target kind path paths out output t ps o))
parse_tokens-accepts registry n tokens stmt
      (Grammar.create_with {head = head} {target = target} path paths word token {text = text} out
        {output = output} w t ps a s o) =
    rw w (
      ap (made Instruction.create) (
        create_with_content-accepts n head target path paths word token text out output t ps a s o))

-- A line on which every token of a statement of the grammar stands in double quotes parses to this
-- statement: words in any case, paths without spaces at their ends, and strings with their escapes. The
-- statements of the grammar are pwd, commit, rollback, cd, ls, resolve, read without a range of lines,
-- print, write, copy, move, rename, patch, delete and create.
pub parse_instruction-accepts :
    (registry : SoftwareRegistry) (n : ℕ) (tokens : List Text) (stmt : Instruction)
    → IsStatement n tokens stmt
    → parse_instruction registry n (print_tokens tokens) ≡ some stmt
unfolding parse_instruction
parse_instruction-accepts registry n tokens stmt h =
    rw (tokenize_command_line-print_tokens tokens) (parse_tokens-accepts registry n tokens stmt h)
