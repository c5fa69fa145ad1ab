-- ===== src/Language/Validate/Parsed/All.antt =====
-- Every instruction that the parser returns has its form, and what that is for the validator.
use satis.Base.{
  ℕ, Text, bytes, fold_case, equal_fold, Bool, true, false, if◌then◌else◌, Option, none, some, List,
  [], ◌∷◌, ◌≡◌, ◌≢◌,
}
use Prim.Native.String.{String}
use satis.Language.Tokens.{tokenize_command_line}
use satis.Language.Values.Shapes.{Post, Post-if, Post-then, Post-some}
use satis.Language.Ast.{Instruction, SoftwareRegistry}
use satis.Language.Parse.Files.{
  parse_cd, parse_pwd, parse_ls, parse_load_instruction, parse_resolve_instruction,
  parse_read_instruction, parse_print_instruction, parse_concat_instruction,
  parse_write_instruction,
}
use satis.Language.Parse.Objects.{
  parse_create_instruction, parse_object_path_instruction, parse_patch_instruction,
  parse_delete_instruction,
}
use satis.Language.Parse.Calls.{
  parse_invoke_instruction, parse_software_manage_instruction, parse_software_call_instruction,
}
use satis.Language.Parse.Chunks.{made, parse_objects, parse_files, parse_tokens, parse_instruction}
use satis.Language.Validate.{Kinds, check_instruction}
use satis.Language.Validate.Forms.{IsFormed, is_fitting, check_instruction-passes}
use satis.Language.Validate.Parsed.Files.{
  parse_cd-IsGiven, parse_resolve-form, parse_read-form, parse_print-form, parse_concat-form,
  parse_write-form, parse_load-IsFormed,
}
use satis.Language.Validate.Parsed.Objects.{
  parse_create-form, parse_object_path-form, parse_patch-form, parse_delete-form,
}
use satis.Language.Validate.Parsed.Calls.{parse_invoke-IsFormed, parse_software_call-form}

-- A branch of the switch, whose instruction is made from a statement.
Post-made :
    {A : Type 0} (b : Bool) (f : A → Instruction) (o : Option A) (rest : Option Instruction)
    → Post (λ stmt. IsFormed (f stmt)) o
    → Post IsFormed rest
    → Post IsFormed (if b then made f o else rest)
Post-made true f none rest h k = tt
Post-made true f (some stmt) rest h k = h
Post-made false f o rest h k = k

-- A statement whose form says nothing.
any {ℓ} : {A : Type ℓ} (o : Option A) → Post (λ stmt. Unit {0}) o
any none = tt
any (some stmt) = tt

abbrev is : String → Text → Bool
is word head = equal_fold head (bytes word)

parse_objects-IsFormed :
    (registry : SoftwareRegistry) (line : ℕ) (head : Text) (tokens : List Text)
    → Post IsFormed (parse_objects registry line head tokens)
unfolding parse_objects fold_case
parse_objects-IsFormed registry line head tokens =
    Post-made (is "copy" head) Instruction.copy (parse_object_path_instruction line tokens) _
      (parse_object_path-form line tokens)
      (Post-made (is "move" head) Instruction.move (parse_object_path_instruction line tokens) _
        (parse_object_path-form line tokens)
        (Post-made (is "rename" head) Instruction.rename (parse_object_path_instruction line tokens)
          _ (parse_object_path-form line tokens)
          (Post-made (is "delete" head) Instruction.delete (parse_delete_instruction line tokens) _
            (parse_delete-form line tokens)
            (Post-made (is "patch" head) Instruction.patch (parse_patch_instruction line tokens) _
              (parse_patch-form line tokens)
              (Post-if IsFormed (is "invoke" head) (parse_invoke_instruction line tokens) _
                (λ e. parse_invoke-IsFormed line tokens)
                (λ e.
                  Post-made (is "software" head) Instruction.software_manage
                    (parse_software_manage_instruction line tokens) _
                    (any (parse_software_manage_instruction line tokens))
                    (Post-made true Instruction.software_call
                      (parse_software_call_instruction registry line tokens) none
                      (parse_software_call-form registry line tokens) tt)))))))

parse_files-IsFormed :
    (registry : SoftwareRegistry) (line : ℕ) (head : Text) (tokens : List Text)
    → Post IsFormed (parse_files registry line head tokens)
unfolding parse_files fold_case
parse_files-IsFormed registry line head tokens =
    Post-made (is "resolve" head) Instruction.resolve (parse_resolve_instruction line tokens) _
      (parse_resolve-form line tokens)
      (Post-made (is "read" head) Instruction.read (parse_read_instruction line tokens) _
        (parse_read-form line tokens)
        (Post-made (is "create" head) Instruction.create (parse_create_instruction line tokens) _
          (parse_create-form line tokens)
          (Post-made (is "print" head) Instruction.print (parse_print_instruction line tokens) _
            (parse_print-form line tokens)
            (Post-made (is "concat" head) Instruction.concat (parse_concat_instruction line tokens)
              _ (parse_concat-form line tokens)
              (Post-made (is "write" head) Instruction.write (parse_write_instruction line tokens) _
                (parse_write-form line tokens)
                (parse_objects-IsFormed registry line head tokens))))))

parse_tokens-IsFormed :
    (registry : SoftwareRegistry) (line : ℕ) (tokens : List Text)
    → Post IsFormed (parse_tokens registry line tokens)
unfolding parse_tokens fold_case
parse_tokens-IsFormed registry line [] = tt
parse_tokens-IsFormed registry line (head ∷ rest) =
    Post-made (is "cd" head) Instruction.cd (parse_cd line (head ∷ rest)) _
      (parse_cd-IsGiven line (head ∷ rest))
      (Post-made (is "pwd" head) Instruction.pwd (parse_pwd line (head ∷ rest)) _
        (any (parse_pwd line (head ∷ rest)))
        (Post-made (is "ls" head) Instruction.ls (parse_ls line (head ∷ rest)) _
          (any (parse_ls line (head ∷ rest)))
          (Post-if IsFormed (is "load" head) (parse_load_instruction line (head ∷ rest)) _
            (λ e. parse_load-IsFormed line (head ∷ rest))
            (λ e.
              Post-made (is "commit" head) Instruction.commit (parse_pwd line (head ∷ rest)) _
                (any (parse_pwd line (head ∷ rest)))
                (Post-made (is "rollback" head) Instruction.rollback (parse_pwd line (head ∷ rest))
                  _ (any (parse_pwd line (head ∷ rest)))
                  (parse_files-IsFormed registry line head (head ∷ rest)))))))

-- An instruction that parseInstruction returns has the form of its statement.
pub parse_instruction-IsFormed :
    (registry : SoftwareRegistry) (line : ℕ) (text : Text) (stmt : Instruction)
    → parse_instruction registry line text ≡ some stmt
    → IsFormed stmt
unfolding parse_instruction
parse_instruction-IsFormed registry line text stmt e =
    Post-some IsFormed (parse_instruction registry line text) stmt
      (Post-then IsFormed (tokenize_command_line text) _ (parse_tokens-IsFormed registry line)) e

-- The validator lets an instruction through that parseInstruction returns, unless it uses a variable that
-- is known to be a folder as a file, deletes one of the other kind, or has an unknown mode.
pub check_instruction-parsed :
    (registry : SoftwareRegistry) (line : ℕ) (text : Text) (stmt : Instruction) (kinds : Kinds)
    → parse_instruction registry line text ≡ some stmt
    → is_fitting kinds stmt ≡ true
    → check_instruction stmt kinds ≢ none
check_instruction-parsed registry line text stmt kinds e k =
    check_instruction-passes stmt kinds (parse_instruction-IsFormed registry line text stmt e) k
