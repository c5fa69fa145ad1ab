-- ===== src/Language/Grammar.antt =====
-- The grammar of the statements on files, as a relation between the tokens of a line and its statement. It is
-- the description that the parser (satis/parser.go) is compared with.
pub mod Parts
pub mod Created
pub mod Accepted
use satis.Base.{
  ◌⊎◌, ℕ, Text, bytes, fold_case, Bool, true, false, List, [], ◌∷◌, ◌++◌, ◌≡◌, ◌≢◌, some,
}
use satis.Base.Ints.{pos}
use satis.Vfs.Names.{trim_space}
use satis.Language.Chars.{is_variable, has_prefix, opening, closing}
use satis.Language.Values.{string_value, variable_value, unescape_triple_bracket}
use satis.Language.Ast.{Value, TargetKind, file, folder, DeleteSource, ObjectPathStmt, Instruction}
use satis.Language.Ast

-- A token that is a word in lower case, in any case.
abbrev pub IsWord : Text → Text → Type 0
IsWord word token = fold_case token ≡ word

abbrev pub IsVariable : Text → Type 0
IsVariable token = is_variable token ≡ true

-- A path has no spaces at its ends, is not empty, and is neither a string nor a variable.
pub record IsPath (path : Text) : Type 0 where
  pub trimmed : trim_space path ≡ path
  pub given : path ≢ []
  pub no_string : has_prefix opening path ≡ false
  pub no_variable : is_variable path ≡ false

-- A string between triple brackets, and what it says without its escapes.
pub data IsString : Text → Text → Type 0 where
  brackets :
      (raw : Text)
      → {text : Text} → unescape_triple_bracket raw ≡ some text
      → IsString (opening ++ raw ++ closing) text

-- A string, or a variable without a selector.
pub data IsValue : Text → Value → Type 0 where
  literal : {token : Text} → {text : Text} → IsString token text → IsValue token (string_value text)
  name : {token : Text} → IsVariable token → IsValue token (variable_value token)

pub data IsTarget : Text → TargetKind → Type 0 where
  a_file : {token : Text} → IsWord (bytes "file") token → IsTarget token file
  a_folder : {token : Text} → IsWord (bytes "folder") token → IsTarget token folder

-- An object or a path: the token, the variable and the path.
pub data IsSource : Text → Text → Text → Type 0 where
  of_path : {path : Text} → IsPath path → IsSource path [] path
  of_object : {token : Text} → IsVariable token → IsSource token token []

-- `[as @var]`
pub data IsOutput : List Text → Text → Type 0 where
  silent : IsOutput [] []
  named :
      {word : Text}
      → {token : Text} → IsWord (bytes "as") word
      → IsVariable token
      → IsOutput (word ∷ token ∷ []) token

pub data AreSources : List Text → List DeleteSource → Type 0 where
  done : AreSources [] []
  more :
      {token : Text}
      → {tokens : List Text} → {source : DeleteSource} → {sources : List DeleteSource}
      → IsSource token source.object_var source.path
      → AreSources tokens sources
      → AreSources (token ∷ tokens) (source ∷ sources)

-- `delete all` keeps the root exactly if its one source is the path of the current folder.
pub data KeepsRoot : List DeleteSource → Bool → Type 0 where
  here :
      {source : DeleteSource}
      → source.object_var ≡ []
      → (source.path ≡ bytes ".") ⊎ (source.path ≡ bytes "./")
      → KeepsRoot (source ∷ []) true
  an_object : {source : DeleteSource} → source.object_var ≢ [] → KeepsRoot (source ∷ []) false
  elsewhere :
      {source : DeleteSource}
      → source.path ≢ bytes "."
      → source.path ≢ bytes "./"
      → KeepsRoot (source ∷ []) false
  several :
      {first : DeleteSource}
      → {second : DeleteSource} → {sources : List DeleteSource}
      → KeepsRoot (first ∷ second ∷ sources) false

-- Paths, none of which is a word of the statement.
pub data ArePaths : List Text → Type 0 where
  no_path : ArePaths []
  next_path :
      {path : Text}
      → {paths : List Text} → IsPath path
      → fold_case path ≢ bytes "as"
      → fold_case path ≢ bytes "with"
      → ArePaths paths
      → ArePaths (path ∷ paths)

-- OBJECT to PATH [as @var]
pub data IsTransfer (n : ℕ) : List Text → ObjectPathStmt → Type 0 where
  transfer :
      {object : Text}
      → {word : Text} → {path : Text} → {out : List Text} → {output : Text} → IsVariable object
      → IsWord (bytes "to") word
      → IsPath path
      → IsOutput out output
      → IsTransfer n
          (object ∷ word ∷ path ∷ out)
          (record { line = n; object_var = object; path = path; output_var = output })

-- The statements on the line with a number.
pub data IsStatement (n : ℕ) : List Text → Instruction → Type 0 where
  pwd : {head : Text} → IsWord (bytes "pwd") head → IsStatement n (head ∷ []) (Instruction.pwd n)
  commit :
      {head : Text}
      → IsWord (bytes "commit") head
      → IsStatement n (head ∷ []) (Instruction.commit n)
  rollback :
      {head : Text}
      → IsWord (bytes "rollback") head
      → IsStatement n (head ∷ []) (Instruction.rollback n)
  cd :
      {head : Text}
      → {path : Text} → IsWord (bytes "cd") head
      → IsPath path
      → IsStatement n (head ∷ path ∷ []) (Instruction.cd (record { line = n; path = path }))
  ls :
      {head : Text}
      → {path : Text} → IsWord (bytes "ls") head
      → IsPath path
      → IsStatement n (head ∷ path ∷ []) (Instruction.ls (record { line = n; path = path }))
  resolve :
      {head : Text}
      → {target : Text} → {kind : TargetKind} → {path : Text} → {word : Text} → {output : Text}
      → IsWord (bytes "resolve") head
      → IsTarget target kind
      → IsPath path
      → IsWord (bytes "as") word
      → IsVariable output
      → IsStatement n (head ∷ target ∷ path ∷ word ∷ output ∷ []) (
          Instruction.resolve
            (record { line = n; target_kind = kind; path = path; output_var = output }))
  read :
      {head : Text}
      → {token : Text} → {object : Text} → {path : Text} → {word : Text} → {output : Text}
      → IsWord (bytes "read") head
      → IsSource token object path
      → IsWord (bytes "as") word
      → IsVariable output
      → IsStatement n (head ∷ token ∷ word ∷ output ∷ []) (
          Instruction.read (record {
            line = n;
            object_var = object;
            path = path;
            start_line = pos 0;
            end_line = pos 0;
            output_var = output;
          }))
  print :
      {head : Text}
      → {token : Text} → {value : Value} → IsWord (bytes "print") head
      → IsValue token value
      → IsStatement n (head ∷ token ∷ []) (Instruction.print (record { line = n; value = value }))
  write :
      {head : Text}
      → {token : Text} → {value : Value} → {word : Text} → {target : Text} → {object : Text}
      → {path : Text} → {out : List Text} → {output : Text} → IsWord (bytes "write") head
      → IsValue token value
      → IsWord (bytes "into") word
      → IsSource target object path
      → IsOutput out output
      → IsStatement n (head ∷ token ∷ word ∷ target ∷ out) (
          Instruction.write (record {
            line = n;
            value = value;
            path = path;
            object_var = object;
            output_var = output;
          }))
  copy :
      {head : Text}
      → {tokens : List Text} → {stmt : ObjectPathStmt} → IsWord (bytes "copy") head
      → IsTransfer n tokens stmt
      → IsStatement n (head ∷ tokens) (Instruction.copy stmt)
  move :
      {head : Text}
      → {tokens : List Text} → {stmt : ObjectPathStmt} → IsWord (bytes "move") head
      → IsTransfer n tokens stmt
      → IsStatement n (head ∷ tokens) (Instruction.move stmt)
  rename :
      {head : Text}
      → {tokens : List Text} → {stmt : ObjectPathStmt} → IsWord (bytes "rename") head
      → IsTransfer n tokens stmt
      → IsStatement n (head ∷ tokens) (Instruction.rename stmt)
  patch :
      {head : Text}
      → {object : Text} → {replace : Text} → {old_token : Text} → {old_text : Text}
      → {with_word : Text} → {new_token : Text} → {new_text : Text} → {out : List Text}
      → {output : Text} → IsWord (bytes "patch") head
      → IsVariable object
      → IsWord (bytes "replace") replace
      → IsString old_token old_text
      → IsWord (bytes "with") with_word
      → IsString new_token new_text
      → IsOutput out output
      → IsStatement n (head ∷ object ∷ replace ∷ old_token ∷ with_word ∷ new_token ∷ out) (
          Instruction.patch (record {
            line = n;
            object_var = object;
            old_text = old_text;
            new_text = new_text;
            output_var = output;
          }))
  delete :
      {head : Text}
      → {target : Text} → {kind : TargetKind} → {token : Text} → {tokens : List Text}
      → {sources : List DeleteSource} → IsWord (bytes "delete") head
      → IsTarget target kind
      → AreSources (token ∷ tokens) sources
      → IsStatement n (head ∷ target ∷ token ∷ tokens) (
          Instruction.delete (record {
            line = n;
            target_kind = kind;
            sources = sources;
            delete_all = false;
            delete_all_keep_root = false;
          }))
  delete_all :
      {head : Text}
      → {word : Text} → {token : Text} → {tokens : List Text} → {sources : List DeleteSource}
      → {keep : Bool} → IsWord (bytes "delete") head
      → IsWord (bytes "all") word
      → AreSources (token ∷ tokens) sources
      → KeepsRoot sources keep
      → IsStatement n (head ∷ word ∷ token ∷ tokens) (
          Instruction.delete (record {
            line = n;
            target_kind = folder;
            sources = sources;
            delete_all = true;
            delete_all_keep_root = keep;
          }))
  create :
      {head : Text}
      → {target : Text} → {kind : TargetKind} → (path : Text) → (paths : List Text)
      → (out : List Text) → {output : Text} → IsWord (bytes "create") head
      → IsTarget target kind
      → ArePaths (path ∷ paths)
      → IsOutput out output
      → IsStatement n (head ∷ target ∷ path ∷ paths ++ out) (
          Instruction.create (record {
            line = n;
            target_kind = kind;
            paths = path ∷ paths;
            has_content = false;
            content = [];
            output_var = output;
          }))
  create_with :
      {head : Text}
      → {target : Text} → (path : Text) → (paths : List Text) → (word : Text) → (token : Text)
      → {text : Text} → (out : List Text) → {output : Text} → IsWord (bytes "create") head
      → IsTarget target file
      → ArePaths (path ∷ paths)
      → IsWord (bytes "with") word
      → IsString token text
      → IsOutput out output
      → IsStatement n (head ∷ target ∷ path ∷ paths ++ word ∷ token ∷ out) (
          Instruction.create (record {
            line = n;
            target_kind = file;
            paths = path ∷ paths;
            has_content = true;
            content = text;
            output_var = output;
          }))
