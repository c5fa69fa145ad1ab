-- ===== src/Vfs/Memory/Samples.antt =====
-- Runs of the service on small inputs: a transaction creates `/a`, and each operation is then
-- carried out on it.
use satis.Base.{
  Text, bytes, text_eq, text_eq_iff, lookup, insert, remove, word_eq, decimal, false, Option, some,
  none, List, [], ◌∷◌, ◌≡◌, ◌≢◌, refl, arith, inl,
}
use satis.Base.Ints.{pos}
use satis.Vfs.Types.{
  Time, Txn, CreateInput, WriteInput, ReadInput, ResolveInput, DeleteInput, RenameInput,
  PatchTextInput, Result, ok, err, FileRef, kind_text, mode_append, mode_patch_text, txn_mismatch,
  active, ReadResult,
}
use satis.Vfs.Types.{DirEntry}
use satis.Vfs.Names.{split_path_kind_key, path_kind_key, normalize_virtual_path}
use satis.Vfs.Memory.{
  MemoryFile, require_txn, resolve_path, resolve_key, resolve_path_input, lookup_file, Env,
  MemoryService, TxnState, MemoryContent, new_memory_service, resolve,
}
use satis.Vfs.Memory.Exec.{Ctx}
use satis.Vfs.Memory.Content.{
  next_content, patched, of_text, count_from, replace_first, is_binary, payload_bytes,
}
use satis.Vfs.Memory.Content.Patch.{next_content-IsReplaced, IsReplaced}
use satis.Vfs.Memory.Listing.{list_dir}
use satis.Vfs.Memory.Listing.Entries.{IsListing, list_dir-IsListing}
use satis.Vfs.Memory.Edit.{
  current_content, create_body, write_body, delete_body, rename_body, read_body,
}
use satis.Vfs.Memory.Sound.{IsSound}
use satis.Vfs.Memory.Txns.{commit_chunk_txn}
use satis.Vfs.Memory.Txns.Commits.{IsCommitted, commit_publishes, commit_conflict, commit_fails}
use satis.Vfs.Memory.Calls.{Call, begin_txn, edit, create_file, write_file, run, run_edit, serve}
use satis.Vfs.Memory.Calls.Apart.{SameCommitted, run-SameCommitted, run_edit-others}
use satis.Vfs.Memory.Calls.Closed.{IsRefused, no_use_after_close}
use satis.Vfs.Memory.Calls.Sound.{IsService}
use satis.Vfs.Memory.Calls.Histories.{serve-IsService}
use satis.Vfs.Memory.Effects.Writes.{IsWritten, write_body-IsWritten}
use satis.Vfs.Memory.Effects.Reads.{read-write, read_bytes}
use satis.Vfs.Memory.Effects.Creates.{IsCreated, create_body-IsCreated}
use satis.Vfs.Memory.Effects.Names.{IsMoved, IsGone, rename_body-IsMoved, delete_body-IsGone}

abbrev digest : Text → Text
digest s = s

abbrev env : Env
env = record { now = 5; sha256_hex = digest }

abbrev txn : Txn
txn = record { id = bytes "txn_1"; chunk_id = bytes "c"; started_at = 1 }

abbrev other : Txn
other = record { id = bytes "txn_2"; chunk_id = bytes "d"; started_at = 2 }

abbrev create_input : Text → CreateInput
create_input path = record {
  virtual_path = path;
  kind = kind_text;
  content_type = [];
  creator_chunk_id = bytes "c";
  parent_lineage = [];
  initial_text = bytes "hi";
  initial_blob = [];
}

abbrev at_path : Text → ResolveInput
at_path path = record { virtual_path = path; expected_kind = kind_text; file_id = [] }

abbrev write_input : WriteInput
write_input = record {
  target = at_path (bytes "/a");
  writer_chunk_id = bytes "c";
  mode = mode_append;
  text = bytes " you";
  blob = [];
  patch_text = none;
}

abbrev history : List (Time × Call)
history =
    (1, begin_txn (bytes "c"))
    ∷ (2, begin_txn (bytes "d"))
    ∷ (3, edit txn (create_file (create_input (bytes "/a"))))
    ∷ []

-- The service with the two transactions open.
abbrev opened : MemoryService
opened = serve digest history new_memory_service

abbrev state_of : Option TxnState → TxnState
state_of (some t) = t
state_of none = record {
  txn = txn;
  base_rev = 0;
  files = [];
  path_index = [];
  deleted_paths = [];
  pending_evts = [];
}

abbrev first : TxnState
first = state_of (lookup txn.id opened.txns)

abbrev second : TxnState
second = state_of (lookup other.id opened.txns)

abbrev here : Ctx
here = record { service = opened; state = first }

abbrev no_ref : FileRef
no_ref = record {
  file_id = [];
  virtual_path = [];
  kind = [];
  content_type = [];
  current_generation = 0;
  delete_state = active;
  resolved_at = 0;
}

abbrev ref_of : Result FileRef → FileRef
ref_of (ok ref) = ref
ref_of (err e) = no_ref

apart : txn.id ≢ other.id
unfolding text_eq
apart e = cc ((text_eq_iff txn.id other.id).1 e)

first_lem : lookup txn.id opened.txns ≡ some first
unfolding serve lookup require_txn insert decimal resolve_path resolve_key resolve
    resolve_path_input remove path_kind_key normalize_virtual_path lookup_file next_content
first_lem = refl

here-IsSound : IsSound digest here
unfolding serve lookup require_txn insert decimal resolve_path resolve_key resolve
    resolve_path_input remove path_kind_key normalize_virtual_path lookup_file next_content
here-IsSound =
    ((serve-IsService digest history (omega arith)).open_txns txn.id first first_lem).sound refl

serve-IsService_example : IsService digest opened
serve-IsService_example = serve-IsService digest history (omega arith)

abbrev created : Ctx
created = (create_body env (create_input (bytes "/b")) here).1

abbrev created_ref : FileRef
created_ref = ref_of (create_body env (create_input (bytes "/b")) here).0

create_body-IsCreated_example :
    IsCreated env (create_input (bytes "/b")) here created created_ref.file_id
unfolding serve lookup require_txn insert decimal resolve_path resolve_key resolve
    resolve_path_input remove path_kind_key normalize_virtual_path lookup_file next_content
create_body-IsCreated_example =
    create_body-IsCreated env (create_input (bytes "/b")) here created created_ref here-IsSound
      (omega arith) refl

abbrev written : Ctx
written = (write_body env write_input here).1

abbrev written_ref : FileRef
written_ref = ref_of (write_body env write_input here).0

write_body-IsWritten_example :
    (f : MemoryFile) × (g : MemoryFile) × IsWritten env write_input here written f g
unfolding serve lookup require_txn insert decimal resolve_path resolve_key resolve
    resolve_path_input remove path_kind_key normalize_virtual_path lookup_file next_content
write_body-IsWritten_example =
    write_body-IsWritten env write_input here written written_ref here-IsSound refl

abbrev read_input : ReadInput
read_input = record {
  target = at_path (bytes "/a");
  generation = 0;
  view = record { mode = []; start_line = pos 0; end_line = pos 0 };
}

read-write_example :
    (f : MemoryFile) × (v : MemoryContent) × (res : ReadResult) × (resolve here.service here.state
        write_input.target false
      ≡ ok f)
    × (next_content f.meta.kind (current_content f) write_input ≡ ok v)
    × ((read_body env txn read_input written).0 ≡ ok res)
    × (read_bytes (is_binary f.meta.kind) res ≡ payload_bytes f.meta.kind v)
unfolding serve lookup require_txn insert decimal resolve_path resolve_key resolve
    resolve_path_input remove path_kind_key normalize_virtual_path lookup_file next_content
read-write_example =
    read-write env txn write_input read_input here written written_ref here-IsSound refl refl refl
      refl

abbrev delete_input : DeleteInput
delete_input = record { target = at_path (bytes "/a"); chunk_id = bytes "c"; reason = [] }

abbrev gone : Ctx
gone = (delete_body env delete_input here).1

abbrev gone_ref : FileRef
gone_ref = ref_of (delete_body env delete_input here).0

delete_body-IsGone_example : (f : MemoryFile) × IsGone env delete_input here gone f
unfolding serve lookup require_txn insert decimal resolve_path resolve_key resolve
    resolve_path_input remove path_kind_key normalize_virtual_path lookup_file next_content
delete_body-IsGone_example =
    delete_body-IsGone env delete_input here gone gone_ref here-IsSound refl

abbrev rename_input : RenameInput
rename_input = record {
  target = at_path (bytes "/a");
  new_virtual_path = bytes "/z";
  chunk_id = bytes "c";
}

abbrev moved : Ctx
moved = (rename_body env rename_input here).1

abbrev moved_ref : FileRef
moved_ref = ref_of (rename_body env rename_input here).0

rename_body-IsMoved_example : (f : MemoryFile) × IsMoved env rename_input here moved f
unfolding serve lookup require_txn insert decimal resolve_path resolve_key resolve
    resolve_path_input remove path_kind_key normalize_virtual_path lookup_file next_content
rename_body-IsMoved_example =
    rename_body-IsMoved env rename_input here moved moved_ref here-IsSound refl

commit_publishes_example :
    (s' : MemoryService) × (commit_chunk_txn first.txn opened ≡ (ok tt, s'))
    × IsCommitted first opened s'
unfolding serve lookup require_txn insert decimal resolve_path resolve_key resolve
    resolve_path_input remove path_kind_key normalize_virtual_path lookup_file next_content
commit_publishes_example =
    commit_publishes first opened first_lem refl (omega arith) here-IsSound.overlay

abbrev committed : MemoryService
committed = (commit_chunk_txn first.txn opened).1

commit_conflict_example : commit_chunk_txn second.txn committed ≡ (err txn_mismatch, committed)
unfolding serve lookup require_txn insert decimal resolve_path resolve_key resolve
    resolve_path_input remove path_kind_key normalize_virtual_path lookup_file next_content
commit_conflict_example =
    commit_conflict first second opened committed apart refl refl (omega arith) refl

commit_fails_example : (commit_chunk_txn second.txn committed).1 ≡ committed
unfolding serve lookup require_txn insert decimal resolve_path resolve_key resolve
    resolve_path_input remove path_kind_key normalize_virtual_path lookup_file next_content
commit_fails_example = commit_fails second.txn committed {e = txn_mismatch} refl

abbrev later_calls : List (Time × Call)
later_calls =
    (7, edit other (create_file (create_input (bytes "/c"))))
    ∷ (8, edit txn (write_file write_input))
    ∷ (9, begin_txn (bytes "e"))
    ∷ []

no_use_after_close_example : IsRefused env first.txn (serve digest later_calls committed)
unfolding serve lookup require_txn insert decimal resolve_path resolve_key resolve
    resolve_path_input remove path_kind_key normalize_virtual_path lookup_file next_content
no_use_after_close_example =
    no_use_after_close digest env first.txn 1 opened committed later_calls refl (omega arith)
      (omega arith) (inl refl)

run-SameCommitted_example :
    SameCommitted opened (run env (edit txn (write_file write_input)) opened)
run-SameCommitted_example = run-SameCommitted env (edit txn (write_file write_input)) opened refl

run_edit-others_example :
    lookup other.id (run_edit env txn (write_file write_input) opened).txns
    ≡ lookup other.id opened.txns
unfolding serve lookup require_txn insert decimal resolve_path resolve_key resolve
    resolve_path_input remove path_kind_key normalize_virtual_path lookup_file next_content
run_edit-others_example = run_edit-others env txn (write_file write_input) opened other.id apart

abbrev patch : PatchTextInput
patch = record { old_text = bytes "hi"; new_text = bytes "bye" }

abbrev patch_input : WriteInput
patch_input = record write_input { mode = mode_patch_text; patch_text = some patch }

next_content-IsReplaced_example :
    (count_from 0 (bytes "oh hi") (bytes "hi") ≡ 1)
    × IsReplaced (bytes "hi") (bytes "bye") (bytes "oh hi") (bytes "oh bye")
unfolding next_content count_from replace_first patched
next_content-IsReplaced_example =
    next_content-IsReplaced kind_text (of_text (bytes "oh hi")) (of_text (bytes "oh bye"))
      patch_input patch refl refl refl

abbrev root_entries : List DirEntry
root_entries = record { name = bytes "a"; virtual_path = bytes "/a"; kind = kind_text } ∷ []

list_dir-IsListing_example : IsListing (normalize_virtual_path (bytes "/")) root_entries
unfolding serve lookup require_txn insert decimal resolve_path resolve_key remove path_kind_key
    normalize_virtual_path lookup_file list_dir split_path_kind_key
list_dir-IsListing_example = list_dir-IsListing txn (bytes "/") opened root_entries refl
