-- ===== src/Vfs/Memory/Listing/Entries.antt =====
-- What ListDir returns.
use satis.Base.{
  Text, text_eq, Map, insert, word_eq, true, false, Bool-cases, inl, inr, Option, none, some, List,
  [], ◌∷◌, ◌++◌, ◌≡◌, ◌≢◌, refl, subst, arith,
}
use satis.Base.All.{All}
use satis.Base.Sorted.{Ordered, sort_by-Ordered, text_asym, text_eq_comm, All-sort_by, All-map}
use satis.Vfs.Types.{DirEntry, FileKind, Txn, Result, ok, err, kind_directory}
use satis.Vfs.Names.{slash, normalize_virtual_path}
use satis.Vfs.Names.Clean.{IsFree}
use satis.Vfs.Memory.{MemoryService, TxnState, require_txn, lookup_file}
use satis.Vfs.Memory.Listing.{
  Child, Visible, dir_prefix, direct_child, put_entry, add_entry, entries_of, entry_of,
  entry_before, sorted_entries, visible_bindings, is_shown, list_entries, list_dir,
}
use satis.Vfs.Memory.Listing.Parts.{IsChild, direct_child-IsChild}

-- An entry right below a directory.
pub record IsEntry (dir : Text) (e : DirEntry) : Type 0 where
  pub named : e.name ≢ []
  pub flat : IsFree slash e.name
  pub below : e.virtual_path ≡ dir_prefix dir ++ e.name

module _ (dir : Text) where
  abbrev Held : Text × DirEntry → Type 0
  Held x = IsEntry dir (entry_of x)

  All-insert :
      (k : Text) (e : DirEntry) (m : Map Text DirEntry)
      → IsEntry dir e
      → All Held m
      → All Held (insert k e m)
  unfolding insert
  All-insert k e [] p h = (p, tt)
  All-insert k e (x ∷ m) p h = elim (Bool-cases (text_eq x.0 k)) [
    | inl s ↦ rw s (p, h.1)
    | inr s ↦ rw s (h.0, All-insert k e m p h.1)
  ]

  put_entry-Held :
      (child : Child) (path : Text) (kind : FileKind) (m : Map Text DirEntry)
      → IsChild dir path child
      → All Held m
      → All Held (put_entry child kind m)
  put_entry-Held child path kind m c h =
      All-insert _ _ m (record { named = c.named; flat = c.flat; below = c.full }) h

  add_entry-Held :
      (s : MemoryService) (t : TxnState) (b : Visible) (m : Map Text DirEntry)
      → All Held m
      → All Held (add_entry s t dir b m)
  add_entry-Held s t b m h = found (direct_child dir b.path) refl
    where
      found : (o : Option Child) → direct_child dir b.path ≡ o → All Held (add_entry s t dir b m)
      found none e = rw (e, All) h
      found (some child) e =
          let c : IsChild dir b.path child = direct_child-IsChild dir b.path child e in
          elim (Bool-cases child.descends) [
            | inl d ↦ rw (e, d, All) (put_entry-Held child b.path kind_directory m c h)
            | inr d ↦ elim (Bool-cases (is_shown (lookup_file s t b.file_id))) [
              | inl v ↦ rw (e, d, v, All) (put_entry-Held child b.path b.kind m c h)
              | inr v ↦ rw (e, d, v, All) h
            ]
          ]

  entries_of-Held :
      (s : MemoryService) (t : TxnState) (bs : List Visible) (m : Map Text DirEntry)
      → All Held m
      → All Held (entries_of s t dir bs m)
  unfolding entries_of
  entries_of-Held s t [] m h = h
  entries_of-Held s t (b ∷ bs) m h =
      entries_of-Held s t bs (add_entry s t dir b m) (add_entry-Held s t b m h)

entry_before_asym : (a b : DirEntry) → entry_before a b ≡ true → entry_before b a ≡ false
entry_before_asym a b h =
    ground (arith, text_eq_comm a.name b.name, text_asym a.name b.name, text_asym a.kind b.kind)

-- Entries in order, each right below the directory.
pub record IsListing (dir : Text) (entries : List DirEntry) : Type 0 where
  pub children : All (IsEntry dir) entries
  pub ordered : Ordered entry_before entries

sorted_entries-IsListing :
    (s : MemoryService) (t : TxnState) (dir : Text) → IsListing dir (sorted_entries s t dir)
sorted_entries-IsListing s t dir = record {
  children =
      All-sort_by (IsEntry dir) entry_before _
        (All-map (IsEntry dir) entry_of _ (entries_of-Held dir s t (visible_bindings s t) [] tt));
  ordered = sort_by-Ordered entry_before entry_before_asym _;
}

listed :
    (s : MemoryService) (t : TxnState) (path : Text) (entries : List DirEntry)
    → list_entries s t path ≡ ok entries
    → sorted_entries s t (normalize_virtual_path path) ≡ entries
unfolding list_entries
listed s t path entries h = ground arith

-- A listing that ListDir returns is in the order of the names and kinds, and each of its entries is
-- right below the directory: its path is the directory's with a slash and the entry's name, which is
-- not empty and holds no slash.
pub list_dir-IsListing :
    (txn : Txn) (path : Text) (s : MemoryService) (entries : List DirEntry)
    → list_dir txn path s ≡ ok entries
    → IsListing (normalize_virtual_path path) entries
unfolding list_dir
list_dir-IsListing txn path s entries h = required (require_txn txn s) refl
  where
    required :
        (r : Result TxnState)
        → require_txn txn s ≡ r
        → IsListing (normalize_virtual_path path) entries
    required (err x) e = absurd (cc (rw (e, list_dir) at h))
    required (ok t) e =
        subst (IsListing (normalize_virtual_path path))
          (listed s t path entries (rw (e, list_dir) at h))
          (sorted_entries-IsListing s t (normalize_virtual_path path))
