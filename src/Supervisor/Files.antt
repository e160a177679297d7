-- ===== src/Supervisor/Files.antt =====
-- internal/supervisor/fsjail.go, supervisor.go: the file explorer's jail and its pages. The file system
-- and package filepath are arguments: EvalSymlinks, the lexical Join of a root and a cleaned relative
-- path, Rel, Stat, ReadDir and Lstat. A path is the list of its bytes.
pub mod Pages
use lemul.Prelude.{
  ℕ, zero, suc, ◌+◌, ◌≤◌, ◌<◌, ◌≡◌, refl, sym, ap, ◌∙◌, List, [], ◌∷◌, ◌++◌, Option, none, some,
  Bool, true, false, ◌||◌, ltb, if◌then◌else◌, length, take, drop, arith,
}
use lemul.Prelude.Text.{Bytes, bytes, equal, has_prefix}
use lemul.Prelude.Int.{ℤ, pos, negsuc}

unfoldable pub within_root : Bytes → Bytes → Bool
within_root root path = equal path root || has_prefix path (root ++ (b'/' ∷ []))

-- A row of the listing, with the kinds of information that Lstat gives.
pub record DirEntry : Type 0 where
  pub name : Bytes
  pub is_dir : Bool
  pub size : ℤ
  pub mode : ℕ
  pub mod_time : ℕ
  pub is_symlink : Bool

pub record DirListing : Type 0 where
  pub path : Bytes
  pub entries : List DirEntry
  pub total : ℕ
  pub truncated : Bool

-- What os.Stat and os.ReadDir say of a path.
pub data Opened : Type 0 where
  stat_failed not_a_dir read_failed : Opened
  directory : List Bytes → Opened

pub record Disk : Type 0 where
  pub eval_symlinks : Bytes → Option Bytes
  pub joined : Bytes → Bytes → Bytes
  pub rel : Bytes → Bytes → Option Bytes
  pub open_dir : Bytes → Opened
  pub lstat : Bytes → Bytes → Option DirEntry

pub data Refusal : Type 0 where
  bad_request no_root root_failed path_failed outside_root open_failed no_dir : Refusal

pub data Resolved : Type 0 where
  refused : Refusal → Resolved
  resolved : Bytes → Resolved

unfoldable pub inside_on : Bytes → Option Bytes → Resolved
inside_on real_root none = refused path_failed
inside_on real_root (some real) =
    if within_root real_root real then resolved real else refused outside_root

unfoldable pub root_on : Disk → Bytes → Option Bytes → Resolved
root_on d rel none = refused root_failed
root_on d rel (some real_root) = inside_on real_root (d.eval_symlinks (d.joined real_root rel))

-- resolveInRoot
unfoldable pub resolve_in_root : Disk → Bytes → Bytes → Resolved
resolve_in_root d [] rel = refused no_root
resolve_in_root d (c ∷ root) rel = root_on d rel (d.eval_symlinks (c ∷ root))

unfoldable pub shown : Option Bytes → Bytes
shown none = bytes "/"
shown (some r) = if equal r (bytes ".") then bytes "/" else b'/' ∷ r

unfoldable pub real_or : Option Bytes → Bytes → Bytes
real_or none root = root
real_or (some real) root = real

unfoldable pub display_path : Disk → Bytes → Bytes → Bytes
unfolding shown real_or
display_path d root abs = shown (d.rel (real_or (d.eval_symlinks root) root) abs)

abbrev pub max_dir_entries : ℕ
max_dir_entries = 1000

unfoldable pub limit_of : ℤ → ℕ
limit_of (pos zero) = max_dir_entries
limit_of (pos (suc n)) = if ltb max_dir_entries (suc n) then max_dir_entries else suc n
limit_of (negsuc n) = max_dir_entries

unfoldable pub row_on : Option DirEntry → (ℕ → List DirEntry) → ℕ → List DirEntry
row_on none rest n = rest (suc n)
row_on (some e) rest n = e ∷ rest n

-- The loop, for the names from the offset on: a name that Lstat fails on is passed over.
unfoldable pub page : (Bytes → Option DirEntry) → ℕ → List Bytes → List DirEntry
unfolding row_on
page lstat n [] = []
page lstat zero (name ∷ names) = []
page lstat (suc n) (name ∷ names) = row_on (lstat name) (λ k. page lstat k names) n

pub data Listed : Type 0 where
  error : Refusal → Listed
  panicked : Listed
  listed : DirListing → Listed

-- tunnel.ListDir
pub record Request : Type 0 where
  pub path : Bytes
  pub offset : ℤ
  pub limit : ℤ

unfoldable pub listing : Bytes → List DirEntry → ℕ → ℕ → Listed
listing path rows offset total = listed record {
  path = path;
  entries = rows;
  total = total;
  truncated = ltb (offset + length rows) total;
}

-- The entries of a directory `abs`; an offset below zero indexes the slice out of its bounds.
unfoldable pub entries_on : Disk → Bytes → Bytes → ℤ → ℕ → List Bytes → Listed
unfolding listing
entries_on d root abs (negsuc n) limit names = panicked
entries_on d root abs (pos n) limit names =
    listing (display_path d root abs) (page (d.lstat abs) limit (drop n names)) n (length names)

unfoldable pub opened_on : Disk → Bytes → Request → Bytes → Opened → Listed
opened_on d root r abs stat_failed = error open_failed
opened_on d root r abs not_a_dir = error no_dir
opened_on d root r abs read_failed = error open_failed
opened_on d root r abs (directory names) = entries_on d root abs r.offset (limit_of r.limit) names

unfoldable pub resolved_on : Disk → Bytes → Request → Resolved → Listed
resolved_on d root r (refused why) = error why
resolved_on d root r (resolved abs) = opened_on d root r abs (d.open_dir abs)

-- handleListDir, up to the reply; `none` is a message that does not decode.
unfoldable pub handle_list_dir : Disk → Bytes → Option Request → Listed
handle_list_dir d root none = error bad_request
handle_list_dir d root (some r) = resolved_on d root r (resolve_in_root d root r.path)
