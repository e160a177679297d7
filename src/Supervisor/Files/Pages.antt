-- ===== src/Supervisor/Files/Pages.antt =====
-- internal/supervisor: what a listing shows, and of which directory.
use lemul.Prelude.{ℕ, ◌+◌, ◌≡◌, List, [], ◌∷◌, ◌++◌, Option, some, true, ◌⊎◌, ltb, length, drop}
use lemul.Prelude.Text.{Bytes}
use lemul.Prelude.Int.{pos}
use lemul.Supervisor.Files.{DirEntry, DirListing, directory, Disk, Request, limit_of, page}

-- The root itself, or a path below it.
pub data Below (root : Bytes) : Bytes → Type 0 where
  itself : Below root root
  below : (rest : Bytes) → Below root (root ++ (b'/' ∷ rest))

-- The rows of names, one for each.
pub data Rows (lstat : Bytes → Option DirEntry) : List Bytes → List DirEntry → Type 0 where
  no_rows : Rows lstat [] []
  row :
      (name : Bytes) (names : List Bytes) (e : DirEntry) (es : List DirEntry)
      → lstat name ≡ some e
      → Rows lstat names es
      → Rows lstat (name ∷ names) (e ∷ es)

-- A request that is answered with a listing.
abbrev pub Answer : Disk → Bytes → Request → DirListing → Type 0
Answer d root r l =
    (real_root : Bytes) × (abs : Bytes) × (names : List Bytes) × (offset : ℕ) × (d.eval_symlinks
        root
      ≡ some real_root)
    × (d.eval_symlinks (d.joined real_root r.path) ≡ some abs)
    × Below real_root abs
    × (d.open_dir abs ≡ directory names)
    × (r.offset ≡ pos offset)
    × (l.entries ≡ page (d.lstat abs) (limit_of r.limit) (drop offset names))
    × (l.total ≡ length names)
    × (l.truncated ≡ ltb (offset + length l.entries) (length names))
    × ((l.truncated ≡ true) ⊎ Rows (d.lstat abs) (drop offset names) l.entries)
