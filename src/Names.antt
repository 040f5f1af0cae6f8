-- ===== src/Names.antt =====
-- How an index names files: backup_dir() of backup.cc writes names, many of them relative, and
-- do_restore() of restore.cc resolves them.
pub mod RoundTrip
use hbackup.Prelude.{
  ℕ, ◌+◌, [], ◌∷◌, ◌++◌, List, Bool, true, false, ◌&&◌, Option, none, some, Bytes, bytes_eq, same,
  codes, length, get_or, take, drop, rfind, ltb, if◌then◌else◌, ◌==◌,
}

-- `dir == "." ? name : dir + "/" + name`
unfoldable pub local_name : Bytes → Bytes → Bytes
unfolding bytes_eq
local_name dir name = if same dir (codes ".") then name else dir ++ b'/' ∷ name

-- The `relname` of a file, by whether it is the first of its directory.
unfoldable pub rel_name : Bool → Bytes → Bytes
unfolding rfind
rel_name true localname = localname
rel_name false localname = elim (rfind b'/' localname) [
  | some n ↦ codes "./" ++ drop (n + 1) localname
  | none ↦ localname
]

-- The names that the loop of backup_dir() writes for one directory.
unfoldable pub written_names : Bool → Bytes → List Bytes → List Bytes
unfolding rel_name local_name
written_names first dir [] = []
written_names first dir (name ∷ names) =
    rel_name first (local_name dir name) ∷ written_names false dir names

-- `name[0] == '.' && name[1] == '/'`
unfoldable pub is_relative : Bytes → Bool
is_relative name = get_or name 0 0 == b'.' && get_or name 1 0 == b'/'

-- The directory part of a name.
unfoldable pub dir_part : Bytes → Bytes
unfolding rfind
dir_part name = elim (rfind b'/' name) [ some n ↦ take n name | none ↦ [] ]

-- What do_restore() makes of a name with its variable `dir`: the name, unless it is refused, and
-- the new `dir`.
unfoldable pub resolve : Bytes → Bytes → Option Bytes × Bytes
unfolding is_relative dir_part
resolve dir name =
    if is_relative name
    then if length dir == 0 then (none, dir) else (some (dir ++ b'/' ∷ drop 2 name), dir)
    else (some name, dir_part name)

-- The names of an index one after the other.
unfoldable pub resolve_all : Bytes → List Bytes → List (Option Bytes)
unfolding resolve
resolve_all dir [] = []
resolve_all dir (name ∷ names) = let (o, dir1) = resolve dir name in o ∷ resolve_all dir1 names
