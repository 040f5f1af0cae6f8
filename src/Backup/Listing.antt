-- ===== src/Backup/Listing.antt =====
-- backup.cc: backup_dir(), the files of a directory that are considered, and their order.
use hbackup.Prelude.{
  ◌+◌, inl, inr, [], ◌∷◌, ◌++◌, List, Bool, true, false, ◌&&◌, ◌||◌, Option, none, some, Bytes,
  codes, bytes_eq, same, if◌then◌else◌, ◌==◌, ltb,
}
use hbackup.Prelude.Dict
use hbackup.Prelude.Dict.{Dict}
use hbackup.Outcome.{Result, ok, err, file_error, warning, and_then}
use hbackup.File.{Device}
use hbackup.Exclude.{Pcre, excluded}
use hbackup.Names.{local_name}
use hbackup.Host.{Host}
use hbackup.Restore.{unknown}
use hbackup.Backup.{Stat, kind_of_mode, Tree, World, Options}

-- The order of std::string.
unfoldable pub before : Bytes → Bytes → Bool
before [] [] = false
before [] (d ∷ t) = true
before (c ∷ s) [] = false
before (c ∷ s) (d ∷ t) = ltb c d || (c == d && before s t)

-- sort()
unfoldable pub insert_name : Bytes → List Bytes → List Bytes
unfolding before
insert_name name [] = name ∷ []
insert_name name (other ∷ names) =
    if before other name then other ∷ insert_name name names else name ∷ other ∷ names

unfoldable pub sort : List Bytes → List Bytes
unfolding insert_name
sort [] = []
sort (name ∷ names) = insert_name name (sort names)

-- `ci`, in the order of the directory, and `s`.
pub record Kept : Type 0 where
  pub ci : List Bytes
  pub s : Dict Bytes Stat

abbrev no_stat : Stat
no_stat = record {
  mode = 0;
  uid = 0;
  gid = 0;
  atime = 0;
  ctime = 0;
  mtime = 0;
  size = 0;
  nlink = 0;
  ino = 0;
  rdev = 0;
}

-- `s[name]`
unfoldable pub stat_of : Kept → Bytes → Stat
unfolding bytes_eq Dict.lookup
stat_of kept name = elim (Dict.lookup name kept.s) [ some sb ↦ sb | none ↦ no_stat ]

module _ (T : Tree) (R : Host) (V N : Device) (P : Pcre) (exclusions : List P.Regex)
    (opts : Options) where
  abbrev pub Now : Type 0
  Now = World T.State R.State V.State N.State

  -- Whether a file is kept, by its type.
  unfoldable pub keep_known : Stat → Now → Result (Option Stat) × Now
  unfolding kind_of_mode
  keep_known sb w = elim (kind_of_mode sb.mode) [
    | unknown ↦ (
      ok none,
      record w {
        users = record w.users { log = warning w.users.log };
        counts = record w.counts { unknown_files = w.counts.unknown_files + 1 };
      },
    )
    | _ ↦ (ok (some sb), w)
  ]

  -- lstat(), where ENOENT is 2.
  unfoldable pub stat_file : Bytes → Now → Result (Option Stat) × Now
  unfolding keep_known
  stat_file fullname w =
      let (found, s) = T.lstat fullname w.tree in
      let w1 = record w { tree = s } in
      elim found [
        | inl sb ↦ keep_known sb w1
        | inr errno ↦
            if errno == 2
            then (ok none, record w1 { users = record w1.users { log = warning w1.users.log } })
            else (err (file_error errno), w1)
      ]

  -- The body of the first loop.
  unfoldable pub inspect : Bytes → Bytes → Now → Result (Option Stat) × Now
  unfolding stat_file local_name excluded bytes_eq
  inspect folder name w =
      if same name (codes ".") || same name (codes "..")
      then (ok none, w)
      else and_then (excluded P exclusions (local_name folder name), w)
          λ out w1.
            if out then (ok none, w1) else stat_file (opts.root ++ b'/' ∷ local_name folder name) w1

  -- The first loop.
  unfoldable pub collect : Bytes → List Bytes → Kept → Now → Result Kept × Now
  unfolding inspect bytes_eq Dict.insert
  collect folder [] kept w = (ok kept, w)
  collect folder (name ∷ c) kept w = and_then (inspect folder name w) λ o w1. elim o [
    | none ↦ collect folder c kept w1
    | some sb ↦
        collect folder c (record { ci = kept.ci ++ name ∷ []; s = Dict.insert name sb kept.s }) w1
  ]
