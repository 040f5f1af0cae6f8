-- ===== src/Backup/Command.antt =====
-- backup.cc: backup_dir() and do_backup() as a whole, and load_hints().
use hbackup.Prelude.{
  ℕ, zero, suc, [], ◌∷◌, ◌++◌, List, true, false, none, some, Bytes, codes, bytes_eq, same,
  if◌then◌else◌,
}
use hbackup.Prelude.Dict
use hbackup.Prelude.Dict.{Dict}
use hbackup.Outcome.{Result, ok, fatal, and_then}
use hbackup.Utils.Hex.{hashdecode}
use hbackup.Utils.Index.{Details, read_details}
use hbackup.Numbers.{strtoull}
use hbackup.Users.{Database}
use hbackup.File.{Device, File, new_file, flush}
use hbackup.Exclude.{Pcre}
use hbackup.Hashing.{Sha1}
use hbackup.Host.{Host}
use hbackup.Clean.Command.{hash_name}
use hbackup.Restore.{detail}
use hbackup.Backup.{Hint, Tree, World, Options, on_tree}
use hbackup.Backup.Listing.{sort, collect}
use hbackup.Backup.Objects.{put_index, put_hint, put_files}
use hbackup.Backup.Store.{on_repository, store_files}

-- Calls of File *, and the names that the options give: opening the index for writing, the new hints
-- for writing, and the old hints for reading.
pub record Opening (S T : Type 0) (V N O : Device) : Type 0 where
  pub open_index : Bytes → T → Result V.State × T
  pub open_newhints : Bytes → S → Result N.State × S
  pub open_hints : Bytes → S → Result O.State × S

module _ (T : Tree) (R : Host) (V N O : Device) (S : Sha1) (P : Pcre) (exclusions : List P.Regex)
    (opts : Options) (passwd group : Database) (word : Bytes → ℕ)
    (opening : Opening T.State R.State V N O) where
  abbrev pub Now : Type 0
  Now = World T.State R.State V.State N.State

  -- backup_dir() as far as the subdirectories, which it returns.
  unfoldable pub backup_here : ℕ → Bytes → Now → Result (List Bytes) × Now
  unfolding bytes_eq on_tree collect sort put_files store_files
  backup_here fuel folder w =
      let fulldir = opts.root ++ (if same folder (codes ".") then [] else b'/' ∷ folder) in
      and_then (on_tree (T.contents fulldir) (record w { first = true; dirs = []; hashables = [] }))
        λ c w1.
          and_then (collect T R V N P exclusions opts folder c (record { ci = []; s = [] }) w1)
            λ kept w2.
              and_then (put_files T R V N opts passwd group word folder kept (sort kept.ci) w2)
                λ _ w3.
                  and_then (store_files T R V N S opts fuel w3.hashables w3)
                    (λ _ w4. (ok w4.dirs, w4))

  -- The last loop.
  unfoldable pub each :
      (Bytes → Now → Result (Unit {0}) × Now) → List Bytes → Now → Result (Unit {0}) × Now
  each visit [] w = (ok tt, w)
  each visit (folder ∷ dirs) w = and_then (visit folder w) (λ _ w1. each visit dirs w1)

  -- backup_dir(), with fuel for the depth of the directories.
  unfoldable pub backup_dir : ℕ → ℕ → Bytes → Now → Result (Unit {0}) × Now
  unfolding backup_here each
  backup_dir fuel zero folder w = (fatal, w)
  backup_dir fuel (suc depth) folder w =
      and_then (backup_here fuel folder w) (λ dirs w1. each (backup_dir fuel depth) dirs w1)

  -- The body of the loop of load_hints().
  unfoldable pub load_hint : Details → Dict Bytes Hint → Now → Result (Dict Bytes Hint) × Now
  unfolding hashdecode detail strtoull bytes_eq Dict.insert
  load_hint details hints w =
      let (r, l) = hashdecode (detail details hash_name) w.users.log in
      and_then (r, record w { users = record w.users { log = l } })
        λ h w1. (
          ok (
              Dict.insert (detail details (codes "name"))
                (record {
                  hash = h;
                  ctime = strtoull (detail details (codes "ctime"));
                  mtime = strtoull (detail details (codes "mtime"));
                  size = strtoull (detail details (codes "size"));
                })
                hints),
          w1,
        )

  unfoldable pub load_loop : ℕ → ℕ → File O → Dict Bytes Hint → Now → Result (Dict Bytes Hint) × Now
  unfolding read_details load_hint
  load_loop fuel zero f hints w = (fatal, w)
  load_loop fuel (suc n) f hints w =
      let (r, rd) = read_details O fuel (record { file = f; log = w.users.log }) in
      and_then (r, record w { users = record w.users { log = rd.log } })
        λ o w1. elim o [
          | none ↦ (ok hints, w1)
          | some details ↦
              and_then (load_hint details hints w1)
                (λ hints1 w2. load_loop fuel n rd.file hints1 w2)
        ]

  -- load_hints()
  unfoldable pub load_hints : ℕ → Bytes → Now → Result (Dict Bytes Hint) × Now
  unfolding on_tree load_loop
  load_hints fuel hintfile w = and_then (on_tree (T.exists hintfile) w) λ there w1.
      if there
      then and_then (on_tree (opening.open_hints hintfile) w1)
          (λ d w2. load_loop fuel fuel (new_file d) [] w2)
      else (ok [], w1)

  -- The hints are loaded and the new ones opened, if there is a file for them.
  unfoldable pub start_hints : ℕ → Bytes → Now → Result (Unit {0}) × Now
  unfolding bytes_eq load_hints on_tree
  start_hints fuel hintfile w =
      if same hintfile []
      then (ok tt, record w { hints = none })
      else and_then (load_hints fuel hintfile w) λ hints w1.
        and_then (on_tree (opening.open_newhints (hintfile ++ codes ".tmp")) w1)
          (λ d w2. (ok tt, record w2 { hints = some hints; newhints = new_file d }))

  -- The end of the hints, and their name.
  unfoldable pub end_hints : Bytes → Now → Result (Unit {0}) × Now
  unfolding put_hint flush on_tree
  end_hints hintfile w = elim w.hints [
    | none ↦ (ok tt, w)
    | some hints ↦ and_then (put_hint T R V N opts passwd group word (codes "[end]\n") w) λ _ w1.
        let (r, f) = flush N w1.newhints in
        and_then (r, record w1 { newhints = f })
          (λ _ w2. on_tree (T.rename (hintfile ++ codes ".tmp") hintfile) w2)
  ]

  -- The index, from its opening to its end.
  unfoldable pub write_index : ℕ → ℕ → Bytes → Now → Result (Unit {0}) × Now
  unfolding on_repository backup_dir put_index flush
  write_index fuel depth path w =
      and_then (on_repository T R V N S opts (opening.open_index path) w) λ d w1.
        and_then (backup_dir fuel depth (codes ".") (record w1 { index = new_file d })) λ _ w2.
          and_then (put_index T R V N opts passwd group word (codes "[end]\n") w2)
            λ _ w3. let (r, f) = flush V w3.index in (r, record w3 { index = f })

  -- do_backup() with `indexfile` and `hintfile`. The fuel bounds the blocks of a file, and the lines
  -- of the hints and their bytes.
  unfoldable pub do_backup : ℕ → ℕ → Bytes → Bytes → Now → Result (Unit {0}) × Now
  unfolding bytes_eq on_repository start_hints write_index end_hints
  do_backup fuel depth indexfile hintfile w =
      if same opts.repo []
      then (fatal, w)
      else if same opts.root []
      then (fatal, w)
      else if same indexfile []
      then (fatal, w)
      else and_then
          (if opts.overwrite_index
            then (ok false, w)
            else on_repository T R V N S opts (R.exists indexfile) w)
          λ there w1.
            if there
            then (fatal, w1)
            else and_then (start_hints fuel hintfile w1) λ _ w2.
              let path = if opts.overwrite_index then indexfile else indexfile ++ codes ".tmp" in
              and_then (write_index fuel depth path w2) λ _ w3.
                and_then (end_hints hintfile w3) λ _ w4.
                  if opts.overwrite_index
                  then (ok tt, w4)
                  else on_repository T R V N S opts (R.rename (indexfile ++ codes ".tmp") indexfile)
                      w4
