-- ===== src/Local/Directories.antt =====
-- local.cc: LocalFilesystem::contents().
use hbackup.Prelude.{ℕ, zero, suc, [], ◌∷◌, ◌++◌, List, none, some, Bytes, if◌then◌else◌}
use hbackup.Outcome.{Result, ok, err, fatal, and_then}
use hbackup.Sftp.Requests.Contents.{is_listed}
use hbackup.Local.{System, or_throw}

-- `c.push_back(s)`, but for `.` and `..`.
unfoldable pub push_name : Bytes → List Bytes → List Bytes
unfolding is_listed
push_name name c = if is_listed name then c ++ name ∷ [] else c

module _ (S : System) where
  -- The loop; the fuel bounds the entries of the directory.
  unfoldable pub read_entries : ℕ → ℕ → List Bytes → S.State → Result (List Bytes) × S.State
  unfolding or_throw push_name
  read_entries zero dp c s = (fatal, s)
  read_entries (suc fuel) dp c s = and_then (or_throw (S.readdir dp s)) λ de s1. elim de [
    | none ↦ (ok c, s1)
    | some name ↦ read_entries fuel dp (push_name name c) s1
  ]

  -- The end: the directory is closed, whether or not it was read, and an error of that is thrown
  -- only where nothing was.
  unfoldable pub end_contents : ℕ → Result (List Bytes) → S.State → Result (List Bytes) × S.State
  unfolding or_throw
  end_contents dp fatal s = (fatal, s)
  end_contents dp (err e) s = let (r, s1) = S.closedir dp s in (err e, s1)
  end_contents dp (ok c) s = and_then (or_throw (S.closedir dp s)) (λ _ s1. (ok c, s1))

  -- LocalFilesystem::contents()
  unfoldable pub contents : ℕ → Bytes → S.State → Result (List Bytes) × S.State
  unfolding or_throw read_entries end_contents
  contents fuel path s =
      and_then (or_throw (S.opendir path s))
        λ dp s1. let (r, s2) = read_entries fuel dp [] s1 in end_contents dp r s2
