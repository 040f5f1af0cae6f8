-- ===== src/Clean.antt =====
-- cleanup.cc: do_clean and clean_recurse.
pub mod Safety
pub mod Command
pub mod Live
pub mod Whole
use hbackup.Prelude.{
  ℕ, zero, suc, ◌+◌, [], ◌∷◌, ◌++◌, List, Bool, true, false, Option, none, some, Bytes, bytes_eq,
  same, codes, if◌then◌else◌, length, ltb,
}
use hbackup.Outcome.{
  Result, ok, err, fatal, Exception, file_error, sftp_file_error, bad_hex, bad_hex_digit,
  bad_index_file, Log, error, and_then,
}
use hbackup.Utils.Hex.{hashdecode}
use hbackup.HashSet
use hbackup.HashSet.{Table}
use hbackup.Filesystem.{
  Filetype, regular_file, directory, symbolic_link, unknown_file_type, Repository,
}

-- The options that clean_recurse() reads.
pub record Options : Type 0 where
  pub deleteclean : Bool
  pub detectbogus : Bool

-- The file system, the counters, and what puts() printed.
pub record World (S : Type 0) : Type 0 where
  pub fs : S
  pub log : Log
  pub printed : List Bytes

-- A call on the file system.
unfoldable pub on_fs : {S A : Type 0} → (S → Result A × S) → World S → Result A × World S
on_fs f w = let (r, s) = f w.fs in (r, record w { fs = s })

-- hashdecode(), which may report.
unfoldable pub decode_name : {S : Type 0} → Bytes → World S → Result Bytes × World S
decode_name name w = let (r, l) = hashdecode name w.log in (r, record w { log = l })

-- `memcmp(actual_hash, h, HASH_SIZE)` as it changes `keep`.
unfoldable pub keep_if_same : Bytes → Bytes → Bool → Bool
unfolding bytes_eq
keep_if_same actual h keep = if same actual h then keep else false

-- `catch(...) { keep = false; }`
unfoldable pub judge_or_drop : {S : Type 0} → Result Bool × World S → Result Bool × World S
judge_or_drop (ok keep, w) = (ok keep, w)
judge_or_drop (err e, w) = (ok false, w)
judge_or_drop (fatal, w) = (fatal, w)

-- `catch(FileError &e) { error(...); }`; other exceptions go on.
unfoldable pub tolerate : {S : Type 0} → Result (Unit {0}) × World S → Result (Unit {0}) × World S
tolerate (ok u, w) = (ok u, w)
tolerate (err (file_error n), w) = (ok tt, record w { log = error w.log })
tolerate (err (sftp_file_error n k), w) = (ok tt, record w { log = error w.log })
tolerate (err e, w) = (err e, w)
tolerate (fatal, w) = (fatal, w)

module _ (R : Repository) (word : Bytes → ℕ) (opts : Options) (needed : Table) where
  open R use {State, contents, type, remove, hashfile}

  -- The comparison with the content, where --detect-bogus is given.
  unfoldable pub check_content :
      Bool → Bytes → Bytes → Bool → World State → Result Bool × World State
  check_content true fullname h keep w =
      and_then (on_fs (hashfile fullname) w) (λ actual w1. (ok (keep_if_same actual h keep), w1))
  check_content false fullname h keep w = (ok keep, w)

  -- The `try` block for a regular file: whether to keep it.
  unfoldable pub judge : Bytes → Bytes → World State → Result Bool × World State
  judge fullname name w =
      and_then (decode_name name w)
        λ h w1. check_content opts.detectbogus fullname h (HashSet.has word h needed) w1

  -- What is done with a file that is not kept, with and without --delete; it counts as deleted in
  -- both cases.
  unfoldable pub discard : Bool → Bytes → World State → Result ℕ × World State
  discard true fullname w = and_then (tolerate (on_fs (remove fullname) w)) (λ _ w1. (ok 1, w1))
  discard false fullname w = (ok 1, record w { printed = w.printed ++ fullname ∷ [] })

  unfoldable pub dispose : Bytes → Bool → World State → Result ℕ × World State
  dispose fullname true w = (ok 0, w)
  dispose fullname false w = discard opts.deleteclean fullname w

  -- The case RegularFile of the `switch`: how many files it counts as deleted.
  unfoldable pub clean_file : Bytes → Bytes → World State → Result ℕ × World State
  clean_file fullname name w = and_then (judge_or_drop (judge fullname name w)) (dispose fullname)

  -- The `switch`; `recurse` is clean_recurse().
  unfoldable pub clean_typed :
      (Bytes → World State → Result ℕ × World State)
      → Bytes
      → Bytes
      → Filetype
      → World State
      → Result ℕ × World State
  clean_typed recurse fullname name regular_file w = clean_file fullname name w
  clean_typed recurse fullname name directory w = recurse fullname w
  clean_typed recurse fullname name symbolic_link w = (ok 0, w)
  clean_typed recurse fullname name unknown_file_type w = (ok 0, w)

  -- The body of the loop.
  unfoldable pub clean_entry :
      (Bytes → World State → Result ℕ × World State)
      → Bytes
      → Bytes
      → World State
      → Result ℕ × World State
  clean_entry recurse path name w =
      let fullname = path ++ b'/' ∷ name in
      and_then (on_fs (type fullname) w) (clean_typed recurse fullname name)

  -- The loop over the names; `deleted` is its count so far.
  unfoldable pub clean_entries :
      (Bytes → World State → Result ℕ × World State)
      → Bytes
      → List Bytes
      → ℕ
      → World State
      → Result ℕ × World State
  clean_entries recurse path [] deleted w = (ok deleted, w)
  clean_entries recurse path (name ∷ files) deleted w =
      and_then (clean_entry recurse path name w)
        λ n w1. clean_entries recurse path files (deleted + n) w1

  -- clean_recurse(); the fuel bounds the depth of the directories.
  unfoldable pub clean_recurse : ℕ → Bytes → World State → Result ℕ × World State
  unfolding clean_entries clean_entry clean_typed clean_file dispose discard judge check_content
      tolerate judge_or_drop on_fs decode_name keep_if_same HashSet.has hashdecode
  clean_recurse zero path w = (fatal, w)
  clean_recurse (suc fuel) path w =
      and_then (on_fs (contents path) w)
        λ files w1. clean_entries (clean_recurse fuel) path files 0 w1
