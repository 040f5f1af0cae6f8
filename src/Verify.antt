-- ===== src/Verify.antt =====
-- verify.cc: do_verify, which compares the files that an index names with their hashes.

pub mod Safety
use hbackup.Prelude.{
  ℕ, zero, suc, ◌+◌, [], ◌∷◌, ◌++◌, List, Bool, true, false, not, Option, none, some, Bytes, codes,
  bytes_eq, nat_eq, same, if◌then◌else◌, ◌==◌,
}
use hbackup.Outcome.{
  Result, ok, err, fatal, Exception, file_error, sftp_file_error, Log, error, and_then,
}
use hbackup.Utils.Hex.{hashdecode, hashpath}
use hbackup.Utils.Index.{Details, Reader, read_details, getdetail}
use hbackup.File.{Device, File, new_file}
use hbackup.Filesystem.{Repository}
use hbackup.Clean.{World, on_fs, decode_name}
use hbackup.Clean.Command.{hash_name}

-- ENOENT
abbrev pub enoent : ℕ
enoent = 2

-- `repo + "/" + HASH_NAME + "/" + hashpath(h)`
unfoldable pub stored_at : Bytes → Bytes → Bytes
unfolding hashpath
stored_at repo h = (repo ++ b'/' ∷ hash_name) ++ b'/' ∷ hashpath h

-- error(), on the counters of the world.
unfoldable pub report : {S : Type 0} → World S → World S
report w = record w { log = error w.log }

-- `catch(FileError &e)`: a missing file is reported, and other exceptions go on.
unfoldable pub report_missing :
    {S : Type 0} → Result (Unit {0}) × World S → Result (Unit {0}) × World S
unfolding report
report_missing (ok u, w) = (ok u, w)
report_missing (err (file_error n), w) =
    if n == enoent then (ok tt, report w) else (err (file_error n), w)
report_missing (err (sftp_file_error n k), w) =
    if n == enoent then (ok tt, report w) else (err (sftp_file_error n k), w)
report_missing (err e, w) = (err e, w)
report_missing (fatal, w) = (fatal, w)

module _ (R : Repository) (detectbogus : Bool) (repo : Bytes) where
  -- What follows a mismatch.
  unfoldable pub mismatch : Bytes → World R.State → Result (Unit {0}) × World R.State
  unfolding report on_fs
  mismatch hp w = if detectbogus then on_fs (R.remove hp) (report w) else (ok tt, report w)

  -- The comparison with the hash that the content has.
  unfoldable pub compare : Bytes → Bytes → Bytes → World R.State → Result (Unit {0}) × World R.State
  unfolding mismatch
  compare hp h actual w = if same h actual then (ok tt, w) else mismatch hp w

  -- The `try` block and its handler.
  unfoldable pub verify_file : Bytes → Bytes → World R.State → Result (Unit {0}) × World R.State
  unfolding compare report_missing on_fs
  verify_file hp h w = report_missing (and_then (on_fs (R.hashfile hp) w) (compare hp h))

  -- A regular file saved by its hash.
  unfoldable pub verify_hash : Bytes → World R.State → Result (Unit {0}) × World R.State
  unfolding verify_file decode_name stored_at
  verify_hash hex w = and_then (decode_name hex w) (λ h w1. verify_file (stored_at repo h) h w1)

  -- A regular file, by what it has of `data` and of a hash.
  unfoldable pub verify_regular :
      Option Bytes → Option Bytes → World R.State → Result (Unit {0}) × World R.State
  unfolding verify_hash report
  verify_regular (some bytes) hash w = (ok tt, w)
  verify_regular none (some hex) w = verify_hash hex w
  verify_regular none none w = (ok tt, report w)

  -- The body of the loop.
  unfoldable pub verify_line : Details → World R.State → Result (Unit {0}) × World R.State
  unfolding verify_regular getdetail
  verify_line details w = elim (getdetail details (codes "type")) [
    | some t ↦ (ok tt, w)
    | none ↦ verify_regular (getdetail details (codes "data")) (getdetail details hash_name) w
  ]

  module _ (V : Device) where
    -- `while(readIndexLine(f, details))`. The first fuel bounds the lines, the second is getline()'s.
    unfoldable pub verify_lines : ℕ → ℕ → File V → World R.State → Result (Unit {0}) × World R.State
    unfolding verify_line read_details
    verify_lines zero fuel f w = (fatal, w)
    verify_lines (suc n) fuel f w =
        let (r, rd) = read_details V fuel (record { file = f; log = w.log }) in
        and_then (r, record w { log = rd.log })
          λ o w1. elim o [
            | none ↦ (ok tt, w1)
            | some details ↦
                and_then (verify_line details w1) (λ _ w2. verify_lines n fuel rd.file w2)
          ]

    -- do_verify(), with `root` and `indexfile` as the options give them.
    unfoldable pub do_verify :
        (Bytes → R.State → Result V.State × R.State)
        → ℕ
        → Bytes
        → Bytes
        → World R.State
        → Result (Unit {0}) × World R.State
    unfolding verify_lines bytes_eq on_fs
    do_verify open_read fuel root indexfile w =
        if same repo []
        then (fatal, w)
        else if not (same root [])
        then (fatal, w)
        else if same indexfile []
        then (fatal, w)
        else and_then (on_fs (open_read indexfile) w)
            (λ d w1. verify_lines fuel fuel (new_file d) w1)
