-- ===== src/Clean/Command.antt =====
-- cleanup.cc: do_clean, which reads the live indexes and then cleans the repository.
use hbackup.Prelude.{
  ℕ, zero, suc, ◌+◌, [], ◌∷◌, ◌++◌, List, Bool, true, false, Option, none, some, Bytes, codes,
  bytes_eq, same, if◌then◌else◌, length, ltb,
}
use hbackup.Outcome.{
  Result, ok, err, fatal, bad_hex, bad_hex_digit, bad_index_file, error, and_then,
}
use hbackup.Utils.Hex.{hashdecode}
use hbackup.Utils.Index.{Reader, read_details, getdetail}
use hbackup.File.{Device, new_file}
use hbackup.HashSet
use hbackup.HashSet.{Table, empty_table}
use hbackup.Filesystem.{Repository}
use hbackup.Clean.{Options, World, on_fs, clean_recurse}

-- HASH_NAME
abbrev pub hash_name : Bytes
hash_name = codes "sha1"

module _ (V : Device) (word : Bytes → ℕ) where
  -- The variables of the reading loop.
  pub record Marking : Type 0 where
    pub reader : Reader V
    pub needed : Table

  -- The body of the loop: the hash of the line, if it has one, is needed.
  unfoldable pub mark_hash : Option Bytes → Marking → Result (Unit {0}) × Marking
  mark_hash none m = (ok tt, m)
  mark_hash (some hex) m =
      let (r, l) = hashdecode hex m.reader.log in
      and_then (r, record m { reader = record { file = m.reader.file; log = l } })
        λ h m1. (ok tt, record m1 { needed = HashSet.insert word h m1.needed })

  -- `while(readIndexLine(f, details))`. The first fuel bounds the lines, the second is getline()'s.
  unfoldable pub mark_lines : ℕ → ℕ → Marking → Result (Unit {0}) × Marking
  mark_lines zero fuel m = (fatal, m)
  mark_lines (suc n) fuel m =
      let (r, rd) = read_details V fuel m.reader in
      and_then (r, record m { reader = rd })
        λ o m1. elim o [
          | none ↦ (ok tt, m1)
          | some details ↦
              and_then (mark_hash (getdetail details hash_name) m1) (λ _ m2. mark_lines n fuel m2)
        ]

  -- The three handlers: whether the file is bad. Other exceptions go on.
  unfoldable pub mark_end : Result (Unit {0}) × Marking → Result Bool × Marking
  mark_end (ok u, m) = (ok false, m)
  mark_end (err (bad_hex s), m) = (ok true, m)
  mark_end (err bad_hex_digit, m) = (ok true, m)
  mark_end (err (bad_index_file s), m) =
      (ok true, record m { reader = record { file = m.reader.file; log = error m.reader.log } })
  mark_end (err e, m) = (err e, m)
  mark_end (fatal, m) = (fatal, m)

  module _ (R : Repository) (open_read : Bytes → R.State → Result V.State × R.State)
      (fuel : ℕ) where
    -- One index: the set of needed hashes after it, and whether it is bad.
    unfoldable pub mark_index :
        Bytes → Table → World R.State → Result (Table × Bool) × World R.State
    mark_index name needed w = and_then (on_fs (open_read name) w) λ d w1.
        let (r, m) = mark_end (
          mark_lines fuel fuel
            (record { reader = record { file = new_file d; log = w1.log }; needed = needed })) in
        and_then (r, record w1 { log = m.reader.log }) (λ bad w2. (ok (m.needed, bad), w2))

    -- The loop over the indexes, with the number of bad ones.
    unfoldable pub mark_all :
        List Bytes → Table → ℕ → World R.State → Result (Table × ℕ) × World R.State
    mark_all [] needed bad w = (ok (needed, bad), w)
    mark_all (name ∷ names) needed bad w =
        and_then (mark_index name needed w)
          λ p w1. mark_all names p.0 (if p.1 then bad + 1 else bad) w1

    -- What follows the loop: nothing is deleted if an index is bad.
    unfoldable pub sweep : Options → Bytes → Table × ℕ → World R.State → Result ℕ × World R.State
    sweep opts repo (needed, zero) w =
        clean_recurse R word opts needed fuel (repo ++ b'/' ∷ hash_name) w
    sweep opts repo (needed, suc bad) w = (fatal, w)

    -- do_clean(). The fuel bounds the lines of an index, their bytes, and the depth of the
    -- repository; the result is the number of files that were deleted.
    unfoldable pub do_clean :
        Options → Bytes → List Bytes → World R.State → Result ℕ × World R.State
    unfolding bytes_eq
    do_clean opts repo argv w =
        if same repo []
        then (fatal, w)
        else if ltb (length argv) 1
        then (fatal, w)
        else and_then (mark_all argv empty_table 0 w) (sweep opts repo)
