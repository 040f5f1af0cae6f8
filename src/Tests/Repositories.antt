-- ===== src/Tests/Repositories.antt =====
-- A clean-up of a repository in memory, and its theorems at concrete data.
use hbackup.Prelude.{
  ℕ, ◌≡◌, ◌<◌, refl, ◌∙◌, [], ◌∷◌, ◌++◌, List, Option, none, some, true, false, Bytes, bytes_eq,
  codes, length, arith, rfind,
}
use hbackup.Prelude.Dict
use hbackup.Prelude.Dict.{Dict}
use hbackup.Outcome.{Result, ok, err, file_error, no_log}
use hbackup.Utils.Hex.{hashdecode, hexencode, hashpath}
use hbackup.Utils.Url.{urlencode}
use hbackup.Utils.Index.{Reader, read_details, getdetail}
use hbackup.Utils.Index.Laws.{render, render_field, assign_all}
use hbackup.Utils.Index.Stream.{Left, read_details-render}
use hbackup.File.{new_file}
use hbackup.File.Read.{new_file-IsReadable}
use hbackup.HashSet
use hbackup.HashSet.{Table, empty_table}
use hbackup.HashSet.Laws.{insert_all, member}
use hbackup.Clean.{Options, World, clean_recurse}
use hbackup.Clean.Safety.{IsLive, base, clean_recurse_safe}
use hbackup.Clean.Command.{do_clean, Marking, mark_lines}
use hbackup.Clean.Live.{Entry, IsEntry, index_text, hashes, mark_lines-index_text}
use hbackup.Clean.Whole.{IsIndex, all_hashes, hash_file, do_clean_safe}
use hbackup.Verify.{do_verify, stored_at}
use hbackup.Verify.Safety.{IsWhole, do_verify_safe}
use hbackup.Tests.Memory.{
  memory_file, memory_file-IsReader, memory_repository, memory_repository-IsRepository, live_name,
  live_hash,
}

abbrev first_byte : Bytes → ℕ
first_byte [] = 0
first_byte (b ∷ h) = b

-- One line of an index, which refers to the live hash.
abbrev entry : Entry
entry = record {
  first = (codes "name", codes "a b");
  more = (codes "sha1", hexencode live_hash) ∷ [];
  hash = some live_hash;
}

entry-IsEntry : IsEntry entry
unfolding hexencode getdetail assign_all Dict.insert bytes_eq
entry-IsEntry = record { are_bytes = omega arith; has_hash = (refl, omega arith, refl) }

abbrev live_path : Bytes
live_path = codes "r/sha1/01/02/" ++ live_name

abbrev stray_path : Bytes
stray_path = codes "r/sha1/stray"

abbrev disk : Dict Bytes Bytes
disk = (live_path, live_hash) ∷ (stray_path, codes "x") ∷ []

abbrev world : World (Dict Bytes Bytes)
world = record { fs = disk; log = no_log; printed = [] }

abbrev deleting : Options
deleting = record { deleteclean = true; detectbogus = false }

-- With --detect-bogus.
abbrev detecting : Options
detecting = record { deleteclean = true; detectbogus = true }

-- The file of the live hash, and a stray one.
abbrev hash_disk : Dict Bytes Bytes
hash_disk = (hash_file (codes "r") live_hash, live_hash) ∷ (stray_path, codes "x") ∷ []

abbrev hash_world : World (Dict Bytes Bytes)
hash_world = record { fs = hash_disk; log = no_log; printed = [] }

found :
    (o : Option Bytes)
    → o ≡ some live_hash
    → ◌≡◌ {A = Result Bytes} (elim o [ none ↦ err (file_error 2) | some c ↦ ok c ]) (ok live_hash)
found o e = rw e refl

-- Every index opens to the same text.
abbrev open_index : Bytes → Dict Bytes Bytes → Result (Bytes × Bytes) × Dict Bytes Bytes
open_index p s = (ok (index_text (entry ∷ []), []), s)

abbrev indexes : List (Bytes × List Entry)
indexes = (codes "i", entry ∷ []) ∷ []

reader : Reader memory_file
unfolding index_text render
reader = record { file = new_file (render entry.first entry.more ++ b'\n' ∷ [], []); log = no_log }

read_details-render_example :
    (r : Reader memory_file) × (read_details memory_file 99 reader
      ≡ (ok (some (assign_all (entry.first ∷ entry.more) [])), r))
    × Left memory_file memory_file-IsReader [] no_log r
unfolding reader urlencode hexencode render_field
read_details-render_example =
    read_details-render memory_file memory_file-IsReader 99 reader entry.first entry.more []
      (new_file-IsReadable memory_file memory_file-IsReader _) (omega arith) refl
      entry-IsEntry.are_bytes

start : Marking memory_file first_byte
start = record {
  reader = record { file = new_file (index_text (entry ∷ []), []); log = no_log };
  needed = empty_table;
}

text_small : length (index_text (entry ∷ [])) < 200
unfolding index_text render render_field urlencode hexencode
text_small = omega arith

mark_lines-index_text_example :
    (m : Marking memory_file first_byte) × (mark_lines memory_file first_byte 200 200 start
      ≡ (ok tt, m))
    × (m.needed ≡ insert_all first_byte (hashes (entry ∷ [])) empty_table)
    × (m.reader.log ≡ no_log)
unfolding start
mark_lines-index_text_example =
    mark_lines-index_text memory_file memory_file-IsReader first_byte 200 200 (entry ∷ []) start
      (omega arith) (new_file-IsReadable memory_file memory_file-IsReader _) text_small refl
      (entry-IsEntry, tt)

kept_path-IsLive :
    IsLive memory_repository memory_repository-IsRepository first_byte detecting
      (HashSet.insert first_byte live_hash empty_table)
      live_path
      (some live_hash)
unfolding base HashSet.insert hashdecode HashSet.has empty_table rfind
kept_path-IsLive = record {
  h = live_hash;
  decodes = λ l. refl;
  known = refl;
  intact = λ e s here. found (Dict.lookup live_path s) here;
}

-- The stray file is deleted, and the live one is not.
clean_test :
    clean_recurse memory_repository first_byte deleting
      (HashSet.insert first_byte live_hash empty_table)
      9
      (codes "r/sha1")
      world
    ≡ (ok 1, record { fs = (live_path, live_hash) ∷ []; log = no_log; printed = [] })
unfolding clean_recurse HashSet.insert bytes_eq Dict.lookup Dict.erase empty_table
clean_test = refl

clean_recurse_safe_example :
    Dict.lookup live_path
      (clean_recurse memory_repository first_byte detecting
        (HashSet.insert first_byte live_hash empty_table)
        9
        (codes "r/sha1")
        world).1.fs
    ≡ Dict.lookup live_path disk
unfolding Dict.lookup bytes_eq
clean_recurse_safe_example =
    clean_recurse_safe memory_repository memory_repository-IsRepository first_byte detecting
      (HashSet.insert first_byte live_hash empty_table) 9 (codes "r/sha1") live_path world
      kept_path-IsLive

indexes-IsIndex :
    IsIndex memory_file memory_file-IsReader memory_repository memory_repository-IsRepository
      first_byte open_index 200
      (codes "i", entry ∷ [])
indexes-IsIndex = record {
  entries = (entry-IsEntry, tt);
  few = omega arith;
  small = text_small;
  opens = λ s. ((index_text (entry ∷ []), []), refl, refl);
}

stored_there : Dict.lookup (hash_file (codes "r") live_hash) hash_disk ≡ some live_hash
unfolding Dict.lookup bytes_eq hashpath
stored_there = refl

do_clean_safe_example :
    Dict.lookup
      (hash_file (codes "r") live_hash)
      (do_clean memory_file first_byte memory_repository open_index 200 detecting
        (codes "r")
        (codes "i" ∷ [])
        hash_world).1.fs
    ≡ Dict.lookup (hash_file (codes "r") live_hash) hash_disk
unfolding hashes all_hashes member bytes_eq
do_clean_safe_example =
    do_clean_safe memory_file memory_file-IsReader memory_repository memory_repository-IsRepository
      first_byte open_index 200 detecting (codes "r") indexes live_hash hash_world (λ p q s. refl)
      (indexes-IsIndex, tt) refl (omega arith) refl
      (λ e s here. found (Dict.lookup (hash_file (codes "r") live_hash) s) (here ∙ stored_there))

live_file-IsWhole :
    IsWhole memory_repository memory_repository-IsRepository true
      (codes "r")
      live_hash
      (some live_hash)
live_file-IsWhole = record {
  are_bytes = omega arith;
  size = refl;
  hashes = λ s e. found (Dict.lookup (stored_at (codes "r") live_hash) s) e;
}

-- A repository with the stored file of the live hash.
abbrev stored_only : World (Dict Bytes Bytes)
stored_only = record {
  fs = (stored_at (codes "r") live_hash, live_hash) ∷ [];
  log = no_log;
  printed = [];
}

do_verify_safe_example :
    Dict.lookup
      (stored_at (codes "r") live_hash)
      (do_verify memory_repository true
        (codes "r")
        memory_file
        open_index
        200
        []
        (codes "i")
        stored_only).1.fs
    ≡ some live_hash
unfolding Dict.lookup bytes_eq stored_at
do_verify_safe_example =
    do_verify_safe memory_repository memory_repository-IsRepository true (codes "r") live_hash
      (some live_hash) live_file-IsWhole memory_file open_index 200 [] (codes "i") stored_only
      (λ p s. refl) refl
