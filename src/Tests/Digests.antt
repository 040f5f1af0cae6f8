-- ===== src/Tests/Digests.antt =====
-- The theorems on hashfile() with a stand-in for SHA-1 that keeps the first bytes.
use hbackup.Prelude.{◌≡◌, refl, [], ◌++◌, Bytes, codes, take, arith}
use hbackup.Outcome.{ok}
use hbackup.File.{File, new_file}
use hbackup.File.Read.{new_file-IsReadable}
use hbackup.Hashing.{Sha1, hash_mapped, hash_read}
use hbackup.Hashing.Laws.{IsSha1, hash_read-digest, hash_mapped-digest}
use hbackup.Tests.Memory.{memory_file, memory_file-IsReader}

abbrev first_bytes : Sha1
first_bytes = record {
  Context = Bytes;
  reset = ok [];
  input = λ c s. ok (c ++ s);
  result = λ c. ok (take 20 c);
}

abbrev first_bytes-IsSha1 : IsSha1 first_bytes
first_bytes-IsSha1 = record {
  digest = take 20;
  limit = 1000;
  held = λ c. c;
  starts = ([], refl, refl);
  absorbs = λ c s h. (c ++ s, refl, refl);
  ends = λ c. refl;
}

hash_read-digest_example :
    (g : File memory_file) × (hash_read first_bytes memory_file 9 (new_file (codes "content", []))
      ≡ (ok (codes "content"), g))
hash_read-digest_example =
    hash_read-digest first_bytes first_bytes-IsSha1 memory_file memory_file-IsReader 9
      (new_file (codes "content", [])) (omega arith) (omega arith)
      (new_file-IsReadable memory_file memory_file-IsReader _)

hash_mapped-digest_example : hash_mapped first_bytes (codes "content") ≡ ok (codes "content")
hash_mapped-digest_example =
    hash_mapped-digest first_bytes first_bytes-IsSha1 (codes "content") (omega arith)
