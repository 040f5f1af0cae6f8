-- ===== src/Filesystem.antt =====
-- class Filesystem of nhbackup.h: the operations that cleaning and verification call on a local or a
-- remote file system.
use hbackup.Prelude.{List, Option, Bytes, ◌≡◌, ◌≢◌, Lacks, All}
use hbackup.Outcome.{Result, ok, err, file_error}

pub data Filetype : Type 0 where
  regular_file directory symbolic_link unknown_file_type : Filetype

-- The calls of cleanup.cc, over a state of the file system. hashfile() of hash.cc is among them.
pub record Repository : Type 1 where
  pub State : Type 0
  pub contents : Bytes → State → Result (List Bytes) × State
  pub type : Bytes → State → Result Filetype × State
  pub remove : Bytes → State → Result (Unit {0}) × State
  pub hashfile : Bytes → State → Result Bytes × State

-- What they are taken to do to the files, `file s p` being what stands at the path `p`: only
-- remove() changes any, and that only the one it is given, whether or not it succeeds. A name in a
-- directory holds no slash.
pub record IsRepository (R : Repository) : Type 1 where
  pub Content : Type 0
  pub file : R.State → Bytes → Option Content
  pub contents_keeps : (p q : Bytes) (s : R.State) → file (R.contents p s).1 q ≡ file s q
  pub type_keeps : (p q : Bytes) (s : R.State) → file (R.type p s).1 q ≡ file s q
  pub hashfile_keeps : (p q : Bytes) (s : R.State) → file (R.hashfile p s).1 q ≡ file s q
  pub remove_keeps : (p q : Bytes) (s : R.State) → p ≢ q → file (R.remove p s).1 q ≡ file s q
  pub names :
      (p : Bytes) (s : R.State) {c : List Bytes} → (R.contents p s).0 ≡ ok c → All (Lacks b'/') c

-- The operations of class Filesystem in file.cc that a derived class may leave as they are: each
-- throws ENOSYS, which is 38.
unfoldable pub unsupported : {A S : Type 0} → S → Result A × S
unsupported s = (err (file_error 38), s)
