-- ===== src/Local.antt =====
-- local.cc: LocalFilesystem and LocalFile, over the system calls that they make.
pub mod Files
pub mod Directories
pub mod Laws
use hbackup.Prelude.{
  ℕ, zero, suc, ◌+◌, ◌/◌, ◌%◌, [], ◌∷◌, ◌++◌, List, Bool, true, false, not, Option, none, some,
  length, Bytes, nat_eq, bytes_eq, same, codes, leb, ◌==◌, if◌then◌else◌,
}
use hbackup.Outcome.{Result, ok, err, file_error, and_then}
use hbackup.Filesystem.{Filetype, regular_file, directory, symbolic_link, unknown_file_type}
use hbackup.Sftp.Requests.{OpenMode, read_only, overwrite, no_overwrite}

-- What a system call returns: -1 with `errno`, or a value.
pub data Returned {ℓ} (A : Type ℓ) : Type ℓ where
  failed : (errno : ℕ) → Returned A
  returned : (value : A) → Returned A

-- The members of `struct stat` that are used.
pub record Stat : Type 0 where
  pub mode : ℕ
  pub device : ℕ

-- The calls of local.cc. read() returns what it puts into the buffer, write() a number of bytes,
-- select() whether the descriptor can be read, and readdir() a name or the end of the directory.
pub record System : Type 1 where
  pub State : Type 0
  pub open_fd : Bytes → ℕ → ℕ → State → Returned ℕ × State
  pub close : ℕ → State → Returned (Unit {0}) × State
  pub read : ℕ → ℕ → State → Returned Bytes × State
  pub write : ℕ → Bytes → State → Returned ℕ × State
  pub select : ℕ → State → Returned Bool × State
  pub rename : Bytes → Bytes → State → Returned (Unit {0}) × State
  pub link : Bytes → Bytes → State → Returned (Unit {0}) × State
  pub remove : Bytes → State → Returned (Unit {0}) × State
  pub mkdir : Bytes → ℕ → State → Returned (Unit {0}) × State
  pub mknod : Bytes → ℕ → ℕ → State → Returned (Unit {0}) × State
  pub lchown : Bytes → ℕ → ℕ → State → Returned (Unit {0}) × State
  pub chmod : Bytes → ℕ → State → Returned (Unit {0}) × State
  pub symlink : Bytes → Bytes → State → Returned (Unit {0}) × State
  pub utimes : Bytes → ℕ → ℕ → State → Returned (Unit {0}) × State
  pub stat : Bytes → State → Returned Stat × State
  pub lstat : Bytes → State → Returned Stat × State
  pub readlink : Bytes → ℕ → State → Returned Bytes × State
  pub opendir : Bytes → State → Returned ℕ × State
  pub readdir : ℕ → State → Returned (Option Bytes) × State
  pub closedir : ℕ → State → Returned (Unit {0}) × State

-- `if(call < 0) throw FileError(..., errno);`
unfoldable pub or_throw {κ} : {A : Type 0} {S : Type κ} → Returned A × S → Result A × S
or_throw (failed e, s) = (err (file_error e), s)
or_throw (returned a, s) = (ok a, s)

-- `mode & S_IFMT` without its low bits: S_ISREG is 8, S_ISDIR 4 and S_ISLNK 10.
unfoldable pub kind_of : ℕ → ℕ
kind_of mode = mode / 4096 % 16

-- The flags of open() by the mode, as the numbers of O_WRONLY (1), O_CREAT (64), O_EXCL (128) and
-- O_TRUNC (512) on Linux.
unfoldable pub system_flags : OpenMode → ℕ
system_flags read_only = 0
system_flags overwrite = 577
system_flags no_overwrite = 193

-- A C string: what stands before the first 0.
unfoldable pub c_string : Bytes → Bytes
c_string [] = []
c_string (c ∷ s) = if c == 0 then [] else c ∷ c_string s

-- `MAXLINKSIZE`
abbrev pub max_link_size : ℕ
max_link_size = 8192

module _ (S : System) where
  -- LocalFile::LocalFile(), with the descriptor; the permissions are 0666.
  unfoldable pub open_file : Bytes → OpenMode → S.State → Result ℕ × S.State
  unfolding or_throw system_flags
  open_file path mode s = or_throw (S.open_fd path (system_flags mode) 438 s)

  -- LocalFile::~LocalFile() on an open file.
  unfoldable pub close_file : ℕ → S.State → Result (Unit {0}) × S.State
  unfolding or_throw
  close_file fd s = or_throw (S.close fd s)

  unfoldable pub rename : Bytes → Bytes → S.State → Result (Unit {0}) × S.State
  unfolding or_throw
  rename oldpath newpath s = or_throw (S.rename oldpath newpath s)

  unfoldable pub link : Bytes → Bytes → S.State → Result (Unit {0}) × S.State
  unfolding or_throw
  link oldpath newpath s = or_throw (S.link oldpath newpath s)

  unfoldable pub remove : Bytes → S.State → Result (Unit {0}) × S.State
  unfolding or_throw
  remove path s = or_throw (S.remove path s)

  unfoldable pub mkdir : Bytes → ℕ → S.State → Result (Unit {0}) × S.State
  unfolding or_throw
  mkdir path mode s = or_throw (S.mkdir path mode s)

  unfoldable pub mknod : Bytes → ℕ → ℕ → S.State → Result (Unit {0}) × S.State
  unfolding or_throw
  mknod path mode dev s = or_throw (S.mknod path mode dev s)

  unfoldable pub lchown : Bytes → ℕ → ℕ → S.State → Result (Unit {0}) × S.State
  unfolding or_throw
  lchown path uid gid s = or_throw (S.lchown path uid gid s)

  unfoldable pub chmod : Bytes → ℕ → S.State → Result (Unit {0}) × S.State
  unfolding or_throw
  chmod path mode s = or_throw (S.chmod path mode s)

  unfoldable pub symlink : Bytes → Bytes → S.State → Result (Unit {0}) × S.State
  unfolding or_throw
  symlink target path s = or_throw (S.symlink target path s)

  -- The microseconds are 0.
  unfoldable pub utimes : Bytes → ℕ → ℕ → S.State → Result (Unit {0}) × S.State
  unfolding or_throw
  utimes path atime mtime s = or_throw (S.utimes path atime mtime s)

  -- What exists() makes of stat(): ENOENT is 2.
  unfoldable pub there_or_not : Returned Stat → Result Bool
  there_or_not (returned sb) = ok true
  there_or_not (failed e) = if e == 2 then ok false else err (file_error e)

  -- LocalFilesystem::exists()
  unfoldable pub exists : Bytes → S.State → Result Bool × S.State
  unfolding there_or_not
  exists path s = let (r, s1) = S.stat path s in (there_or_not r, s1)

  -- What readlink() makes of the bytes: ENAMETOOLONG is 36.
  unfoldable pub link_target : Bytes → Result Bytes
  unfolding c_string
  link_target b = if leb max_link_size (length b) then err (file_error 36) else ok (c_string b)

  -- LocalFilesystem::readlink()
  unfoldable pub readlink : Bytes → S.State → Result Bytes × S.State
  unfolding or_throw link_target
  readlink path s =
      and_then (or_throw (S.readlink path max_link_size s)) (λ b s1. (link_target b, s1))

  -- The end of ismount(), on a directory.
  unfoldable pub crosses : Bytes → Stat → S.State → Result Bool × S.State
  unfolding or_throw
  crosses path sb s =
      and_then (or_throw (S.stat (path ++ codes "/..") s))
        λ psb s1. (ok (not (same sb.device psb.device)), s1)

  -- LocalFilesystem::ismount()
  unfoldable pub ismount : Bytes → S.State → Result Bool × S.State
  unfolding or_throw crosses kind_of
  ismount path s =
      and_then (or_throw (S.stat path s))
        λ sb s1. if kind_of sb.mode == 4 then crosses path sb s1 else (ok false, s1)

  unfoldable pub type_of_mode : ℕ → Filetype
  unfolding kind_of
  type_of_mode mode =
      if kind_of mode == 8
      then regular_file
      else if kind_of mode == 4
      then directory
      else if kind_of mode == 10
      then symbolic_link
      else unknown_file_type

  -- LocalFilesystem::type()
  unfoldable pub type : Bytes → S.State → Result Filetype × S.State
  unfolding or_throw type_of_mode
  type path s = and_then (or_throw (S.lstat path s)) (λ sb s1. (ok (type_of_mode sb.mode), s1))
