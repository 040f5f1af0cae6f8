-- ===== src/Backup.antt =====
-- backup.cc: do_backup(). This module has what it works on, and the lines that it writes.
pub mod Listing
pub mod Objects
pub mod Store
pub mod Stored
pub mod Atomic
pub mod Order
pub mod Small
pub mod Command
pub mod RoundTrip
pub mod Details
pub mod ReadBack
use hbackup.Prelude.{
  ℕ, ◌+◌, ◌-◌, ◌/◌, ◌%◌, ◌⊎◌, [], ◌∷◌, ◌++◌, List, Bool, true, false, ◌&&◌, Option, none, some,
  Bytes, codes, if◌then◌else◌, ◌==◌, ltb,
}
use hbackup.Prelude.Dict.{Dict}
use hbackup.Outcome.{Result, ok, err, Log, warning, read_only_file}
use hbackup.Utils.Url.{urlencode}
use hbackup.Utils.Hex.{hexencode}
use hbackup.Clean.Command.{hash_name}
use hbackup.Numbers.{decimal, octal}
use hbackup.Users
use hbackup.File.{Device, FileOf}
use hbackup.HashSet.{Table}
use hbackup.Restore.{Kind, regular, link, dir, chr, blk, socket, unknown}

-- The fields of struct stat that are read.
pub record Stat : Type 0 where
  pub mode : ℕ
  pub uid : ℕ
  pub gid : ℕ
  pub atime : ℕ
  pub ctime : ℕ
  pub mtime : ℕ
  pub size : ℕ
  pub nlink : ℕ
  pub ino : ℕ
  pub rdev : ℕ

-- S_ISREG() and its kin: the file type is what stands above the twelve bits of the permissions.
unfoldable pub kind_of_mode : ℕ → Kind
kind_of_mode mode =
    let type = mode / 4096 % 16 in
    if type == 8
    then regular
    else if type == 4
    then dir
    else if type == 10
    then link
    else if type == 2
    then chr
    else if type == 6
    then blk
    else if type == 12
    then socket
    else unknown

-- struct hint
pub record Hint : Type 0 where
  pub hash : Bytes
  pub ctime : ℕ
  pub mtime : ℕ
  pub size : ℕ

-- struct hashable
pub record Hashable : Type 0 where
  pub path : Bytes
  pub hp : Bytes
  pub hash : Bytes

-- What is called on hostfs, which is the local file system, and what hashfile() gives there. lstat()
-- gives the errno where it fails.
pub record Tree : Type 1 where
  pub State : Type 0
  pub Handle : Type 0
  pub exists : Bytes → State → Result Bool × State
  pub contents : Bytes → State → Result (List Bytes) × State
  pub lstat : Bytes → State → (Stat ⊎ ℕ) × State
  pub open_read : Bytes → State → Result Handle × State
  pub readbytes : Handle → ℕ → State → Result Bytes × State
  pub hashfile : Bytes → Bool → State → Result Bytes × State
  pub readlink : Bytes → State → Result Bytes × State
  pub ismount : Bytes → State → Result Bool × State
  pub utimes : Bytes → ℕ → ℕ → State → Result (Unit {0}) × State
  pub rename : Bytes → Bytes → State → Result (Unit {0}) × State

-- A file that was opened for reading.
abbrev pub reader_of : (T : Tree) → Device
reader_of T = record {
  State = T.Handle × T.State;
  readbytes = λ d n. let (r, s) = T.readbytes d.0 n d.1 in (r, (d.0, s));
  writebytes = λ d b. (err read_only_file, d);
  synchronize = λ d. (ok tt, d);
}

-- The counters of globals.cc that a backup changes.
pub record Counts : Type 0 where
  pub regular_files : ℕ
  pub links : ℕ
  pub devs : ℕ
  pub socks : ℕ
  pub small_files : ℕ
  pub unknown_files : ℕ
  pub new_hashes : ℕ
  pub hints_used : ℕ

-- The two file systems, what the program keeps, and the two files that are written. `dirs` and
-- `hashables` are those of the directory at hand, and so is `first`.
pub record World (S T D N : Type 0) : Type 0 where
  pub tree : S
  pub repository : T
  pub users : Users.Names
  pub counts : Counts
  pub inrepo : Table
  pub hints : Option (Dict Bytes Hint)
  pub newhints : FileOf N
  pub index : FileOf D
  pub first : Bool
  pub dirs : List Bytes
  pub hashables : List Hashable

-- What the options say.
pub record Options : Type 0 where
  pub repo : Bytes
  pub root : Bytes
  pub overwrite_index : Bool
  pub preserve_atime : Bool
  pub crossfs : Bool
  pub recheckhash : Bool

-- The generic details of a line.
unfoldable pub head_text : Bytes → Stat → Bytes → Bytes → Bytes
unfolding urlencode decimal octal
head_text relname sb user group =
    codes "name="
    ++ (urlencode relname
        ++ (codes "&perms="
            ++ (octal (sb.mode % 4096)
                ++ (codes "&uid="
                    ++ (urlencode user
                        ++ (codes "&gid="
                            ++ (urlencode group
                                ++ (codes "&atime="
                                    ++ (decimal sb.atime
                                        ++ (codes "&ctime="
                                            ++ (decimal sb.ctime
                                                ++ (codes "&mtime=" ++ decimal sb.mtime))))))))))))

-- `%d`, to which 32 bits of the number come.
unfoldable pub decimal_int : ℕ → Bytes
unfolding decimal
decimal_int n =
    let m = n % 4294967296 in
    if ltb m 2147483648 then decimal m else b'-' ∷ decimal (4294967296 - m)

-- The end of a line that is no regular file's, where `target` is what a symbolic link holds.
unfoldable pub tail_text : Kind → Stat → Bytes → Bytes
unfolding urlencode decimal_int
tail_text dir sb target = codes "&type=dir\n"
tail_text link sb target = codes "&target=" ++ (urlencode target ++ codes "&type=link\n")
tail_text chr sb target = codes "&rdev=" ++ (decimal_int sb.rdev ++ codes "&type=chr\n")
tail_text blk sb target = codes "&rdev=" ++ (decimal_int sb.rdev ++ codes "&type=blk\n")
tail_text socket sb target = codes "&type=socket\n"
tail_text _ sb target = []

-- What a regular file's line has, by content or by hash, and its end.
unfoldable pub data_text : Bytes → Bytes
unfolding urlencode
data_text buffer = codes "&data=" ++ urlencode buffer

unfoldable pub hash_text : Bytes → Bytes
unfolding hexencode
hash_text h = codes "&" ++ (hash_name ++ (codes "=" ++ hexencode h))

unfoldable pub end_text : Stat → Bytes
unfolding decimal
end_text sb = (if ltb 1 sb.nlink then codes "&inode=" ++ decimal sb.ino else []) ++ codes "\n"

-- A call on hostfs.
unfoldable pub on_tree :
    {A S T D N : Type 0} → (S → Result A × S) → World S T D N → Result A × World S T D N
on_tree f w = let (r, s) = f w.tree in (r, record w { tree = s })
