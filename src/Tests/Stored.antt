-- ===== src/Tests/Stored.antt =====
-- A backup in memory stores a content, and does not store one that has changed.
use hbackup.Prelude.{
  ◌∙◌, ◌++◌, ◌≡◌, ◌≢◌, refl, sym, ap, [], ◌∷◌, true, false, none, some, Bytes, bytes_eq, codes,
  length, length-append, take, drop, take-append-drop, length-take_le, ◌+◌, List, inl, inr, arith,
}
use hbackup.Prelude.Dict
use hbackup.Outcome.{Result, ok, err, fatal, file_error, no_log}
use hbackup.Users.{Database}
use hbackup.File.Read.{IsReader, new_file-IsReadable}
use hbackup.Backup.Objects.{read_small}
use hbackup.Backup.Small.{read_small-first_bytes}
use hbackup.File.{File, new_file}
use hbackup.HashSet.{empty_table}
use hbackup.Hashing.{Sha1}
use hbackup.Backup.{Hashable, Tree, reader_of, World, Options, Stat, kind_of_mode, on_tree}
use hbackup.Backup.Store.{store_file, parent_of}
use hbackup.Exclude.{Pcre, no_match, excluded}
use hbackup.Names.{local_name}
use mathlib.Core.List.{Permᴰ}
use hbackup.Backup.Listing.{Kept, sort, collect, inspect, stat_file, keep_known}
use hbackup.Backup.Command.{Opening, backup_here}
use hbackup.Backup.Order.{taken, backup_here-canonical}
use hbackup.Backup.Atomic.{temporary_for-ne, store_file-atomic}
use hbackup.Tests.Hosts.{Disk, memory_host, memory_host-IsHost, make_file, move_file, append_file}
use hbackup.Tests.Memory.{memory_file, nothing_taken}

-- The host, as a tree to be saved.
abbrev memory_tree : Tree
memory_tree = record {
  State = Disk;
  Handle = Bytes;
  exists = memory_host.exists;
  contents = λ p s. (ok [], s);
  lstat = λ p s. (inr 2, s);
  open_read = memory_host.open_read;
  readbytes = memory_host.readbytes;
  hashfile =
      λ p h s. (elim (Dict.lookup p s.files) [ none ↦ err (file_error 2) | some b ↦ ok b ], s);
  readlink = λ p s. (err (file_error 22), s);
  ismount = λ p s. (ok false, s);
  utimes = memory_host.utimes;
  rename = memory_host.rename;
}

-- A content stands for its hash.
abbrev plain_hash : Sha1
plain_hash = record {
  Context = Bytes;
  reset = ok [];
  input = λ c s. ok (c ++ s);
  result = λ c. ok c;
}

abbrev no_one : Database
no_one = record { name_of = λ id. none; id_of = λ s. none }

abbrev options : Options
options = record {
  repo = codes "b";
  root = codes "r";
  overwrite_index = false;
  preserve_atime = false;
  crossfs = true;
  recheckhash = true;
}

abbrev before : World Disk Disk (Bytes × Bytes) (Bytes × Bytes)
before = record {
  tree = record { files = (codes "r/f", codes "new") ∷ []; unread = [] };
  repository = record { files = []; unread = [] };
  users = record { uid2names = []; gid2names = []; names2uid = []; names2gid = []; log = no_log };
  counts = record {
    regular_files = 0;
    links = 0;
    devs = 0;
    socks = 0;
    small_files = 0;
    unknown_files = 0;
    new_hashes = 0;
    hints_used = 0;
  };
  inrepo = empty_table;
  hints = none;
  newhints = new_file ([], []);
  index = new_file ([], []);
  first = true;
  dirs = [];
  hashables = [];
}

abbrev item : Bytes → Hashable
item hash = record { path = codes "r/f"; hp = codes "b/x/y"; hash = hash }

abbrev stored : Bytes → Result (Unit {0}) × World Disk Disk (Bytes × Bytes) (Bytes × Bytes)
stored hash =
    store_file memory_tree memory_host memory_file memory_file plain_hash options 9 (item hash)
      before

stored_well : (stored (codes "new")).0 ≡ ok tt
unfolding store_file make_file move_file append_file Dict.erase Dict.lookup
stored_well = refl

stored_whole :
    Dict.lookup (codes "b/x/y") (stored (codes "new")).1.repository.files ≡ some (codes "new")
unfolding store_file make_file move_file append_file Dict.erase bytes_eq Dict.lookup
stored_whole = refl

-- The file had another content when it was hashed.
changed : (stored (codes "old")).0 ≡ fatal
unfolding store_file make_file move_file append_file Dict.erase Dict.lookup
changed = refl

changed_fails : (stored (codes "old")).0 ≢ ok tt
changed_fails e = let d : ◌≡◌ {A = Result (Unit {0})} fatal (ok tt) = sym changed ∙ e in absurd (cc)

above : (p r : Bytes) → p ++ r ≡ parent_of (codes "b/x/y") → p ≢ codes "b/x/y"
unfolding parent_of
above p r e f = absurd (omega (arith, length-append p r, ap length e, ap length f))

store_file-atomic_example :
    Dict.lookup (codes "b/x/y") (stored (codes "old")).1.repository.files ≡ none
unfolding Dict.lookup bytes_eq memory_host-IsHost
store_file-atomic_example =
    store_file-atomic memory_tree memory_host memory_host-IsHost memory_file memory_file plain_hash
      options 9 (item (codes "old")) (codes "b/x/y") before (temporary_for-ne (codes "b/x/y")) above
      (λ _. changed_fails)

-- No pattern matches.
abbrev no_patterns : Pcre
no_patterns = record { Regex = Bytes; compile = ok; exec = λ re s. no_match }

-- A directory lists the files of the disk, which are all regular.
abbrev regular_stat : Stat
regular_stat = record {
  mode = 32768;
  uid = 0;
  gid = 0;
  atime = 0;
  ctime = 0;
  mtime = 0;
  size = 0;
  nlink = 1;
  ino = 0;
  rdev = 0;
}

abbrev names_of : List (Bytes × Bytes) → List Bytes
names_of [] = []
names_of (f ∷ files) = f.0 ∷ names_of files

abbrev listing_tree : Tree
listing_tree = record memory_tree {
  contents = λ p s. (ok (names_of s.files), s);
  lstat = λ p s. (inl regular_stat, s);
}

abbrev listing : Bytes → Bytes → World Disk Disk (Bytes × Bytes) (Bytes × Bytes)
listing a b = record before {
  tree = record { files = (a, codes "x") ∷ (b, codes "y") ∷ []; unread = [] };
}

abbrev both : Bytes → Bytes → Kept
both a b = record { ci = a ∷ b ∷ []; s = (a, regular_stat) ∷ (b, regular_stat) ∷ [] }

abbrev opened : Opening Disk Disk memory_file memory_file memory_file
opened = record {
  open_index = λ p s. (ok ([], []), s);
  open_newhints = λ p s. (ok ([], []), s);
  open_hints = λ p s. (ok ([], []), s);
}

abbrev listed_from :
    Bytes → Bytes → Result (List Bytes) × World Disk Disk (Bytes × Bytes) (Bytes × Bytes)
listed_from a b =
    backup_here listing_tree memory_host memory_file memory_file memory_file plain_hash no_patterns
      [] options no_one no_one (λ h. 0) opened 9 (codes ".") (listing a b)

abbrev taken_in :
    List Bytes
    → Bytes
    → Bytes
    → Result (List Bytes) × World Disk Disk (Bytes × Bytes) (Bytes × Bytes)
taken_in names a b =
    taken listing_tree memory_host memory_file memory_file memory_file plain_hash no_patterns []
      options no_one no_one (λ h. 0) opened 9 (codes ".") (both a b) names (listing a b)

-- Both directories are of the files a and b.
backup_here-canonical_example :
    (names : List Bytes) × Permᴰ names (codes "b" ∷ codes "a" ∷ [])
    × (listed_from (codes "b") (codes "a") ≡ taken_in names (codes "b") (codes "a"))
    × (listed_from (codes "a") (codes "b") ≡ taken_in names (codes "a") (codes "b"))
unfolding collect inspect excluded stat_file keep_known kind_of_mode Dict.insert bytes_eq on_tree
    local_name
backup_here-canonical_example =
    backup_here-canonical listing_tree memory_host memory_file memory_file memory_file plain_hash
      no_patterns [] options no_one no_one (λ h. 0) opened 9 (codes ".")
      (listing (codes "b") (codes "a")) (listing (codes "a") (codes "b"))
      (listing (codes "b") (codes "a")) (listing (codes "a") (codes "b"))
      (both (codes "b") (codes "a")) (both (codes "a") (codes "b"))
      (record {
        c = codes "b" ∷ codes "a" ∷ [];
        w1 = listing (codes "b") (codes "a");
        lists = refl;
        considers = refl;
      })
      (record {
        c = codes "a" ∷ codes "b" ∷ [];
        w1 = listing (codes "a") (codes "b");
        lists = refl;
        considers = refl;
      })
      (Permᴰ.swap refl refl)

sort_test :
    sort (codes "b" ∷ codes "a.c" ∷ codes "a" ∷ []) ≡ codes "a" ∷ codes "a.c" ∷ codes "b" ∷ []
unfolding sort
sort_test = refl

-- A file that is open for reading.
abbrev open_file : File (reader_of memory_tree)
open_file = new_file (codes "r/f", record { files = []; unread = codes "content" })

memory_tree-IsReader : IsReader (reader_of memory_tree)
memory_tree-IsReader = record {
  content = λ d. d.1.unread;
  delivers = λ d n h. (
    take n d.1.unread,
    (d.0, record d.1 { unread = drop n d.1.unread }),
    refl,
    sym (take-append-drop n d.1.unread),
    length-take_le n d.1.unread,
    nothing_taken n d.1.unread h,
  );
}

-- The file has got shorter.
read_small-first_bytes_example :
    (read_small memory_tree memory_host memory_file memory_file options no_one no_one
      (λ h. 0)
      (8 + 1)
      8
      []
      open_file).0
    ≡ fatal
unfolding memory_tree-IsReader
read_small-first_bytes_example =
    read_small-first_bytes memory_tree memory_host memory_file memory_file options no_one no_one
      (λ h. 0) memory_tree-IsReader 8 open_file
      (new_file-IsReadable (reader_of memory_tree) memory_tree-IsReader _)
