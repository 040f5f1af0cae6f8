-- ===== src/Tests/Restored.antt =====
-- A restore in memory, and what it leaves alone.
use hbackup.Prelude.{◌∙◌, ◌≡◌, refl, sym, [], ◌∷◌, true, none, some, Bytes, bytes_eq, nat_eq, codes}
use hbackup.Prelude.Dict
use hbackup.Prelude.Dict.{Dict}
use hbackup.Outcome.{Result, ok, fatal, no_log}
use hbackup.Users.{Database}
use hbackup.Recode.{Iconv, undocumented}
use hbackup.File.{getline}
use hbackup.Utils.Index.{read_index_line, Details}
use hbackup.Restore.Safety.{temporary-ne}
use hbackup.Restore.{World, Options}
use hbackup.Restore.Lines.{restore_at, do_restore}
use hbackup.Restore.Safety.{restore_at-atomic}
use hbackup.Tests.Memory.{memory_file}
use hbackup.Tests.Hosts.{
  append_file, make_file, touch_file, move_file, Disk, memory_host, memory_host-IsHost,
}

abbrev pub no_one : Database
no_one = record { name_of = λ id. none; id_of = λ s. none }

-- An encoding is never asked for.
abbrev no_iconv : Iconv
no_iconv = record {
  Descriptor = Unit {0};
  open_cd = λ t f. none;
  reset = λ cd. cd;
  run = λ cd s. record { taken = 0; written = []; state = cd; ending = undocumented };
}

abbrev pub options : Options
options = record { repo = codes "b"; root = codes "r"; permissions = true; is_local = true }

-- A restored tree with an older `f`, and a repository with an index.
abbrev before : World Disk Disk
before = record {
  host = record {
    files = (codes "r/f", codes "old") ∷ (codes "e/x", codes "kept") ∷ [];
    unread = [];
  };
  backup = record { files = []; unread = [] };
  users = record { uid2names = []; gid2names = []; names2uid = []; names2gid = []; log = no_log };
  totals = record {
    regular_files = 0;
    dirs = 0;
    links = 0;
    devs = 0;
    socks = 0;
    hardlinks = 0;
    small_files = 0;
  };
  dir = [];
  inodes = [];
  dirtimes = [];
}

abbrev line_of : Bytes → Details
line_of gid =
    (codes "name", codes "f")
    ∷ (codes "data", codes "new")
    ∷ (codes "perms", codes "0644")
    ∷ (codes "uid", codes "0")
    ∷ (codes "gid", gid)
    ∷ []

abbrev restored : Bytes → Result (Unit {0}) × World Disk Disk
restored gid =
    restore_at memory_host memory_host options no_one no_one (λ s. ok s) 9 (line_of gid)
      (codes "r/f") before

restored_well : (restored (codes "0")).0 ≡ ok tt
unfolding restore_at Dict.erase append_file make_file touch_file move_file
restored_well = refl

restored_file : Dict.lookup (codes "r/f") (restored (codes "0")).1.host.files ≡ some (codes "new")
unfolding restore_at Dict.erase append_file make_file touch_file move_file bytes_eq Dict.lookup
restored_file = refl

-- A group that nobody knows ends the restore, when the new file has been written already.
failed : (restored (codes "staff")).0 ≡ fatal
unfolding restore_at Dict.erase append_file make_file touch_file move_file
failed = refl

fails : ◌≡◌ {A = Result (Unit {0})} fatal (ok tt) → ⊥
fails e = cc

restore_at-atomic_example :
    Dict.lookup (codes "r/f") (restored (codes "staff")).1.host.files ≡ some (codes "old")
unfolding Dict.lookup bytes_eq memory_host-IsHost
restore_at-atomic_example =
    restore_at-atomic memory_host memory_host memory_host-IsHost options no_one no_one (λ s. ok s) 9
      (line_of (codes "staff")) (codes "r/f") (codes "r/f") before (temporary-ne (codes "r/f"))
      (λ _ e. fails (sym failed ∙ e))

abbrev an_index : Bytes
an_index = codes "name=d/f&data=new&perms=0644&uid=0&gid=0&atime=1&ctime=1&mtime=1\n[end]\n"

abbrev whole : Result (Unit {0}) × World Disk Disk
whole =
    do_restore memory_host memory_host options no_one no_one no_iconv memory_file
      (λ p s. (ok (an_index, []), s)) 99 none none (codes "i") before

whole_well : whole.0 ≡ ok tt
unfolding do_restore getline read_index_line Dict.erase append_file make_file touch_file move_file
whole_well = refl

whole_file : Dict.lookup (codes "r/d/f") whole.1.host.files ≡ some (codes "new")
unfolding do_restore getline read_index_line Dict.erase append_file make_file touch_file move_file
    bytes_eq Dict.lookup
whole_file = refl
