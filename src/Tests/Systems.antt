-- ===== src/Tests/Systems.antt =====
-- The theorems on local.cc and nhbackup.cc, at system calls in memory and at commands that succeed.
use hbackup.Prelude.{
  ◌≡◌, refl, ap, [], ◌∷◌, ◌++◌, List, Option, none, some, take, drop, length, Bytes, codes, arith,
  bytes_eq,
}
use hbackup.Outcome.{ok, Log, no_log}
use hbackup.Exclude.{Pcre, no_match}
use hbackup.Sftp.Requests.Contents.{is_listed}
use hbackup.Local.{Returned, failed, returned, System}
use hbackup.Local.Directories.{contents}
use hbackup.Local.Laws.{IsDirectory, listed, contents-listed}
use hbackup.Main.{
  Opt, backup_opt, repo_opt, verbose_opt, Settings, defaults, Commands, read_options, parsed, main,
}
use hbackup.Main.Choice.{asks_only, mentions, commands_named, HasRun, main-success}

-- The names left in the one directory, and what is left to read of the one file and was written.
record Disk : Type 0 where
  pub names : List Bytes
  pub input : Bytes
  pub output : Bytes

abbrev pop_name : List Bytes → Disk → Returned (Option Bytes) × Disk
pop_name [] d = (returned none, d)
pop_name (name ∷ rest) d = (returned (some name), record d { names = rest })

abbrev memory_system : System
memory_system = record {
  State = Disk;
  open_fd = λ p f m d. (returned 3, d);
  close = λ fd d. (returned tt, d);
  read = λ fd n d. (returned (take n d.input), record d { input = drop n d.input });
  write = λ fd b d. (returned (length b), record d { output = d.output ++ b });
  select = λ fd d. (failed 4, d);
  rename = λ p q d. (failed 2, d);
  link = λ p q d. (failed 2, d);
  remove = λ p d. (failed 2, d);
  mkdir = λ p m d. (failed 17, d);
  mknod = λ p m n d. (failed 1, d);
  lchown = λ p u g d. (failed 1, d);
  chmod = λ p m d. (returned tt, d);
  symlink = λ p q d. (failed 17, d);
  utimes = λ p a m d. (returned tt, d);
  stat = λ p d. (failed 2, d);
  lstat = λ p d. (failed 2, d);
  readlink = λ p n d. (failed 22, d);
  opendir = λ p d. (returned 5, d);
  readdir = λ dp d. pop_name d.names d;
  closedir = λ dp d. (returned tt, d);
}

abbrev entries : List Bytes
entries = codes "." ∷ codes "a" ∷ codes ".." ∷ codes ".b" ∷ []

abbrev disk : Disk
disk = record { names = entries; input = codes "in"; output = codes "old" }

pop_name-cons :
    (d : Disk) (name : Bytes) (rest : List Bytes)
    → d.names ≡ name ∷ rest
    → pop_name d.names d ≡ (returned (some name), record d { names = rest })
pop_name-cons d name rest e = ap (λ ns. pop_name ns d) e

pop_name-none : (d : Disk) → d.names ≡ [] → pop_name d.names d ≡ (returned none, d)
pop_name-none d e = ap (λ ns. pop_name ns d) e

disk-IsDirectory : IsDirectory memory_system (codes "d") entries disk
disk-IsDirectory = record {
  dp = 5;
  left = λ d. d.names;
  opened = disk;
  opens = refl;
  all_left = refl;
  reads = λ d name rest e. (record d { names = rest }, pop_name-cons d name rest e, refl);
  ends = λ d e. (d, pop_name-none d e);
  closes = λ d. (d, refl);
}

contents-listed_example :
    (d : Disk) × (contents memory_system 5 (codes "d") disk ≡ (ok (codes "a" ∷ codes ".b" ∷ []), d))
unfolding listed bytes_eq is_listed
contents-listed_example =
    contents-listed memory_system 5 (codes "d") entries disk (omega arith) disk-IsDirectory

-- No pattern matches.
abbrev no_patterns : Pcre
no_patterns = record { Regex = Bytes; compile = ok; exec = λ re s. no_match }

-- Every command succeeds, and counts no error.
abbrev easy : Commands Bytes
easy = record {
  World = Log;
  do_backup = λ s w. (ok tt, w);
  do_restore = λ s w. (ok tt, w);
  do_verify = λ s w. (ok tt, w);
  do_clean = λ s args w. (ok tt, w);
  do_speedtest = λ s w. (ok tt, w);
  log = λ w. w;
}

abbrev command_line : List Opt
command_line = backup_opt ∷ repo_opt (codes "r") ∷ backup_opt ∷ verbose_opt ∷ []

main-success_example :
    (commands_named command_line ≡ 1)
    × ((s : Settings Bytes) × (read_options no_patterns command_line defaults ≡ parsed s)
        × HasRun no_patterns easy command_line s [] no_log no_log)
unfolding main mentions asks_only
main-success_example = main-success no_patterns easy command_line [] no_log no_log refl refl
