-- ===== src/Main.antt =====
-- nhbackup.cc: the options of the command line, the choice of the one command, and the exit status.
pub mod Choice
use hbackup.Prelude.{
  ℕ, ◌+◌, [], ◌∷◌, List, Bool, true, false, ◌&&◌, ◌||◌, not, Option, none, some, Bytes, ltb, ◌==◌,
  if◌then◌else◌,
}
use hbackup.Outcome.{Result, ok, err, fatal, Log, and_then}
use hbackup.Exclude.{Pcre, add}

-- What getopt_long() returns: the cases of the `switch`, with `optarg` where it is used. The
-- argument of -S is none where it is not given.
pub data Opt : Type 0 where
  backup_opt restore_opt verify_opt cleanup_opt speedtest_opt : Opt
  repo_opt index_opt root_opt exclude_opt sftp_opt : Bytes → Opt
  from_opt to_opt hint_opt : Bytes → Opt
  server_opt : Option Bytes → Opt
  one_file_system_opt preserve_atime_opt overwrite_opt delete_opt verbose_opt : Opt
  detect_bogus_opt no_permissions_opt no_recheck_opt : Opt
  help_opt version_opt unknown_opt : Opt

-- The option variables of main() and of globals.cc.
pub record Settings (R : Type 0) : Type 0 where
  pub backup : Bool
  pub restore : Bool
  pub verify : Bool
  pub clean : Bool
  pub speedtest : Bool
  pub repo : Bytes
  pub indexfile : Bytes
  pub root : Bytes
  pub sftphost : Bytes
  pub crossfs : Bool
  pub preserve_atime : Bool
  pub overwrite_index : Bool
  pub deleteclean : Bool
  pub verbose : Bool
  pub permissions : Bool
  pub detectbogus : Bool
  pub recheckhash : Bool
  pub exclusions : List R
  pub sftpserver : Option Bytes
  pub from_encoding : Option Bytes
  pub to_encoding : Option Bytes
  pub hintfile : Bytes

-- Their values at the start.
abbrev pub defaults : {R : Type 0} → Settings R
defaults = record {
  backup = false;
  restore = false;
  verify = false;
  clean = false;
  speedtest = false;
  repo = [];
  indexfile = [];
  root = [];
  sftphost = [];
  crossfs = true;
  preserve_atime = false;
  overwrite_index = false;
  deleteclean = false;
  verbose = false;
  permissions = true;
  detectbogus = false;
  recheckhash = true;
  exclusions = [];
  sftpserver = none;
  from_encoding = none;
  to_encoding = none;
  hintfile = [];
}

-- How the options end: they are read, or the process exits with a status, or `fatal` or an
-- exception that nothing catches ends it.
pub data Parsed (R : Type 0) : Type 0 where
  parsed : Settings R → Parsed R
  exits : (status : ℕ) → Parsed R
  aborts : Parsed R

-- The commands, over a state of the world. `clean` gets what stands behind the options.
pub record Commands (R : Type 0) : Type 1 where
  pub World : Type 0
  pub do_backup : Settings R → World → Result (Unit {0}) × World
  pub do_restore : Settings R → World → Result (Unit {0}) × World
  pub do_verify : Settings R → World → Result (Unit {0}) × World
  pub do_clean : Settings R → List Bytes → World → Result (Unit {0}) × World
  pub do_speedtest : Settings R → World → Result (Unit {0}) × World
  pub log : World → Log

-- A flag as a number.
abbrev pub counted : Bool → ℕ
counted true = 1
counted false = 0

unfoldable pub is_given : Option Bytes → Bool
is_given none = false
is_given (some b) = true

unfoldable pub is_empty : Bytes → Bool
is_empty [] = true
is_empty (c ∷ b) = false

module _ (P : Pcre) where
  -- The cases that set one option.
  unfoldable pub set_option : Opt → Settings P.Regex → Settings P.Regex
  set_option backup_opt s = record s { backup = true }
  set_option restore_opt s = record s { restore = true }
  set_option verify_opt s = record s { verify = true }
  set_option cleanup_opt s = record s { clean = true }
  set_option speedtest_opt s = record s { speedtest = true }
  set_option (repo_opt arg) s = record s { repo = arg }
  set_option (index_opt arg) s = record s { indexfile = arg }
  set_option (root_opt arg) s = record s { root = arg }
  set_option (sftp_opt arg) s = record s { sftphost = arg }
  set_option (from_opt arg) s = record s { from_encoding = some arg }
  set_option (to_opt arg) s = record s { to_encoding = some arg }
  set_option (hint_opt arg) s = record s { hintfile = arg }
  set_option (server_opt arg) s = record s { sftpserver = arg }
  set_option one_file_system_opt s = record s { crossfs = false }
  set_option preserve_atime_opt s = record s { preserve_atime = true }
  set_option overwrite_opt s = record s { overwrite_index = true }
  set_option delete_opt s = record s { deleteclean = true }
  set_option verbose_opt s = record s { verbose = true }
  set_option detect_bogus_opt s = record s { detectbogus = true }
  set_option no_permissions_opt s = record s { permissions = false }
  set_option no_recheck_opt s = record s { recheckhash = false }
  set_option _ s = s

  -- `exclusions.add(optarg)`
  unfoldable pub added : Result (List P.Regex) → Settings P.Regex → Parsed P.Regex
  added (ok res) s = parsed (record s { exclusions = res })
  added (err e) s = aborts
  added fatal s = exits 1

  -- The `switch`. The status of exit(-1) is 255.
  unfoldable pub one_option : Opt → Settings P.Regex → Parsed P.Regex
  unfolding added add set_option
  one_option (exclude_opt arg) s = added (add P arg s.exclusions) s
  one_option help_opt s = exits 0
  one_option version_opt s = exits 0
  one_option unknown_opt s = exits 255
  one_option o s = parsed (set_option o s)

  -- The loop over the options.
  unfoldable pub read_options : List Opt → Settings P.Regex → Parsed P.Regex
  unfolding one_option
  read_options [] s = parsed s
  read_options (o ∷ os) s = elim (one_option o s) [
    | parsed s1 ↦ read_options os s1
    | exits n ↦ exits n
    | aborts ↦ aborts
  ]

  -- `backup + restore + verify + clean + speedtest`
  unfoldable pub commands_chosen : Settings P.Regex → ℕ
  commands_chosen s =
      counted s.backup
      + counted s.restore
      + counted s.verify
      + counted s.clean
      + counted s.speedtest

  module _ (C : Commands P.Regex) where
    -- The body of the `try`, but for the file system that it makes and what it prints.
    unfoldable pub run_command :
        Settings P.Regex → List Bytes → C.World → Result (Unit {0}) × C.World
    unfolding is_given is_empty
    run_command s args w =
        if s.backup
        then if is_given s.from_encoding || is_given s.to_encoding
          then (fatal, w)
          else C.do_backup s w
        else if s.restore
        then C.do_restore s w
        else if s.verify
        then C.do_verify s w
        else if s.clean
        then if is_empty s.indexfile then C.do_clean s args w else (fatal, w)
        else if s.speedtest
        then C.do_speedtest s w
        else (ok tt, w)

    -- `return !!errors;`, and the status of `fatal`, which the handler calls for any exception.
    unfoldable pub exit_status : Result (Unit {0}) × C.World → ℕ
    exit_status (ok _, w) = if ltb 0 (C.log w).errors then 1 else 0
    exit_status (err e, w) = 1
    exit_status (fatal, w) = 1

    -- main() behind the options: the status and the world.
    unfoldable pub run : Settings P.Regex → List Bytes → C.World → ℕ × C.World
    unfolding commands_chosen run_command exit_status
    run s args w =
        let done = run_command s args w in
        if commands_chosen s == 1 then (exit_status done, done.1) else (1, w)

    -- main(), by what getopt_long() returns and the arguments behind the options; none where an
    -- exception ends the process.
    unfoldable pub main : List Opt → List Bytes → C.World → Option ℕ × C.World
    unfolding read_options run
    main opts args w = elim (read_options opts defaults) [
      | parsed s ↦ let (n, w1) = run s args w in (some n, w1)
      | exits n ↦ (some n, w)
      | aborts ↦ (none, w)
    ]
