-- ===== src/Restore/Lines.antt =====
-- restore.cc: the lines of an index one after the other, and do_restore() as a whole.
use hbackup.Prelude.{
  ℕ, zero, suc, ◌+◌, [], ◌∷◌, ◌++◌, List, Option, none, some, Bytes, codes, bytes_eq, nat_eq, same,
  if◌then◌else◌,
}
use hbackup.Prelude.Dict
use hbackup.Outcome.{Result, ok, fatal, and_then}
use hbackup.Utils.Index.{Details, read_details, getdetail}
use hbackup.Numbers.{strtoull, strtol}
use hbackup.Users.{Database, string2uid, string2gid}
use hbackup.Names.{resolve}
use hbackup.File.{Device, File, new_file}
use hbackup.Recode.{Iconv, make_recoder, convert}
use hbackup.Host.{Host}
use hbackup.Restore.{
  World, Options, Dirstamp, goes_on, skips, Kind, link, dir, kind_of, detail, report_error, on_host,
  clear_away, make_object,
}

-- `fullname + "~restore~"`
unfoldable pub temporary : Bytes → Bytes
temporary fullname = fullname ++ codes "~restore~"

module _ (H R : Host) (opts : Options) (passwd group : Database) where
  -- lchown() with the IDs of the line's names.
  unfoldable pub set_owner :
      Details → Bytes → World H.State R.State → Result (Unit {0}) × World H.State R.State
  unfolding string2uid string2gid detail on_host
  set_owner details tmpname w =
      let (u, n) = string2uid passwd (detail details (codes "uid")) w.users in
      and_then (u, record w { users = n })
        λ uid w1.
          let (g, k) = string2gid group (detail details (codes "gid")) w1.users in
          and_then (g, record w1 { users = k })
            λ gid w2. on_host H R opts passwd group (H.lchown tmpname uid gid) w2

  -- The times are set at once, but those of a directory are kept for the end.
  unfoldable pub set_times :
      Kind
      → Details
      → Bytes
      → Bytes
      → World H.State R.State
      → Result (Unit {0}) × World H.State R.State
  unfolding detail strtoull on_host
  set_times kind details fullname tmpname w =
      let atime = strtoull (detail details (codes "atime")) in
      let mtime = strtoull (detail details (codes "mtime")) in
      elim kind [
        | dir ↦ (
          ok tt,
          record w {
            dirtimes = w.dirtimes ++ record { dir = fullname; atime = atime; mtime = mtime } ∷ [];
          },
        )
        | _ ↦ on_host H R opts passwd group (H.utimes tmpname atime mtime) w
      ]

  -- The mode and the times, which a symbolic link does not have.
  unfoldable pub set_mode :
      Kind
      → Details
      → Bytes
      → Bytes
      → ℕ
      → World H.State R.State
      → Result (Unit {0}) × World H.State R.State
  unfolding on_host set_times
  set_mode kind details fullname tmpname mode w = elim kind [
    | link ↦ (ok tt, w)
    | k ↦
        and_then
          (if opts.permissions
            then on_host H R opts passwd group (H.chmod tmpname mode) w
            else (ok tt, w))
          (λ _ w1. set_times k details fullname tmpname w1)
  ]

  -- What follows the making of an object: its attributes, and its name.
  unfoldable pub finish :
      Kind
      → Details
      → Bytes
      → Bytes
      → ℕ
      → World H.State R.State
      → Result (Unit {0}) × World H.State R.State
  unfolding on_host set_owner set_mode
  finish kind details fullname tmpname mode w =
      and_then (if opts.permissions then set_owner details tmpname w else (ok tt, w)) λ _ w1.
        and_then (set_mode kind details fullname tmpname mode w1)
          λ _ w2. on_host H R opts passwd group (H.rename tmpname fullname) w2

  -- The path of a file that was restored already and has the line's inode.
  unfoldable pub linked_to : Option Bytes → World H.State R.State → Option Bytes
  unfolding strtoull Dict.lookup
  linked_to none w = none
  linked_to (some inode) w = Dict.lookup (strtoull inode) w.inodes

  unfoldable pub link_line :
      Bytes → Bytes → Bytes → World H.State R.State → Result (Unit {0}) × World H.State R.State
  unfolding on_host
  link_line path fullname tmpname w =
      and_then
        (on_host H R opts passwd group (H.link path tmpname)
          (record w { totals = record w.totals { hardlinks = w.totals.hardlinks + 1 } }))
        (λ _ w1. on_host H R opts passwd group (H.rename tmpname fullname) w1)

  module _ (recode : Bytes → Result Bytes) (fuel : ℕ) where
    unfoldable pub new_line :
        Details → Bytes → Bytes → World H.State R.State → Result (Unit {0}) × World H.State R.State
    unfolding kind_of getdetail detail strtol make_object finish
    new_line details fullname tmpname w =
        let mode = strtol 8 4294967296 (detail details (codes "perms")) in
        let kind = kind_of (getdetail details (codes "type")) in
        and_then
          (make_object H R opts passwd group recode fuel kind details fullname tmpname mode w)
          (λ flow w1. elim flow [
            | goes_on ↦ finish kind details fullname tmpname mode w1
            | skips ↦ (ok tt, w1)
          ])

    -- A line, once its name is known.
    unfoldable pub restore_at :
        Details → Bytes → World H.State R.State → Result (Unit {0}) × World H.State R.State
    unfolding clear_away linked_to link_line new_line temporary getdetail
    restore_at details fullname w =
        and_then (clear_away H R opts passwd group (temporary fullname) w) λ _ w1.
          elim (linked_to (getdetail details (codes "inode")) w1) [
            | some path ↦ link_line path fullname (temporary fullname) w1
            | none ↦ new_line details fullname (temporary fullname) w1
          ]

    -- The body of the loop.
    unfoldable pub restore_line :
        Details → World H.State R.State → Result (Unit {0}) × World H.State R.State
    unfolding restore_at resolve report_error detail
    restore_line details w =
        and_then (recode (detail details (codes "name")), w)
          λ name w1.
            let (o, d) = resolve w1.dir name in
            let w2 = record w1 { dir = d } in
            elim o [
              | none ↦ (ok tt, report_error w2)
              | some n ↦ restore_at details (opts.root ++ b'/' ∷ n) w2
            ]

    -- `while(readIndexLine(f, details))`, with fuel for the lines.
    unfoldable pub restore_lines :
        (V : Device)
        → ℕ
        → File V
        → World H.State R.State
        → Result (Unit {0}) × World H.State R.State
    unfolding restore_line read_details
    restore_lines V zero f w = (fatal, w)
    restore_lines V (suc n) f w =
        let (r, rd) = read_details V fuel (record { file = f; log = w.users.log }) in
        and_then (r, record w { users = record w.users { log = rd.log } })
          λ o w1. elim o [
            | none ↦ (ok tt, w1)
            | some details ↦
                and_then (restore_line details w1) (λ _ w2. restore_lines V n rd.file w2)
          ]

  -- The last loop.
  unfoldable pub fix_times :
      List Dirstamp → World H.State R.State → Result (Unit {0}) × World H.State R.State
  unfolding on_host
  fix_times [] w = (ok tt, w)
  fix_times (d ∷ ds) w =
      and_then (on_host H R opts passwd group (H.utimes d.dir d.atime d.mtime) w)
        (λ _ w1. fix_times ds w1)

  -- do_restore(), with `indexfile` and the encodings as the options give them. The fuel bounds the
  -- lines, their bytes, and the blocks of a file.
  unfoldable pub do_restore :
      (I : Iconv) (V : Device)
      → (Bytes → R.State → Result V.State × R.State)
      → ℕ
      → Option Bytes
      → Option Bytes
      → Bytes
      → World H.State R.State
      → Result (Unit {0}) × World H.State R.State
  unfolding make_recoder convert restore_lines fix_times bytes_eq
  do_restore I V open_index fuel from to indexfile w =
      and_then (make_recoder I from to, w)
        λ cd w1.
          if same opts.repo []
          then (fatal, w1)
          else if same opts.root []
          then (fatal, w1)
          else if same indexfile []
          then (fatal, w1)
          else let (r, s) = open_index indexfile w1.backup in
            and_then (r, record w1 { backup = s; dir = []; inodes = []; dirtimes = [] })
              λ d w2.
                and_then (restore_lines (convert I fuel cd) fuel V fuel (new_file d) w2)
                  (λ _ w3. fix_times w3.dirtimes w3)
