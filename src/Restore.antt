-- ===== src/Restore.antt =====
-- restore.cc: do_restore(), which makes the files of an index. This module has what happens to one
-- line of it.
pub mod Lines
pub mod Objects
pub mod Copies
pub mod Attributes
pub mod Safety
use Prim.Native.Nat.{bit_or}
use hbackup.Prelude.{
  ℕ, zero, suc, ◌+◌, [], ◌∷◌, ◌++◌, List, Bool, true, false, Option, none, some, Bytes, codes,
  bytes_eq, nat_eq, same, length, ltb, leb, if◌then◌else◌, ◌==◌,
}
use hbackup.Prelude.Dict
use hbackup.Prelude.Dict.{Dict}
use hbackup.Outcome.{Result, ok, err, fatal, error, warning, Log, and_then}
use hbackup.Utils.Hex.{hashdecode}
use hbackup.Utils.Index.{Details, getdetail}
use hbackup.Numbers.{strtoull, strtol}
use hbackup.Users
use hbackup.Users.{Database, string2uid, string2gid}
use hbackup.Names.{resolve}
use hbackup.File.{Device, File, new_file, getbytes, put_all, flush, buffer_size}
use hbackup.Clean.Command.{hash_name}
use hbackup.Verify.{stored_at}
use hbackup.Host.{Host, file_of}

-- The counters of globals.cc that a restore changes.
pub record Totals : Type 0 where
  pub regular_files : ℕ
  pub dirs : ℕ
  pub links : ℕ
  pub devs : ℕ
  pub socks : ℕ
  pub hardlinks : ℕ
  pub small_files : ℕ

-- struct dirstamp
pub record Dirstamp : Type 0 where
  pub dir : Bytes
  pub atime : ℕ
  pub mtime : ℕ

-- The two file systems, the counters and maps of the program, and the variables of do_restore().
pub record World (S T : Type 0) : Type 0 where
  pub host : S
  pub backup : T
  pub users : Users.Names
  pub totals : Totals
  pub dir : Bytes
  pub inodes : Dict ℕ Bytes
  pub dirtimes : List Dirstamp

-- What the options say: the names, `permissions`, and whether the files are made locally.
pub record Options : Type 0 where
  pub repo : Bytes
  pub root : Bytes
  pub permissions : Bool
  pub is_local : Bool

-- Whether the line goes on, or is left by `continue`.
pub data Flow : Type 0 where
  goes_on skips : Flow

-- The comparisons of `*type`.
pub data Kind : Type 0 where
  regular link dir chr blk socket unknown : Kind

unfoldable pub kind_of : Option Bytes → Kind
unfolding bytes_eq
kind_of none = regular
kind_of (some type) =
    if same type (codes "link")
    then link
    else if same type (codes "dir")
    then dir
    else if same type (codes "chr")
    then chr
    else if same type (codes "blk")
    then blk
    else if same type (codes "socket")
    then socket
    else unknown

-- `details[key]`, which makes an empty entry where there is none.
unfoldable pub detail : Details → Bytes → Bytes
unfolding getdetail
detail details key = elim (getdetail details key) [ some v ↦ v | none ↦ [] ]

-- Calls of error() and warning().
unfoldable pub report_error : {S T : Type 0} → World S T → World S T
report_error w = record w { users = record w.users { log = error w.users.log } }

unfoldable pub report_warning : {S T : Type 0} → World S T → World S T
report_warning w = record w { users = record w.users { log = warning w.users.log } }

module _ (H R : Host) (opts : Options) (passwd group : Database) where
  -- A call on the file system that is restored to.
  unfoldable pub on_host :
      {A : Type 0}
      → (H.State → Result A × H.State)
      → World H.State R.State
      → Result A × World H.State R.State
  on_host f w = let (r, s) = f w.host in (r, record w { host = s })

  -- `try { hostfs->remove(tmpname); } catch(...) {}`; fatal() passes.
  unfoldable pub clear_away :
      Bytes → World H.State R.State → Result (Unit {0}) × World H.State R.State
  unfolding on_host
  clear_away tmpname w =
      let (r, w1) = on_host (H.remove tmpname) w in elim r [ fatal ↦ (fatal, w1) | _ ↦ (ok tt, w1) ]

  -- What is put into a file that was opened, with the file system behind it.
  unfoldable pub close_host :
      {A : Type 0}
      → Result A × File (file_of H)
      → World H.State R.State
      → Result A × World H.State R.State
  close_host (r, f) w = (r, record w { host = f.device.1 })

  -- A file that was saved with its bytes.
  unfoldable pub write_bytes :
      Bytes → Bytes → World H.State R.State → Result (Unit {0}) × World H.State R.State
  unfolding on_host close_host put_all flush
  write_bytes tmpname bytes w = and_then (on_host (H.open_write tmpname) w) λ h w1.
      close_host
        (and_then (put_all (file_of H) bytes (new_file (h, w1.host))) (λ _ f. flush (file_of H) f))
        w1

  -- What is done with the bytes of a block, where `next_block` is what follows.
  unfoldable pub copy_block :
      (File (file_of R)
        → File (file_of H)
        → Result (Unit {0}) × (File (file_of R) × File (file_of H)))
      → Bytes
      → File (file_of R)
      → File (file_of H)
      → Result (Unit {0}) × (File (file_of R) × File (file_of H))
  unfolding put_all flush
  copy_block next_block [] src dst = let (q, dst1) = flush (file_of H) dst in (q, (src, dst1))
  copy_block next_block (c ∷ s) src dst =
      let (q, dst1) = put_all (file_of H) (c ∷ s) dst in
      and_then (q, (src, dst1)) (λ _ p. next_block p.0 p.1)

  -- `while((n = src->getbytes(...))) dst->put(buffer, n); dst->flush();`, with fuel for the blocks.
  unfoldable pub copy_loop :
      ℕ
      → File (file_of R)
      → File (file_of H)
      → Result (Unit {0}) × (File (file_of R) × File (file_of H))
  unfolding getbytes copy_block
  copy_loop zero src dst = (fatal, (src, dst))
  copy_loop (suc fuel) src dst =
      let (r, src1) = getbytes (file_of R) buffer_size false src in
      and_then (r, (src1, dst)) (λ block p. copy_block (copy_loop fuel) block p.0 p.1)

  -- A file that was saved by its hash.
  unfoldable pub copy_file :
      ℕ → Bytes → Bytes → World H.State R.State → Result (Unit {0}) × World H.State R.State
  unfolding on_host copy_loop
  copy_file fuel hp tmpname w = and_then (on_host (H.open_write tmpname) w) λ h w1.
      let (r, s) = R.open_read hp w1.backup in
      and_then (r, record w1 { backup = s })
        λ g w2.
          let (q, p) = copy_loop fuel (new_file (g, w2.backup)) (new_file (h, w2.host)) in
          (q, record w2 { backup = p.0.device.1; host = p.1.device.1 })

  unfoldable pub write_hashed :
      ℕ → Bytes → Bytes → World H.State R.State → Result (Unit {0}) × World H.State R.State
  unfolding copy_file hashdecode stored_at
  write_hashed fuel hex tmpname w =
      let (r, l) = hashdecode hex w.users.log in
      and_then (r, record w { users = record w.users { log = l } })
        λ h w1. copy_file fuel (stored_at opts.repo h) tmpname w1

  module _ (convert : Bytes → Result Bytes) (fuel : ℕ) where
    -- Success goes on to the permissions.
    abbrev going : Result (Unit {0}) × World H.State R.State → Result Flow × World H.State R.State
    going m = and_then m (λ _ w. (ok goes_on, w))

    -- A directory is left alone if there is one.
    unfoldable pub make_dir :
        Bytes → Bytes → ℕ → World H.State R.State → Result Flow × World H.State R.State
    unfolding on_host report_warning
    make_dir fullname tmpname mode w = and_then (on_host (H.exists fullname) w) λ there w1.
        if there then (ok skips, report_warning w1) else going (on_host (H.mkdir tmpname mode) w1)

    -- sizeof sun.sun_path
    abbrev path_limit : ℕ
    path_limit = 108

    unfoldable pub make_socket : Bytes → World H.State R.State → Result Flow × World H.State R.State
    unfolding on_host report_warning report_error
    make_socket tmpname w =
        if opts.is_local
        then if leb path_limit (length tmpname)
          then (ok skips, report_error w)
          else and_then (on_host (H.make_socket tmpname) w)
              (λ bound w1. if bound then (ok goes_on, w1) else (ok skips, report_error w1))
        else (ok skips, report_warning w)

    -- A regular file by its bytes or its hash, and none if it has neither.
    unfoldable pub write_regular :
        Option Bytes
        → Option Bytes
        → Bytes
        → World H.State R.State
        → Result Flow × World H.State R.State
    unfolding write_bytes write_hashed report_error
    write_regular (some bytes) hash tmpname w = going (
        write_bytes tmpname bytes
          (record w { totals = record w.totals { small_files = w.totals.small_files + 1 } }))
    write_regular none (some hex) tmpname w = going (write_hashed fuel hex tmpname w)
    write_regular none none tmpname w = (ok skips, report_error w)

    -- `inodes[inodenum] = fullname`, if the line has an inode.
    unfoldable pub note_inode : Option Bytes → Bytes → World H.State R.State → World H.State R.State
    unfolding strtoull Dict.insert
    note_inode none fullname w = w
    note_inode (some inode) fullname w = record w {
      inodes = Dict.insert (strtoull inode) fullname w.inodes;
    }

    -- That is not reached by the `continue` for a file with neither.
    unfoldable pub remember :
        Flow → Option Bytes → Bytes → World H.State R.State → World H.State R.State
    unfolding note_inode
    remember goes_on inode fullname w = note_inode inode fullname w
    remember skips inode fullname w = w

    unfoldable pub make_regular :
        Details → Bytes → Bytes → World H.State R.State → Result Flow × World H.State R.State
    unfolding write_regular remember getdetail
    make_regular details fullname tmpname w =
        and_then
          (write_regular (getdetail details (codes "data")) (getdetail details hash_name) tmpname
            (record w { totals = record w.totals { regular_files = w.totals.regular_files + 1 } }))
          (λ flow w1. (ok flow, remember flow (getdetail details (codes "inode")) fullname w1))

    -- The mode of a device, and its type: S_IFCHR or S_IFBLK.
    unfoldable pub make_device :
        Details → ℕ → ℕ → Bytes → World H.State R.State → Result Flow × World H.State R.State
    unfolding on_host detail strtol
    make_device details devtype mode tmpname w = going (
        on_host
          (H.mknod tmpname (bit_or (if opts.permissions then mode else 438) devtype)
            (strtol 10 18446744073709551616 (detail details (codes "rdev"))))
          (record w { totals = record w.totals { devs = w.totals.devs + 1 } }))

    -- The object of a line, under its temporary name.
    unfoldable pub make_object :
        Kind
        → Details
        → Bytes
        → Bytes
        → ℕ
        → World H.State R.State
        → Result Flow × World H.State R.State
    unfolding on_host detail make_dir make_device make_socket make_regular report_error
    make_object regular details fullname tmpname mode w = make_regular details fullname tmpname w
    make_object link details fullname tmpname mode w =
        let w1 = record w { totals = record w.totals { links = w.totals.links + 1 } } in
        and_then (convert (detail details (codes "target")), w1)
          (λ target w2. going (on_host (H.symlink target tmpname) w2))
    make_object dir details fullname tmpname mode w =
        make_dir fullname tmpname (if opts.permissions then mode else 511)
          (record w { totals = record w.totals { dirs = w.totals.dirs + 1 } })
    make_object chr details fullname tmpname mode w = make_device details 8192 mode tmpname w
    make_object blk details fullname tmpname mode w = make_device details 24576 mode tmpname w
    make_object socket details fullname tmpname mode w =
        make_socket tmpname (record w { totals = record w.totals { socks = w.totals.socks + 1 } })
    make_object unknown details fullname tmpname mode w = (ok skips, report_error w)
