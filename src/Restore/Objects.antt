-- ===== src/Restore/Objects.antt =====
-- The object of a line is made under its temporary name, and nothing else is touched.
use hbackup.Numbers.{strtol}
use Prim.Native.Nat.{bit_or}
use hbackup.Prelude.{
  ℕ, ◌+◌, zero, suc, ◌≡◌, ◌≢◌, refl, sym, ◌∙◌, List, [], ◌∷◌, Bool, true, false, Option, none, some,
  Bytes, if◌then◌else◌, codes, leb, length,
}
use hbackup.Outcome.{Result, ok, err, fatal, and_then, and_then_keeps}
use hbackup.Utils.Hex.{hashdecode}
use hbackup.Utils.Index.{Details, getdetail}
use hbackup.Users.{Database}
use hbackup.File.{File, new_file, getbytes, put_all, flush, buffer_size}
use hbackup.File.Keeps.{IsKept, put_all_keeps, flush_keeps}
use hbackup.Clean.Command.{hash_name}
use hbackup.Verify.{stored_at}
use hbackup.Host.{Host, IsHost, file_of}
use hbackup.Restore.{
  World, Options, Dirstamp, Flow, goes_on, skips, Kind, regular, link, dir, chr, blk, socket,
  unknown, detail, report_error, report_warning, on_host, close_host, write_bytes, copy_block,
  copy_loop, copy_file, write_hashed, make_dir, make_socket, write_regular, remember, note_inode,
  make_regular, make_device, make_object,
}

module _ (H R : Host) (L : IsHost H) (opts : Options) (passwd group : Database) (q tmpname : Bytes)
    (c : Option L.Content) (other : tmpname ≢ q) (Stamps : List Dirstamp → Type 0) where
  -- What stands at `q` is `c`, and the times that are left to set have `Stamps`.
  abbrev pub Keeps : World H.State R.State → Type 0
  Keeps w = ◌≡◌ {A = Option L.Content} (L.file w.host q) c × Stamps w.dirtimes

  -- The file that is written stands at the temporary name, and `q` is as it was.
  abbrev IsApart : H.Handle × H.State → Type 0
  IsApart d = (L.opened_at d.0 ≡ tmpname) × ◌≡◌ {A = Option L.Content} (L.file d.1 q) c

  away : (h : H.Handle) → L.opened_at h ≡ tmpname → L.opened_at h ≢ q
  away h e f = other (sym e ∙ f)

  device-IsKept : IsKept (file_of H) IsApart
  device-IsKept = record {
    write = λ d s v. (v.0, L.writebytes_keeps d.0 s q d.1 (away d.0 v.0) ∙ v.1);
    sync = λ d v. (v.0, L.synchronize_keeps d.0 q d.1 (away d.0 v.0) ∙ v.1);
  }

  flush-IsApart : (f : File (file_of H)) → IsApart f.device → IsApart (flush (file_of H) f).1.device
  flush-IsApart = flush_keeps (file_of H) IsApart device-IsKept

  put_all-IsApart :
      (s : Bytes) (f : File (file_of H))
      → IsApart f.device
      → IsApart (put_all (file_of H) s f).1.device
  put_all-IsApart = put_all_keeps (file_of H) IsApart device-IsKept

  -- A file that was opened under the temporary name.
  opened :
      {B : Type 0} (w : World H.State R.State)
      (f : H.Handle → World H.State R.State → Result B × World H.State R.State)
      → Keeps w
      → ((h : H.Handle) (w1 : World H.State R.State)
          → L.opened_at h ≡ tmpname
          → Keeps w1
          → Keeps (f h w1).1)
      → Keeps (and_then (on_host H R opts passwd group (H.open_write tmpname) w) f).1
  unfolding on_host
  opened w f v k = go (H.open_write tmpname w.host).0 refl
    where
      go :
          (r : Result H.Handle)
          → (H.open_write tmpname w.host).0 ≡ r
          → Keeps (and_then (on_host H R opts passwd group (H.open_write tmpname) w) f).1
      go (ok h) e = rw e (
          k h _ (L.open_write_at tmpname w.host h e)
            (L.open_write_keeps tmpname q w.host other ∙ v.0, v.1))
      go (err x) e = rw e (L.open_write_keeps tmpname q w.host other ∙ v.0, v.1)
      go fatal e = rw e (L.open_write_keeps tmpname q w.host other ∙ v.0, v.1)

  write_bytes-Keeps :
      (bytes : Bytes) (w : World H.State R.State)
      → Keeps w
      → Keeps (write_bytes H R opts passwd group tmpname bytes w).1
  unfolding write_bytes close_host
  write_bytes-Keeps bytes w v = opened w _ v λ h w1 at v1. (
    (and_then_keeps (λ f. IsApart f.device) (put_all (file_of H) bytes (new_file (h, w1.host))) _
        (put_all-IsApart bytes (new_file (h, w1.host)) (at, v1.0)) (λ _ f. flush-IsApart f)).1,
    v1.1,
  )

  copy_block-IsApart :
      (next_block : File (file_of R)
        → File (file_of H)
        → Result (Unit {0}) × (File (file_of R) × File (file_of H)))
      → ((src : File (file_of R)) (dst : File (file_of H))
          → IsApart dst.device
          → IsApart (next_block src dst).1.1.device)
      → (block : Bytes) (src : File (file_of R)) (dst : File (file_of H)) → IsApart dst.device
      → IsApart (copy_block H R opts passwd group next_block block src dst).1.1.device
  unfolding copy_block
  copy_block-IsApart next_block k [] src dst v = flush-IsApart dst v
  copy_block-IsApart next_block k (x ∷ s) src dst v =
      and_then_keeps (λ p. IsApart p.1.device)
        ((put_all (file_of H) (x ∷ s) dst).0, (src, (put_all (file_of H) (x ∷ s) dst).1))
        (λ _ p. next_block p.0 p.1) (put_all-IsApart (x ∷ s) dst v) (λ _ p u. k p.0 p.1 u)

  copy_loop-IsApart :
      (fuel : ℕ) (src : File (file_of R)) (dst : File (file_of H))
      → IsApart dst.device
      → IsApart (copy_loop H R opts passwd group fuel src dst).1.1.device
  unfolding copy_loop
  copy_loop-IsApart zero src dst v = v
  copy_loop-IsApart (suc fuel) src dst v =
      and_then_keeps {S = File (file_of R) × File (file_of H)} (λ p. IsApart p.1.device)
        (
          (getbytes (file_of R) buffer_size false src).0,
          ((getbytes (file_of R) buffer_size false src).1, dst),
        )
        _ v
        (λ block p u.
          copy_block-IsApart (copy_loop H R opts passwd group fuel)
            (λ src1 dst1 u1. copy_loop-IsApart fuel src1 dst1 u1) block p.0 p.1 u)

  copy_file-Keeps :
      (fuel : ℕ) (hp : Bytes) (w : World H.State R.State)
      → Keeps w
      → Keeps (copy_file H R opts passwd group fuel hp tmpname w).1
  unfolding copy_file
  copy_file-Keeps fuel hp w v = opened w _ v λ h w1 at v1.
      and_then_keeps Keeps
        ((R.open_read hp w1.backup).0, record w1 { backup = (R.open_read hp w1.backup).1 }) _ v1
        λ g w2 v2. (
          (copy_loop-IsApart fuel (new_file (g, w2.backup)) (new_file (h, w2.host)) (at, v2.0)).1,
          v2.1,
        )

  write_hashed-Keeps :
      (fuel : ℕ) (hex : Bytes) (w : World H.State R.State)
      → Keeps w
      → Keeps (write_hashed H R opts passwd group fuel hex tmpname w).1
  unfolding write_hashed
  write_hashed-Keeps fuel hex w v =
      and_then_keeps Keeps
        (
          (hashdecode hex w.users.log).0,
          record w { users = record w.users { log = (hashdecode hex w.users.log).1 } },
        )
        _ v (λ h w1 v1. copy_file-Keeps fuel (stored_at opts.repo h) w1 v1)

  pub on_host-Keeps :
      {A : Type 0} (f : H.State → Result A × H.State)
      → ((s : H.State) → L.file (f s).1 q ≡ L.file s q)
      → (w : World H.State R.State) → Keeps w
      → Keeps (on_host H R opts passwd group f w).1
  unfolding on_host
  on_host-Keeps f e w v = (e w.host ∙ v.0, v.1)

  pub on_host_then :
      {A B : Type 0} (f : H.State → Result A × H.State)
      (k : A → World H.State R.State → Result B × World H.State R.State)
      → ((s : H.State) → L.file (f s).1 q ≡ L.file s q)
      → (w : World H.State R.State) → Keeps w
      → ((a : A) (w1 : World H.State R.State) → Keeps w1 → Keeps (k a w1).1)
      → Keeps (and_then (on_host H R opts passwd group f w) k).1
  on_host_then f k e w v =
      and_then_keeps Keeps (on_host H R opts passwd group f w) k (on_host-Keeps f e w v)

  pub if-Keeps :
      {A : Type 0} (b : Bool) (m n : Result A × World H.State R.State)
      → Keeps m.1
      → Keeps n.1
      → Keeps (if b then m else n).1
  if-Keeps true m n u v = u
  if-Keeps false m n u v = v

  module _ (convert : Bytes → Result Bytes) (fuel : ℕ) where
    going-Keeps :
        (m : Result (Unit {0}) × World H.State R.State)
        → Keeps m.1
        → Keeps (and_then m (λ _ w. (ok goes_on, w))).1
    going-Keeps m v = and_then_keeps Keeps m _ v (λ _ w u. u)

    make_dir-Keeps :
        (fullname : Bytes) (mode : ℕ) (w : World H.State R.State)
        → Keeps w
        → Keeps (make_dir H R opts passwd group convert fuel fullname tmpname mode w).1
    unfolding make_dir report_warning
    make_dir-Keeps fullname mode w v =
        on_host_then (H.exists fullname) _ (L.exists_keeps fullname q) w v λ there w1 u.
          if-Keeps there _ _ u (
            on_host_then (H.mkdir tmpname mode) (λ _ w2. (ok goes_on, w2))
              (λ s. L.mkdir_keeps tmpname q mode s other) w1 u (λ _ w2 u2. u2))

    make_socket-Keeps :
        (w : World H.State R.State)
        → Keeps w
        → Keeps (make_socket H R opts passwd group convert fuel tmpname w).1
    unfolding make_socket report_warning report_error
    make_socket-Keeps w v =
        if-Keeps opts.is_local _ _
          (if-Keeps (leb 108 (length tmpname)) _ _ v (
            on_host_then (H.make_socket tmpname) _ (λ s. L.make_socket_keeps tmpname q s other) w v
              (λ bound w1 u. if-Keeps bound _ _ u u)))
          v

    write_regular-Keeps :
        (bytes hash : Option Bytes) (w : World H.State R.State)
        → Keeps w
        → Keeps (write_regular H R opts passwd group convert fuel bytes hash tmpname w).1
    unfolding write_regular report_error
    write_regular-Keeps (some bytes) hash w v = going-Keeps _ (write_bytes-Keeps bytes _ v)
    write_regular-Keeps none (some hex) w v = going-Keeps _ (write_hashed-Keeps fuel hex w v)
    write_regular-Keeps none none w v = v

    make_regular-Keeps :
        (details : Details) (fullname : Bytes) (w : World H.State R.State)
        → Keeps w
        → Keeps (make_regular H R opts passwd group convert fuel details fullname tmpname w).1
    unfolding make_regular remember note_inode
    make_regular-Keeps details fullname w v =
        and_then_keeps {A = Flow} Keeps _ _
          (write_regular-Keeps (getdetail details (codes "data")) (getdetail details hash_name)
            (record w { totals = record w.totals { regular_files = w.totals.regular_files + 1 } })
            v)
          (λ flow w1 u. by_flow flow (getdetail details (codes "inode")) w1 u)
      where
        by_flow :
            (flow : Flow) (inode : Option Bytes) (w1 : World H.State R.State)
            → Keeps w1
            → Keeps (remember H R opts passwd group convert fuel flow inode fullname w1)
        by_flow goes_on none w1 u = u
        by_flow goes_on (some inode) w1 u = u
        by_flow skips inode w1 u = u

    make_device-Keeps :
        (details : Details) (devtype mode : ℕ) (w : World H.State R.State)
        → Keeps w
        → Keeps (make_device H R opts passwd group convert fuel details devtype mode tmpname w).1
    unfolding make_device
    make_device-Keeps details devtype mode w v =
        on_host_then
          (H.mknod tmpname (bit_or (if opts.permissions then mode else 438) devtype)
            (strtol 10 18446744073709551616 (detail details (codes "rdev"))))
          (λ _ w1. (ok goes_on, w1)) (λ s. L.mknod_keeps tmpname q _ _ s other)
          (record w { totals = record w.totals { devs = w.totals.devs + 1 } }) v (λ _ w1 u. u)

    pub make_object-Keeps :
        (kind : Kind) (details : Details) (fullname : Bytes) (mode : ℕ) (w : World H.State R.State)
        → Keeps w
        → Keeps
            (make_object H R opts passwd group convert fuel kind details fullname tmpname mode w).1
    unfolding make_object report_error
    make_object-Keeps regular details fullname mode w v = make_regular-Keeps details fullname w v
    make_object-Keeps link details fullname mode w v =
        and_then_keeps Keeps (convert (detail details (codes "target")), _) _ v
          λ target w2 u. going-Keeps _ (
            on_host-Keeps (H.symlink target tmpname) (λ s. L.symlink_keeps target tmpname q s other)
              w2 u)
    make_object-Keeps dir details fullname mode w v = make_dir-Keeps fullname _ _ v
    make_object-Keeps chr details fullname mode w v = make_device-Keeps details 8192 mode w v
    make_object-Keeps blk details fullname mode w v = make_device-Keeps details 24576 mode w v
    make_object-Keeps socket details fullname mode w v = make_socket-Keeps _ v
    make_object-Keeps unknown details fullname mode w v = v
