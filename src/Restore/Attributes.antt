-- ===== src/Restore/Attributes.antt =====
-- The attributes of a line's object are set under its temporary name, and nothing else is touched.
use hbackup.Prelude.{
  ℕ, ◌≡◌, ◌≢◌, List, [], ◌∷◌, ◌++◌, Option, Bytes, codes, if◌then◌else◌, bytes_eq,
}
use hbackup.Outcome.{Result, ok, and_then, and_then_keeps}
use hbackup.Utils.Index.{Details}
use hbackup.Numbers.{strtoull}
use hbackup.Users.{Database, string2uid, string2gid}
use hbackup.Host.{Host, IsHost}
use hbackup.Restore.{
  World, Options, Dirstamp, Kind, regular, link, dir, chr, blk, socket, unknown, detail, on_host,
}
use hbackup.Restore.Lines.{temporary, set_owner, set_times, set_mode}
use hbackup.Restore.Objects

module _ (H R : Host) (L : IsHost H) (opts : Options) (passwd group : Database) (q fullname : Bytes)
    (c : Option L.Content) (other : temporary fullname ≢ q) (Stamps : List Dirstamp → Type 0)
    (push : (ds : List Dirstamp) (a m : ℕ)
      → Stamps ds
      → Stamps (ds ++ record { dir = fullname; atime = a; mtime = m } ∷ [])) where
  abbrev pub Keeps : World H.State R.State → Type 0
  Keeps = Objects.Keeps H R L opts passwd group q (temporary fullname) c other Stamps

  abbrev pub tmpname : Bytes
  tmpname = temporary fullname

  pub host-Keeps :
      {A : Type 0} (f : H.State → Result A × H.State)
      → ((s : H.State) → L.file (f s).1 q ≡ L.file s q)
      → (w : World H.State R.State) → Keeps w
      → Keeps (on_host H R opts passwd group f w).1
  host-Keeps = Objects.on_host-Keeps H R L opts passwd group q tmpname c other Stamps

  pub set_owner-Keeps :
      (details : Details) (w : World H.State R.State)
      → Keeps w
      → Keeps (set_owner H R opts passwd group details tmpname w).1
  unfolding set_owner
  set_owner-Keeps details w v =
      and_then_keeps {A = ℕ} {S = World H.State R.State} Keeps
        (
          (string2uid passwd (detail details (codes "uid")) w.users).0,
          record w { users = (string2uid passwd (detail details (codes "uid")) w.users).1 },
        )
        _ v
        λ uid w1 v1.
          and_then_keeps {A = ℕ} {S = World H.State R.State} Keeps
            (
              (string2gid group (detail details (codes "gid")) w1.users).0,
              record w1 { users = (string2gid group (detail details (codes "gid")) w1.users).1 },
            )
            _ v1
            λ gid w2 v2.
              host-Keeps (H.lchown tmpname uid gid) (λ s. L.lchown_keeps tmpname q uid gid s other)
                w2 v2

  set_times-Keeps :
      (kind : Kind) (details : Details) (w : World H.State R.State)
      → Keeps w
      → Keeps (set_times H R opts passwd group kind details fullname tmpname w).1
  unfolding set_times
  set_times-Keeps kind details w v = by_kind kind
    where
      times : Bytes × ℕ × ℕ
      times = (
        tmpname,
        strtoull (detail details (codes "atime")),
        strtoull (detail details (codes "mtime")),
      )

      at_once : Keeps (on_host H R opts passwd group (H.utimes times.0 times.1 times.2) w).1
      at_once =
          host-Keeps (H.utimes times.0 times.1 times.2)
            (λ s. L.utimes_keeps tmpname q times.1 times.2 s other) w v

      by_kind : (k : Kind) → Keeps (set_times H R opts passwd group k details fullname tmpname w).1
      by_kind dir = (v.0, push w.dirtimes times.1 times.2 v.1)
      by_kind regular = at_once
      by_kind link = at_once
      by_kind chr = at_once
      by_kind blk = at_once
      by_kind socket = at_once
      by_kind unknown = at_once

  pub set_mode-Keeps :
      (kind : Kind) (details : Details) (mode : ℕ) (w : World H.State R.State)
      → Keeps w
      → Keeps (set_mode H R opts passwd group kind details fullname tmpname mode w).1
  unfolding set_mode
  set_mode-Keeps kind details mode w v = by_kind kind
    where
      chmod_then :
          (k : Kind)
          → Keeps
              (and_then
                (if opts.permissions
                  then on_host H R opts passwd group (H.chmod tmpname mode) w
                  else (ok tt, w))
                (λ _ w1. set_times H R opts passwd group k details fullname tmpname w1)).1
      chmod_then k =
          and_then_keeps Keeps _ _
            (Objects.if-Keeps H R L opts passwd group q tmpname c other Stamps opts.permissions _ _
              (host-Keeps (H.chmod tmpname mode) (λ s. L.chmod_keeps tmpname q mode s other) w v) v)
            (λ _ w1 u. set_times-Keeps k details w1 u)

      by_kind :
          (k : Kind) → Keeps (set_mode H R opts passwd group k details fullname tmpname mode w).1
      by_kind link = v
      by_kind dir = chmod_then dir
      by_kind regular = chmod_then regular
      by_kind chr = chmod_then chr
      by_kind blk = chmod_then blk
      by_kind socket = chmod_then socket
      by_kind unknown = chmod_then unknown
