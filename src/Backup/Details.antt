-- ===== src/Backup/Details.antt =====
-- What do_restore() takes from the map of the fields that backup_dir() writes.
use hbackup.Prelude.{
  ◌%◌, ◌<◌, ◌≡◌, refl, ap, ◌∙◌, [], ◌∷◌, ◌++◌, List, none, some, Bytes, codes, bytes_eq,
  if◌then◌else◌, ltb, Bool-cases, inl, inr, arith,
}
use hbackup.Prelude.Dict
use hbackup.Utils.Index.{Details, getdetail}
use hbackup.Utils.Index.Laws.{assign_all}
use hbackup.Utils.Hex.{hexencode}
use hbackup.Numbers.{decimal, octal, strtol, strtoull}
use hbackup.Numbers.RoundTrip.{strtol-octal, strtol-decimal, strtoull-decimal}
use hbackup.Clean.Command.{hash_name}
use hbackup.Restore.{regular, link, dir, chr, blk, socket, kind_of, detail}
use hbackup.Backup.{Stat}
use hbackup.Backup.RoundTrip.{
  Body, of_dir, of_chr, of_blk, of_socket, of_link, of_data, of_hash, generic_fields, body_fields,
}

-- The fields of a line behind the name.
abbrev pub fields : Body → Stat → Bytes → Bytes → List (Bytes × Bytes)
fields b sb user group = generic_fields sb user group ++ body_fields b sb

abbrev pub details_of : Bytes → Body → Stat → Bytes → Bytes → Details
details_of relname b sb user group =
    assign_all ((codes "name", relname) ∷ fields b sb user group) []

-- The numbers that a line can hold: times and inodes of 64 bits, and devices of 31.
pub record IsPrintable (sb : Stat) : Type 0 where
  pub atime_fits : sb.atime < 18446744073709551616
  pub mtime_fits : sb.mtime < 18446744073709551616
  pub rdev_fits : sb.rdev < 2147483648

-- The inode is there if the file has several links.
abbrev pub InodeOf : Details → Stat → Type 0
InodeOf d sb =
    getdetail d (codes "inode") ≡ (if ltb 1 sb.nlink then some (decimal sb.ino) else none)

-- What is read of a body.
abbrev pub HoldsBody : Details → Stat → Body → Type 0
HoldsBody d sb of_dir = kind_of (getdetail d (codes "type")) ≡ dir
HoldsBody d sb of_chr =
    (kind_of (getdetail d (codes "type")) ≡ chr)
    × (strtol 10 18446744073709551616 (detail d (codes "rdev")) ≡ sb.rdev)
HoldsBody d sb of_blk =
    (kind_of (getdetail d (codes "type")) ≡ blk)
    × (strtol 10 18446744073709551616 (detail d (codes "rdev")) ≡ sb.rdev)
HoldsBody d sb of_socket = kind_of (getdetail d (codes "type")) ≡ socket
HoldsBody d sb (of_link target) =
    (kind_of (getdetail d (codes "type")) ≡ link) × (detail d (codes "target") ≡ target)
HoldsBody d sb (of_data buffer) =
    (kind_of (getdetail d (codes "type")) ≡ regular)
    × (getdetail d (codes "data") ≡ some buffer)
    × InodeOf d sb
HoldsBody d sb (of_hash h) =
    (kind_of (getdetail d (codes "type")) ≡ regular)
    × (getdetail d (codes "data") ≡ none)
    × (getdetail d hash_name ≡ some (hexencode h))
    × InodeOf d sb

-- What do_restore() takes from the details, as it takes it.
pub record IsReadBack (d : Details) (relname user group : Bytes) (sb : Stat) (b : Body)
    : Type 0 where
  pub name : detail d (codes "name") ≡ relname
  pub perms : strtol 8 4294967296 (detail d (codes "perms")) ≡ sb.mode % 4096
  pub uid : detail d (codes "uid") ≡ user
  pub gid : detail d (codes "gid") ≡ group
  pub atime : strtoull (detail d (codes "atime")) ≡ sb.atime
  pub mtime : strtoull (detail d (codes "mtime")) ≡ sb.mtime
  pub body : HoldsBody d sb b

-- The generic details that do_restore() looks up.
record Generic : Type 0 where
  name : Bytes
  perms : Bytes
  uid : Bytes
  gid : Bytes
  atime : Bytes
  mtime : Bytes

abbrev generic_of : Details → Generic
generic_of d = record {
  name = detail d (codes "name");
  perms = detail d (codes "perms");
  uid = detail d (codes "uid");
  gid = detail d (codes "gid");
  atime = detail d (codes "atime");
  mtime = detail d (codes "mtime");
}

abbrev generic_for : Bytes → Bytes → Bytes → Stat → Generic
generic_for relname user group sb = record {
  name = relname;
  perms = octal (sb.mode % 4096);
  uid = user;
  gid = group;
  atime = decimal sb.atime;
  mtime = decimal sb.mtime;
}

details_of-generic :
    (relname user group : Bytes) (sb : Stat) (b : Body)
    → generic_of (details_of relname b sb user group) ≡ generic_for relname user group sb
unfolding detail assign_all getdetail Dict.lookup Dict.insert bytes_eq
details_of-generic relname user group sb of_dir = refl
details_of-generic relname user group sb of_chr = refl
details_of-generic relname user group sb of_blk = refl
details_of-generic relname user group sb of_socket = refl
details_of-generic relname user group sb (of_link target) = refl
details_of-generic relname user group sb (of_data buffer) = elim (Bool-cases (ltb 1 sb.nlink)) [
  | inl e ↦ rw e refl
  | inr e ↦ rw e refl
]
details_of-generic relname user group sb (of_hash h) = elim (Bool-cases (ltb 1 sb.nlink)) [
  | inl e ↦ rw e refl
  | inr e ↦ rw e refl
]

rdev_read :
    (sb : Stat) → sb.rdev < 2147483648 → strtol 10 18446744073709551616 (decimal sb.rdev) ≡ sb.rdev
rdev_read sb small = strtol-decimal sb.rdev 18446744073709551616 (omega arith) (omega arith)

details_of-HoldsBody :
    (relname user group : Bytes) (sb : Stat) (b : Body)
    → sb.rdev < 2147483648
    → HoldsBody (details_of relname b sb user group) sb b
unfolding detail assign_all getdetail Dict.lookup Dict.insert bytes_eq kind_of
details_of-HoldsBody relname user group sb of_dir small = refl
details_of-HoldsBody relname user group sb of_chr small = (refl, rdev_read sb small)
details_of-HoldsBody relname user group sb of_blk small = (refl, rdev_read sb small)
details_of-HoldsBody relname user group sb of_socket small = refl
details_of-HoldsBody relname user group sb (of_link target) small = (refl, refl)
details_of-HoldsBody relname user group sb (of_data buffer) small =
    elim (Bool-cases (ltb 1 sb.nlink)) [
      | inl e ↦ rw e (refl, refl, refl)
      | inr e ↦ rw e (refl, refl, refl)
    ]
details_of-HoldsBody relname user group sb (of_hash h) small = elim (Bool-cases (ltb 1 sb.nlink)) [
  | inl e ↦ rw e (refl, refl, refl, refl)
  | inr e ↦ rw e (refl, refl, refl, refl)
]

pub details_of-IsReadBack :
    (relname user group : Bytes) (sb : Stat) (b : Body)
    → IsPrintable sb
    → IsReadBack (details_of relname b sb user group) relname user group sb b
details_of-IsReadBack relname user group sb b v =
    let q = details_of-generic relname user group sb b in
    record {
      name = ap (λ (g : Generic). g.name) q;
      perms =
          ap (λ (g : Generic). strtol 8 4294967296 g.perms) q
          ∙ strtol-octal (sb.mode % 4096) 4294967296 (omega arith) (omega arith);
      uid = ap (λ (g : Generic). g.uid) q;
      gid = ap (λ (g : Generic). g.gid) q;
      atime = ap (λ (g : Generic). strtoull g.atime) q ∙ strtoull-decimal sb.atime v.atime_fits;
      mtime = ap (λ (g : Generic). strtoull g.mtime) q ∙ strtoull-decimal sb.mtime v.mtime_fits;
      body = details_of-HoldsBody relname user group sb b v.rdev_fits;
    }
