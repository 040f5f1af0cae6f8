-- ===== src/Tests/Copied.antt =====
-- A file is copied from one disk in memory to another.
use hbackup.Prelude.{
  ◌≡◌, refl, sym, ap, ◌++◌, [], ◌∷◌, Option, none, some, Bytes, bytes_eq, same_self, codes, take,
  drop, take-append-drop, length-take_le, arith,
}
use hbackup.Prelude.Dict
use hbackup.Outcome.{ok}
use hbackup.File.{File, new_file}
use hbackup.File.Read.{IsReader, new_file-IsReadable}
use hbackup.File.Taker.{IsWritable}
use hbackup.File.Write.{IsWriter}
use hbackup.Host.{file_of}
use hbackup.Restore.{copy_loop}
use hbackup.Restore.Copies.{copy_loop-whole}
use hbackup.Tests.Memory.{nothing_taken}
use hbackup.Tests.Hosts.{Disk, memory_host, append_file}
use hbackup.Tests.Restored.{options, no_one}

host-IsReader : IsReader (file_of memory_host)
host-IsReader = record {
  content = λ d. d.1.unread;
  delivers = λ d n h. (
    take n d.1.unread,
    (d.0, record d.1 { unread = drop n d.1.unread }),
    refl,
    sym (take-append-drop n d.1.unread),
    length-take_le n d.1.unread,
    nothing_taken n d.1.unread h,
  );
}

abbrev content_of : Option Bytes → Bytes
content_of none = []
content_of (some b) = b

insert_read : (p b : Bytes) (s : Disk) → Dict.lookup p (Dict.insert p b s.files) ≡ some b
insert_read p b s = rw (Dict.lookup-insert, same_self) refl

append_file_lem :
    (o : Option Bytes) (p b : Bytes) (s : Disk)
    → (s1 : Disk) × (append_file o p b s ≡ (ok tt, s1))
      × (content_of (Dict.lookup p s1.files) ≡ content_of o ++ b)
unfolding append_file
append_file_lem none p b s = (_, refl, ap content_of (insert_read p b s))
append_file_lem (some c) p b s = (_, refl, ap content_of (insert_read p (c ++ b) s))

host-IsWriter : IsWriter (file_of memory_host)
host-IsWriter = record {
  written = λ d. content_of (Dict.lookup d.0 d.1.files);
  accepts = λ d b.
      let (s1, q, t) = append_file_lem (Dict.lookup d.0 d.1.files) d.0 b d.1 in
      ((d.0, s1), rw q refl, t);
  settles = λ d. (d, refl, refl);
}

abbrev source : File (file_of memory_host)
source = new_file (codes "b/x", record { files = []; unread = codes "content" })

abbrev target : File (file_of memory_host)
target = new_file (codes "r/f", record { files = (codes "r/f", []) ∷ []; unread = [] })

target-IsWritable : IsWritable (file_of memory_host) target
target-IsWritable = record { not_reading = λ e. cc; idle_empty = λ _. refl; fits = omega arith }

copy_loop-whole_example :
    (src : File (file_of memory_host)) × (dst : File (file_of memory_host)) × (copy_loop memory_host
        memory_host options no_one no_one 8 source target
      ≡ (ok tt, (src, dst)))
    × (content_of (Dict.lookup dst.device.0 dst.device.1.files) ≡ codes "content")
unfolding host-IsReader host-IsWriter bytes_eq Dict.lookup
copy_loop-whole_example =
    copy_loop-whole memory_host memory_host options no_one no_one host-IsReader host-IsWriter 8
      source target (omega arith) (new_file-IsReadable (file_of memory_host) host-IsReader _)
      target-IsWritable
