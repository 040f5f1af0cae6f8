-- ===== src/Tests/Lines.antt =====
-- A line of an index, written and read back.
use hbackup.Prelude.{some, ◌≡◌, refl, ◌++◌, [], Bytes, codes, arith}
use hbackup.Outcome.{ok, no_log}
use hbackup.File.{new_file}
use hbackup.File.Read.{new_file-IsReadable}
use hbackup.Utils.Index.{Details, Reader, read_details}
use hbackup.Utils.Index.Stream.{Left}
use hbackup.Backup.{Stat, head_text}
use hbackup.Backup.RoundTrip.{of_data, body_text}
use hbackup.Backup.Details.{IsPrintable, IsReadBack}
use hbackup.Backup.ReadBack.{read_details-line}
use hbackup.Tests.Memory.{memory_file, memory_file-IsReader}

-- A file of three bytes with two links.
abbrev a_stat : Stat
a_stat = record {
  mode = 33188;
  uid = 0;
  gid = 0;
  atime = 12;
  ctime = 34;
  mtime = 56;
  size = 3;
  nlink = 2;
  ino = 789;
  rdev = 0;
}

abbrev a_line : Bytes
a_line =
    codes
      "name=d/f+1&perms=0644&uid=root&gid=wheel&atime=12&ctime=34&mtime=56&data=a%3db&inode=789\n"

a_line_written :
    head_text (codes "d/f 1") a_stat (codes "root") (codes "wheel")
      ++ (body_text (of_data (codes "a=b")) a_stat ++ [])
    ≡ a_line
unfolding head_text body_text
a_line_written = refl

abbrev reader : Reader memory_file
reader = record { file = new_file (a_line, []); log = no_log }

a_stat-IsPrintable : IsPrintable a_stat
a_stat-IsPrintable = record {
  atime_fits = omega arith;
  mtime_fits = omega arith;
  rdev_fits = omega arith;
}

read_details-line_example :
    (d : Details) × (r : Reader memory_file) × (read_details memory_file 199 reader
      ≡ (ok (some d), r))
    × Left memory_file memory_file-IsReader [] no_log r
    × IsReadBack d (codes "d/f 1") (codes "root") (codes "wheel") a_stat (of_data (codes "a=b"))
unfolding head_text body_text
read_details-line_example =
    read_details-line memory_file memory_file-IsReader 199 reader (codes "d/f 1") (codes "root")
      (codes "wheel") a_stat (of_data (codes "a=b")) []
      (new_file-IsReadable memory_file memory_file-IsReader _) (omega arith) refl (omega arith)
      (omega arith) (omega arith) (omega arith) a_stat-IsPrintable
