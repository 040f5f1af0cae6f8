-- ===== src/Tests/Hosts.antt =====
-- A file system in memory that a restore can write to.
use hbackup.Prelude.{
  ◌∙◌, ◌≡◌, ◌≢◌, refl, [], ◌++◌, true, false, Option, none, some, Bytes, bytes_eq, nat_eq, take,
  drop, arith,
}
use hbackup.Prelude.Dict
use hbackup.Prelude.Dict.{Dict}
use hbackup.Outcome.{Result, ok, err, file_error}
use hbackup.Host.{Host, IsHost}
use hbackup.Tests.Memory.{erase_keeps}

-- The files by path, and what is left to read of the one that is open.
pub record Disk : Type 0 where
  pub files : Dict Bytes Bytes
  pub unread : Bytes

unfoldable pub make_file : Bytes → Bytes → Disk → Result (Unit {0}) × Disk
unfolding bytes_eq Dict.insert
make_file p b s = (ok tt, record s { files = Dict.insert p b s.files })

-- What an operation does that needs the file, and leaves it as it is.
unfoldable pub touch_file : Bytes → Disk → Result (Unit {0}) × Disk
unfolding bytes_eq Dict.lookup
touch_file p s = (elim (Dict.lookup p s.files) [ none ↦ err (file_error 2) | some b ↦ ok tt ], s)

unfoldable pub put_file : Option Bytes → Bytes → Bytes → Disk → Result (Unit {0}) × Disk
unfolding bytes_eq Dict.insert
put_file none p t s = (err (file_error 2), s)
put_file (some b) p t s = (ok tt, record s { files = Dict.insert t b s.files })

unfoldable pub move_file : Option Bytes → Bytes → Bytes → Disk → Result (Unit {0}) × Disk
unfolding bytes_eq Dict.insert Dict.erase
move_file none p t s = (err (file_error 2), s)
move_file (some b) p t s = (ok tt, record s { files = Dict.insert t b (Dict.erase p s.files) })

unfoldable pub append_file : Option Bytes → Bytes → Bytes → Disk → Result (Unit {0}) × Disk
unfolding bytes_eq Dict.insert
append_file none p b s = (ok tt, record s { files = Dict.insert p b s.files })
append_file (some c) p b s = (ok tt, record s { files = Dict.insert p (c ++ b) s.files })

abbrev pub memory_host : Host
memory_host = record {
  State = Disk;
  Handle = Bytes;
  exists = λ p s. (elim (Dict.lookup p s.files) [ none ↦ ok false | some b ↦ ok true ], s);
  remove = λ p s. (ok tt, record s { files = Dict.erase p s.files });
  rename = λ p t s. move_file (Dict.lookup p s.files) p t s;
  link = λ p t s. put_file (Dict.lookup p s.files) p t s;
  symlink = λ p t s. make_file t p s;
  mkdir = λ p m s. make_file p [] s;
  mknod = λ p m d s. make_file p [] s;
  lchown = λ p u g s. touch_file p s;
  chmod = λ p m s. touch_file p s;
  utimes = λ p a m s. touch_file p s;
  make_socket = λ p s. (ok true, (make_file p [] s).1);
  open_read = λ p s. (
    elim (Dict.lookup p s.files) [ none ↦ err (file_error 2) | some b ↦ ok p ],
    record s { unread = elim (Dict.lookup p s.files) [ none ↦ [] | some b ↦ b ] },
  );
  open_write = λ p s. (ok p, (make_file p [] s).1);
  readbytes = λ h n s. (ok (take n s.unread), record s { unread = drop n s.unread });
  writebytes = λ h b s. append_file (Dict.lookup h s.files) h b s;
  synchronize = λ h s. (ok tt, s);
}

pub insert_keeps :
    (p q b : Bytes) (d : Dict Bytes Bytes)
    → p ≢ q
    → Dict.lookup q (Dict.insert p b d) ≡ Dict.lookup q d
insert_keeps p q b d h = rw Dict.lookup-insert (ground arith)

pub put_file_keeps :
    (o : Option Bytes) (p t q : Bytes) (s : Disk)
    → t ≢ q
    → Dict.lookup q (put_file o p t s).1.files ≡ Dict.lookup q s.files
unfolding put_file
put_file_keeps none p t q s h = refl
put_file_keeps (some b) p t q s h = insert_keeps t q b s.files h

pub append_file_keeps :
    (o : Option Bytes) (p b q : Bytes) (s : Disk)
    → p ≢ q
    → Dict.lookup q (append_file o p b s).1.files ≡ Dict.lookup q s.files
unfolding append_file
append_file_keeps none p b q s h = insert_keeps p q b s.files h
append_file_keeps (some c) p b q s h = insert_keeps p q (c ++ b) s.files h

pub move_file_keeps :
    (o : Option Bytes) (p t q : Bytes) (s : Disk)
    → p ≢ q
    → t ≢ q
    → Dict.lookup q (move_file o p t s).1.files ≡ Dict.lookup q s.files
unfolding move_file
move_file_keeps none p t q s h k = refl
move_file_keeps (some b) p t q s h k =
    insert_keeps t q b (Dict.erase p s.files) k ∙ erase_keeps p q s.files h

pub move_file_fails :
    (o : Option Bytes) (p t : Bytes) (s : Disk)
    → (move_file o p t s).0 ≢ ok tt
    → Dict.lookup t (move_file o p t s).1.files ≡ Dict.lookup t s.files
unfolding move_file
move_file_fails none p t s h = refl
move_file_fails (some b) p t s h = absurd (h refl)

unfoldable pub memory_host-IsHost : IsHost memory_host
unfolding make_file Dict.insert touch_file
memory_host-IsHost = record {
  Content = Bytes;
  file = λ s p. Dict.lookup p s.files;
  opened_at = λ h. h;
  exists_keeps = λ p q s. refl;
  remove_keeps = λ p q s h. erase_keeps p q s.files h;
  rename_keeps = λ p t q s h k. move_file_keeps (Dict.lookup p s.files) p t q s h k;
  rename_fails = λ p t s h k. move_file_fails (Dict.lookup p s.files) p t s k;
  link_keeps = λ p t q s h. put_file_keeps (Dict.lookup p s.files) p t q s h;
  symlink_keeps = λ p t q s h. insert_keeps t q p s.files h;
  mkdir_keeps = λ p q m s h. insert_keeps p q [] s.files h;
  mknod_keeps = λ p q m d s h. insert_keeps p q [] s.files h;
  lchown_keeps = λ p q u g s h. refl;
  chmod_keeps = λ p q m s h. refl;
  utimes_keeps = λ p q a m s h. refl;
  make_socket_keeps = λ p q s h. insert_keeps p q [] s.files h;
  open_read_keeps = λ p q s. refl;
  open_write_keeps = λ p q s h. insert_keeps p q [] s.files h;
  open_write_at = λ p s h e. cc;
  readbytes_keeps = λ h n q s. refl;
  writebytes_keeps = λ h b q s k. append_file_keeps (Dict.lookup h s.files) h b q s k;
  synchronize_keeps = λ h q s k. refl;
}
