-- ===== src/Sftp/Requests.antt =====
-- sftp.cc: the operations of SftpFilesystem that send one request after another and await the
-- replies.
pub mod Simple
pub mod Fallback
pub mod Existence
pub mod Cached
pub mod Prefigured
pub mod Types
pub mod Contents
pub mod Probes
pub mod Probed
use hbackup.Prelude.{
  ℕ, zero, suc, ◌+◌, [], ◌∷◌, ◌++◌, List, Bool, true, false, ◌&&◌, not, Option, none, some, Bytes,
  bytes_eq, same, codes, ltb, ◌==◌, if◌then◌else◌,
}
use hbackup.Prelude.Dict.{Dict}
use hbackup.Outcome.{Result, Exception, sftp_file_error, ok, err, fatal, and_then}
use hbackup.Filesystem.{Filetype, regular_file, directory, symbolic_link, unknown_file_type}
use hbackup.Sftp.Wire.{
  word_size, pack_uint8, pack_uint32, pack_string, unpack_uint32, unpack_string, unpack_attrs,
  Attributes,
}
use hbackup.Sftp.Replies.{newid}
use hbackup.Sftp.Check.{check}
use hbackup.Sftp.Transport.{Transport}

-- `type`, `id` and a path.
unfoldable pub path_request : ℕ → ℕ → Bytes → Bytes
unfolding pack_uint8 pack_uint32 pack_string
path_request type id path = pack_string (pack_uint32 (pack_uint8 [] type) id) path

-- The two forms of a renaming: posix-rename@openssh.org, and SSH_FXP_RENAME.
unfoldable pub rename_request : Bool → ℕ → Bytes → Bytes → Bytes
unfolding pack_uint8 pack_uint32 pack_string path_request
rename_request true id oldpath newpath =
    pack_string (pack_string (path_request 200 id (codes "posix-rename@openssh.org")) oldpath)
      newpath
rename_request false id oldpath newpath = pack_string (path_request 18 id oldpath) newpath

unfoldable pub mkdir_request : ℕ → Bytes → ℕ → Bytes
unfolding pack_uint32 path_request
mkdir_request id path mode = pack_uint32 (pack_uint32 (path_request 14 id path) 4) mode

pub data OpenMode : Type 0 where
  read_only overwrite no_overwrite : OpenMode

-- The flags by the mode: SSH_FXF_READ is 1, WRITE 2, CREAT 8, TRUNC 16 and EXCL 32.
unfoldable pub open_flags : OpenMode → ℕ
open_flags read_only = 1
open_flags overwrite = 26
open_flags no_overwrite = 42

unfoldable pub open_request : ℕ → Bytes → ℕ → Bytes
unfolding pack_uint32 path_request
open_request id path m = pack_uint32 (pack_uint32 (path_request 3 id path) m) 0

-- `if(r != SSH_FXP_HANDLE) check(...);`, where `b` says whether `r` is that.
unfoldable pub check_unless : Bool → Bytes → Result (Unit {0})
unfolding check
check_unless b reply = if b then ok tt else check reply false

-- Whether rename() tries again: SSH_FX_OP_UNSUPPORTED is 8.
unfoldable pub is_unsupported : Bool → Result (Unit {0}) → Bool
is_unsupported posix (err (sftp_file_error e status)) = posix && status == 8
is_unsupported posix _ = false

module _ (T : Transport) where
  -- The members of SftpFilesystem, and the static `posix_rename`.
  pub record Client : Type 0 where
    pub link : T.State
    pub id : ℕ
    pub existence_inflight : List (ℕ × Bytes)
    pub existence : Dict Bytes Bool
    pub posix_rename : Bool

  -- An operation on the connection.
  unfoldable pub on_link :
      {A : Type 0} → (T.State → Result A × T.State) → Client → Result A × Client
  on_link f c = let (r, l) = f c.link in (r, record c { link = l })

  unfoldable pub fresh_id : Client → ℕ × Client
  unfolding newid
  fresh_id c = let (id, next) = newid c.id in (id, record c { id = next })

  -- `send(cmd); out->flush();`
  unfoldable pub command : Bytes → Client → Result (Unit {0}) × Client
  unfolding on_link
  command cmd c = and_then (on_link (T.send cmd) c) (λ _. on_link T.flush)

  -- The body of init(), on a version of 3 or above.
  unfoldable pub handshake : Client → Result (Unit {0}) × Client
  unfolding on_link command pack_uint8 pack_uint32 unpack_uint32
  handshake c = and_then (on_link T.connect c) λ _ c1.
      and_then (command (pack_uint32 (pack_uint8 [] 1) 3) c1) λ _ c2.
        and_then (on_link T.recv c2) λ p c3.
          and_then (if p.0 == 2 then unpack_uint32 p.1 1 else fatal, c3)
            λ v c4. (if ltb v.0 3 then fatal else ok tt, c4)

  -- SftpFilesystem::init()
  unfoldable pub init : Client → Result (Unit {0}) × Client
  unfolding handshake
  init c = if T.connected c.link then (ok tt, c) else handshake c

  -- check() on the reply to an ID.
  unfoldable pub check_reply : ℕ → Bool → Client → Result (Unit {0}) × Client
  unfolding on_link check
  check_reply id allow_eof c = and_then (on_link (T.await id) c) (λ p c1. (check p.1 allow_eof, c1))

  -- What unlink(), rmdir(), mkdir() and each round of rename() do: a request, by its ID, and the
  -- check of its reply.
  unfoldable pub simple_request : (ℕ → Bytes) → Client → Result (Unit {0}) × Client
  unfolding fresh_id command check_reply
  simple_request cmd c =
      let (id, c1) = fresh_id c in and_then (command (cmd id) c1) (λ _. check_reply id false)

  -- SftpFilesystem::unlink()
  unfoldable pub unlink : Bytes → Client → Result (Unit {0}) × Client
  unfolding init simple_request path_request
  unlink path c = and_then (init c) (λ _. simple_request (λ id. path_request 13 id path))

  -- SftpFilesystem::rmdir()
  unfoldable pub rmdir : Bytes → Client → Result (Unit {0}) × Client
  unfolding init simple_request path_request
  rmdir path c = and_then (init c) (λ _. simple_request (λ id. path_request 15 id path))

  -- SftpFilesystem::mkdir()
  unfoldable pub mkdir : Bytes → ℕ → Client → Result (Unit {0}) × Client
  unfolding init simple_request mkdir_request
  mkdir path mode c = and_then (init c) (λ _. simple_request (λ id. mkdir_request id path mode))

  -- `catch(SftpFileError &e)` of remove(): SSH_FX_FAILURE is 4.
  unfoldable pub remove_failed : Bytes → Result (Unit {0}) → Client → Result (Unit {0}) × Client
  unfolding rmdir
  remove_failed path (err (sftp_file_error e status)) c =
      if status == 4 then rmdir path c else (err (sftp_file_error e status), c)
  remove_failed path r c = (r, c)

  -- SftpFilesystem::remove()
  unfoldable pub remove : Bytes → Client → Result (Unit {0}) × Client
  unfolding unlink remove_failed
  remove path c = let (r, c1) = unlink path c in remove_failed path r c1

  -- A round of rename(), by the flag before it.
  unfoldable pub rename_round : Bytes → Bytes → Bool → Client → Result (Unit {0}) × Client
  unfolding simple_request rename_request
  rename_round oldpath newpath posix c =
      simple_request (λ id. rename_request posix id oldpath newpath) c

  -- SftpFilesystem::rename(), which calls itself once at most. The fuel bounds its calls.
  unfoldable pub rename : ℕ → Bytes → Bytes → Client → Result (Unit {0}) × Client
  unfolding init rename_round is_unsupported
  rename zero oldpath newpath c = (fatal, c)
  rename (suc fuel) oldpath newpath c = and_then (init c) λ _ c1.
      let (r, c2) = rename_round oldpath newpath c1.posix_rename c1 in
      let again = rename fuel oldpath newpath (record c2 { posix_rename = false }) in
      if is_unsupported c2.posix_rename r then again else (r, c2)

  -- SftpFilesystem::closehandle()
  unfoldable pub closehandle : Bytes → Client → Result ℕ × Client
  unfolding fresh_id on_link path_request
  closehandle handle c =
      let (id, c1) = fresh_id c in
      and_then (on_link (T.send (path_request 4 id handle)) c1) (λ _ c2. (ok id, c2))

  -- `ignore(closehandle(handle))`
  unfoldable pub forget_handle : Bytes → Client → Result (Unit {0}) × Client
  unfolding closehandle
  forget_handle handle c =
      and_then (closehandle handle c) (λ id c1. (ok tt, record c1 { link = T.ignore id c1.link }))

  -- A request, its flush and the reply: `r` and `reply` of the source.
  unfoldable pub request_reply : ℕ → Bytes → Client → Result (ℕ × Bytes) × Client
  unfolding command on_link
  request_reply id cmd c = and_then (command cmd c) (λ _. on_link (T.await id))
