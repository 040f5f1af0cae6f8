-- ===== src/Sftp/Requests/Contents.antt =====
-- sftp.cc: contents(), which reads a directory in as many requests as the server wants.
use hbackup.Prelude.{
  ℕ, zero, suc, [], ◌∷◌, ◌++◌, List, Bool, true, false, ◌&&◌, not, Bytes, bytes_eq, same, codes,
  ◌==◌, if◌then◌else◌,
}
use hbackup.Outcome.{Result, ok, fatal, ◌>>=◌, and_then}
use hbackup.Sftp.Wire.{unpack_uint32, unpack_string, unpack_attrs, Attributes}
use hbackup.Sftp.Check.{check}
use hbackup.Sftp.Transport.{Transport}
use hbackup.Sftp.Requests.{
  Client, fresh_id, init, path_request, check_unless, forget_handle, request_reply,
}

-- `Attributes attrs;`, whose members the source leaves unset.
abbrev no_attributes : Attributes
no_attributes = record {
  flags = 0;
  size = 0;
  uid = 0;
  gid = 0;
  permissions = 0;
  atime = 0;
  mtime = 0;
  extended = [];
}

-- `filename != "." && filename != ".."`
unfoldable pub is_listed : Bytes → Bool
is_listed name = not (same name (codes ".")) && not (same name (codes ".."))

-- `while(count > 0)`: the names of one reply behind those there are.
unfoldable pub read_names : ℕ → Bytes → ℕ → List Bytes → Result (List Bytes)
unfolding unpack_string unpack_attrs is_listed
read_names zero reply index names = ok names
read_names (suc count) reply index names = do
  (filename, i1) ← unpack_string reply index
  (longname, i2) ← unpack_string reply i1
  (attrs, i3) ← unpack_attrs reply no_attributes i2
  read_names count reply i3 (if is_listed filename then names ++ filename ∷ [] else names)

-- A reply to SSH_FXP_READDIR that is an SSH_FXP_NAME.
unfoldable pub take_names : Bytes → List Bytes → Result (List Bytes)
unfolding unpack_uint32 read_names
take_names reply names = do (count, i) ← unpack_uint32 reply 5; read_names count reply i names

module _ (T : Transport) where
  -- `for(;;)`; the fuel bounds the requests. What the caller's
  -- list holds after an exception is left out.
  unfoldable pub read_directory :
      ℕ → ℕ → Bytes → List Bytes → Client T → Result (List Bytes) × Client T
  unfolding request_reply path_request take_names check
  read_directory zero id handle names c = (fatal, c)
  read_directory (suc fuel) id handle names c =
      and_then (request_reply T id (path_request 12 id handle) c) λ p c1. elim (p.0 == 104) [
        | true ↦
            and_then (take_names p.1 names, c1) (λ more c2. read_directory fuel id handle more c2)
        | false ↦ and_then (check p.1 true, c1) (λ _ c2. (ok names, c2))
      ]

  -- `catch(...) { ignore(closehandle(handle)); throw; }`, and the same where nothing was thrown.
  unfoldable pub and_close : Bytes → Result (List Bytes) → Client T → Result (List Bytes) × Client T
  unfolding forget_handle
  and_close handle fatal c = (fatal, c)
  and_close handle r c = and_then (forget_handle T handle c) (λ _ c1. (r, c1))

  -- SftpFilesystem::contents(), with the names behind those that the list has.
  unfoldable pub contents : ℕ → Bytes → List Bytes → Client T → Result (List Bytes) × Client T
  unfolding init fresh_id request_reply path_request check_unless unpack_string read_directory
      and_close
  contents fuel path names c = and_then (init T c) λ _ c1.
      let (id, c2) = fresh_id T c1 in
      and_then (request_reply T id (path_request 11 id path) c2) λ p c3.
        and_then (check_unless (p.0 == 102) p.1, c3)
          λ _ c4.
            and_then (unpack_string p.1 5, c4)
              λ h c5. let (r, c6) = read_directory fuel id h.0 names c5 in and_close h.0 r c6
