-- ===== src/Sftp/Requests/Types.antt =====
-- sftp.cc: type(), which finds out what stands at a path by three requests.
use hbackup.Prelude.{ℕ, false, Bytes, ◌==◌, if◌then◌else◌}
use hbackup.Outcome.{Result, ok, ◌>>=◌, and_then}
use hbackup.Filesystem.{Filetype, regular_file, directory, symbolic_link, unknown_file_type}
use hbackup.Sftp.Wire.{unpack_uint32, unpack_string}
use hbackup.Sftp.Check.{check}
use hbackup.Sftp.Transport.{Transport}
use hbackup.Sftp.Requests.{
  Client, on_link, fresh_id, init, path_request, open_request, forget_handle,
}

-- A missing file: SSH_FX_NO_SUCH_FILE is 2.
unfoldable pub check_missing : ℕ → Bytes → Result (Unit {0})
unfolding unpack_uint32 check
check_missing r reply =
    let status = unpack_uint32 reply 5 in
    if r == 101 then (status >>= λ p. if p.0 == 2 then check reply false else ok tt) else ok tt

module _ (T : Transport) where
  -- `if(r == SSH_FXP_HANDLE)`: the type is known, and the handle is closed.
  unfoldable pub take_handle :
      ℕ → Bytes → Filetype → Filetype → Client T → Result Filetype × Client T
  unfolding unpack_string forget_handle
  take_handle r reply found t c =
      if r == 102
      then and_then (unpack_string reply 5, c)
          (λ h c1. and_then (forget_handle T h.0 c1) (λ _ c2. (ok found, c2)))
      else (ok t, c)

  -- What type() makes of the three replies.
  unfoldable pub deduce : ℕ × Bytes → ℕ × Bytes → ℕ × Bytes → Client T → Result Filetype × Client T
  unfolding check_missing take_handle
  deduce openfile opendir readlink c =
      and_then (check_missing openfile.0 openfile.1, c)
        λ _ c1.
          and_then (take_handle openfile.0 openfile.1 regular_file unknown_file_type c1) λ t1 c2.
            and_then (take_handle opendir.0 opendir.1 directory t1 c2)
              λ t2 c3. (ok (if readlink.0 == 104 then symbolic_link else t2), c3)

  -- The three requests of type(), by their IDs.
  unfoldable pub send_probes : Bytes → ℕ → ℕ → ℕ → Client T → Result (Unit {0}) × Client T
  unfolding on_link path_request open_request
  send_probes path openfileid opendirid readlinkid c =
      and_then (on_link T (T.send (open_request openfileid path 1)) c) λ _ c1.
        and_then (on_link T (T.send (path_request 11 opendirid path)) c1) λ _ c2.
          and_then (on_link T (T.send (path_request 19 readlinkid path)) c2) λ _. on_link T T.flush

  -- SftpFilesystem::type()
  unfoldable pub type : Bytes → Client T → Result Filetype × Client T
  unfolding init fresh_id send_probes on_link deduce
  type path c = and_then (init T c) λ _ c1.
      let (openfileid, c2) = fresh_id T c1 in
      let (opendirid, c3) = fresh_id T c2 in
      let (readlinkid, c4) = fresh_id T c3 in
      and_then (send_probes path openfileid opendirid readlinkid c4) λ _ c5.
        and_then (on_link T (T.await openfileid) c5) λ openfile c6.
          and_then (on_link T (T.await opendirid) c6) λ opendir c7.
            and_then (on_link T (T.await readlinkid) c7)
              λ readlink c8. deduce openfile opendir readlink c8
