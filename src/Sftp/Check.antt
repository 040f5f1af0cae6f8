-- ===== src/Sftp/Check.antt =====
-- sftp.cc: check(), which turns a status reply into an exception, and SftpFileError's errno.
use Prim.Native.Nat.{◌<◌}
use hbackup.Prelude.{
  ℕ, ◌≡◌, ap, sym, ◌∙◌, append-nil, [], ◌∷◌, ◌++◌, append_assoc, Bool, ◌&&◌, ◌||◌, drop, Bytes,
  arith, ◌==◌, if◌then◌else◌,
}
use hbackup.Outcome.{Result, ok, err, fatal, sftp_file_error, ◌>>=◌}
use hbackup.Sftp.Wire.{
  word_size, pack_uint8, pack_uint32, pack_string, unpack_uint8, unpack_uint32, unpack_status,
  Status,
}
use hbackup.Sftp.Wire.Laws.{
  unpack_uint8_lem, unpack_uint32_lem, pack_status, pack_status-eq, unpack_status-pack_status,
  IsStatus,
}

-- SSH_FXP_STATUS
abbrev pub fxp_status : ℕ
fxp_status = 101

-- The `switch` of SftpFileError's constructor, with the numbers of ENOENT, EACCES and ENOSYS on
-- Linux, and -1 as an unsigned word.
unfoldable pub errno_of : ℕ → ℕ
errno_of status =
    if status == 0
    then 0
    else if status == 2
    then 2
    else if status == 3
    then 13
    else if status == 8
    then 38
    else 4294967295

-- What check() makes of the status, by `allow_eof`.
unfoldable pub check_status : ℕ → Bool → Result (Unit {0})
unfolding errno_of
check_status status allow_eof =
    if status == 0
    then ok tt
    else if status == 1 && allow_eof
    then ok tt
    else err (sftp_file_error (errno_of status) status)

-- SftpFilesystem::check() on a reply.
unfoldable pub check : Bytes → Bool → Result (Unit {0})
unfolding unpack_uint8 unpack_uint32 unpack_status check_status
check reply allow_eof = do
  (r, i1) ← unpack_uint8 reply 0
  let checked = do
    (id, i2) ← unpack_uint32 reply i1
    (st, i3) ← unpack_status reply i2
    check_status st.status allow_eof
  if r == fxp_status then checked else fatal

-- A status reply as a server packs it.
unfoldable pub status_reply : ℕ → Status → Bytes
status_reply id st = pack_status (pack_uint32 (pack_uint8 [] fxp_status) id) st

-- What stands behind the ID.
tail_of : Status → Bytes → Bytes
tail_of st after =
    (pack_uint32 [] st.status ++ (pack_string [] st.message ++ pack_string [] st.lang)) ++ after

status_reply-eq :
    (id : ℕ) (st : Status) (after : Bytes)
    → status_reply id st ++ after ≡ fxp_status ∷ (pack_uint32 [] id ++ tail_of st after)
unfolding status_reply tail_of pack_uint32 pack_uint8
status_reply-eq id st after =
    ap (λ y. y ++ after) (pack_status-eq (pack_uint32 (pack_uint8 [] fxp_status) id) st)
    ∙ simp append_assoc

reply_type :
    (id : ℕ) (st : Status) (after : Bytes)
    → unpack_uint8 (status_reply id st ++ after) 0 ≡ ok (fxp_status, 1)
reply_type id st after =
    (unpack_uint8_lem (status_reply id st ++ after) 0 fxp_status _
      (status_reply-eq id st after)).result

reply_id :
    (id : ℕ) (st : Status) (after : Bytes)
    → id < word_size
    → unpack_uint32 (status_reply id st ++ after) 1 ≡ ok (id, 5)
reply_id id st after small =
    (unpack_uint32_lem (status_reply id st ++ after) 1 id (tail_of st after) small
      (ap (drop 1) (status_reply-eq id st after))).result

-- The status word of a reply, behind the type and the ID.
pub reply_word :
    (id : ℕ) (st : Status)
    → IsStatus st
    → (i : ℕ) × (unpack_uint32 (status_reply id st) 5 ≡ ok (st.status, i))
unfolding tail_of pack_uint32 pack_uint8
reply_word id st v =
    let rest = (pack_string [] st.message ++ pack_string [] st.lang) ++ [] in
    let whole : drop 5 (status_reply id st) ≡ pack_uint32 [] st.status ++ rest =
      ap (drop 5) (sym (append-nil _) ∙ status_reply-eq id st [])
      ∙ append_assoc (pack_uint32 [] st.status) _ [] in
    (_, (unpack_uint32_lem (status_reply id st) 5 st.status rest v.status whole).result)

reply_status :
    (id : ℕ) (st : Status) (after : Bytes)
    → IsStatus st
    → (i : ℕ) × (unpack_status (status_reply id st ++ after) 5 ≡ ok (st, i))
unfolding status_reply pack_uint32 pack_uint8
reply_status id st after v =
    (_, unpack_status-pack_status (pack_uint32 (pack_uint8 [] fxp_status) id) after st v)

-- A status reply passes exactly if its status is 0, or is 1 (the end of a file) where that is
-- allowed; any other is thrown with its errno. The ID, the status and the lengths of the two texts
-- are below 2^32.
pub check-status_reply :
    (id : ℕ) (st : Status) (after : Bytes) (allow_eof : Bool)
    → id < word_size
    → IsStatus st
    → check (status_reply id st ++ after) allow_eof ≡ (
        if st.status == 0 || (st.status == 1 && allow_eof)
        then ok tt
        else err (sftp_file_error (errno_of st.status) st.status))
unfolding check check_status
check-status_reply id st after allow_eof small v =
    let (i, e) = reply_status id st after v in
    rw (reply_type id st after, reply_id id st after small, e) (ground arith)
