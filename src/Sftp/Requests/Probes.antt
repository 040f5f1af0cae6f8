-- ===== src/Sftp/Requests/Probes.antt =====
-- sftp.cc: the answers to the requests of type(), and what they show.
use Prim.Native.Nat.{◌<◌}
use hbackup.Prelude.{
  ℕ, ◌+◌, ◌≡◌, refl, sym, ap, ◌∙◌, inl, inr, [], append-nil, Bool, true, false, length, get_or,
  Bytes, arith, ◌==◌, if◌then◌else◌, Bool-cases,
}
use hbackup.Outcome.{Result, ok, err, sftp_file_error}
use hbackup.Filesystem.{Filetype, regular_file, directory, symbolic_link, unknown_file_type}
use hbackup.Sftp.Wire.{word_size, pack_uint8, pack_uint32, pack_string, unpack_string, Status}
use hbackup.Sftp.Wire.Laws.{IsStatus, pack_status, unpack_string-pack_string}
use hbackup.Sftp.Check.{check, errno_of, status_reply, reply_word}
use hbackup.Sftp.Requests.{path_request}
use hbackup.Sftp.Requests.Fallback.{check-verdict, verdict}
use hbackup.Sftp.Requests.Types.{check_missing}

-- The answer to a request to open a path: a status, or a handle.
pub data Probe : Type 0 where
  refused : Status → Probe
  opened : (handle : Bytes) → Probe

unfoldable pub bytes_of : ℕ → Probe → Bytes
bytes_of id (refused st) = status_reply id st
bytes_of id (opened handle) = path_request 102 id handle

-- Its fields fit their words.
unfoldable pub Fits : Probe → Type 0
Fits (refused st) = IsStatus st
Fits (opened handle) = length handle < word_size

-- What the path is, once it is known to exist.
unfoldable pub found : Filetype → Probe → Bool → Filetype
found t opendir true = symbolic_link
found t (opened handle) false = directory
found t (refused st) false = t

-- By the answers to the opening of a file and of a directory, and whether the path is a link.
unfoldable pub finding : Probe → Probe → Bool → Result Filetype
finding (refused st) opendir link =
    if st.status == 2 then err (sftp_file_error 2 2) else ok (found unknown_file_type opendir link)
finding (opened handle) opendir link = ok (found regular_file opendir link)

pub type_of :
    (id : ℕ) (p : Probe) → get_or (bytes_of id p) 0 0 ≡ elim p [ refused _ ↦ 101 | opened _ ↦ 102 ]
unfolding bytes_of path_request status_reply pack_status pack_string pack_uint32 pack_uint8
type_of id (refused st) = refl
type_of id (opened handle) = refl

pub handle_of :
    (id : ℕ) (handle : Bytes)
    → length handle < word_size
    → (i : ℕ) × (unpack_string (path_request 102 id handle) 5 ≡ ok (handle, i))
unfolding path_request
handle_of id handle small =
    let head = pack_uint32 (pack_uint8 [] 102) id in
    let five : length head ≡ 5 = unfold pack_uint32 pack_uint8 in refl in
    (
      length head + 4 + length handle,
      ap (λ n. unpack_string (pack_string head handle) n) (sym five)
          ∙ ap (λ b. unpack_string b (length head)) (sym (append-nil _))
          ∙ unpack_string-pack_string head [] handle small,
    )

pub refused_two : verdict 2 ≡ err (sftp_file_error 2 2)
unfolding verdict errno_of
refused_two = refl

-- The first answer is that of a missing file, or not.
unfoldable pub missing_status : Probe → Bool
missing_status (refused st) = st.status == 2
missing_status (opened handle) = false

unfoldable pub shown : Probe → Filetype → Filetype → Filetype
shown (refused st) as_found t = t
shown (opened handle) as_found t = as_found

pub finding_missing :
    (openfile opendir : Probe) (link : Bool)
    → missing_status openfile ≡ true
    → err (sftp_file_error 2 2) ≡ finding openfile opendir link
unfolding finding missing_status
finding_missing (refused st) opendir link m = rw m refl
finding_missing (opened handle) opendir link m = cc

pub found-shown :
    (opendir : Probe) (link : Bool) (t : Filetype)
    → (if link then symbolic_link else shown opendir directory t) ≡ found t opendir link
unfolding found shown
found-shown (refused st) true t = refl
found-shown (refused st) false t = refl
found-shown (opened handle) true t = refl
found-shown (opened handle) false t = refl

pub finding_found :
    (openfile opendir : Probe) (link : Bool)
    → missing_status openfile ≡ false
    → ok (
        if link
        then symbolic_link
        else shown opendir directory (shown openfile regular_file unknown_file_type))
      ≡ finding openfile opendir link
unfolding finding missing_status shown
finding_found (refused st) opendir link m =
    rw m (ap ok (found-shown opendir link unknown_file_type))
finding_found (opened handle) opendir link m = ap ok (found-shown opendir link regular_file)

pub check_missing-Probe :
    (id : ℕ) (p : Probe)
    → id < word_size
    → Fits p
    → check_missing (get_or (bytes_of id p) 0 0) (bytes_of id p)
      ≡ (if missing_status p then err (sftp_file_error 2 2) else ok tt)
unfolding check_missing missing_status Fits bytes_of
check_missing-Probe id (opened handle) small v =
    ap (λ r. check_missing r (path_request 102 id handle)) (type_of id (opened handle))
check_missing-Probe id (refused st) small v =
    let (i, e) = reply_word id st v in
    let word : check_missing 101 (status_reply id st)
        ≡ (if st.status == 2 then check (status_reply id st) false else ok tt) =
      rw e refl in
    ap (λ r. check_missing r (status_reply id st)) (type_of id (refused st))
    ∙ word
    ∙ elim (Bool-cases (st.status == 2)) [
      | inl m ↦
          let two : st.status ≡ 2 = ground (arith, m) in
          rw m (check-verdict id st small v ∙ rw two refused_two)
      | inr m ↦ rw m refl
    ]
