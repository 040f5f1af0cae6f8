-- ===== src/Sftp/Requests/Fallback.antt =====
-- sftp.cc: remove() and rename(), which try a second request where the first is refused in the way
-- that they expect.
use Prim.Native.Nat.{◌<◌}
use hbackup.Prelude.{
  ℕ, suc, ◌≡◌, ◌≢◌, inl, inr, refl, sym, ap, ◌∙◌, [], ◌++◌, append-nil, Bool, true, false, ◌&&◌,
  not, Bytes, arith, ◌==◌, if◌then◌else◌, Bool-cases, codes,
}
use hbackup.Outcome.{Result, ok, err, sftp_file_error}
use hbackup.Sftp.Wire.{word_size, pack_string, pack_uint8, pack_uint32}
use hbackup.Sftp.Wire.Laws.{IsStatus}
use hbackup.Sftp.Wire.{Status}
use hbackup.Sftp.Replies.{newid}
use hbackup.Sftp.Check.{errno_of, check, status_reply, check-status_reply}
use hbackup.Sftp.Transport.{Transport, Server, Continues, IsTransport}
use hbackup.Sftp.Transport.Laws.{Continues-trans}
use hbackup.Sftp.Requests.{
  Client, rmdir, remove_failed, remove, rename_request, rename_round, is_unsupported, rename,
  path_request,
}
use hbackup.Sftp.Requests.Simple.{moved, init_lem, simple_request_lem, unlink_lem, rmdir_lem}

-- What is made of a status.
unfoldable pub verdict : ℕ → Result (Unit {0})
unfolding errno_of
verdict status = if status == 0 then ok tt else err (sftp_file_error (errno_of status) status)

pub newid-small : (n : ℕ) → n < word_size → ((newid n).0 < word_size) × ((newid n).1 < word_size)
unfolding newid
newid-small n h = ground arith

pub newid-newid : (n : ℕ) → n < word_size → (newid (newid n).1).0 ≢ (newid n).0
unfolding newid
newid-newid n h = ground arith

pub check-verdict :
    (id : ℕ) (st : Status)
    → id < word_size
    → IsStatus st
    → check (status_reply id st) false ≡ verdict st.status
unfolding verdict
check-verdict id st small v =
    ap (λ b. check b false) (sym (append-nil (status_reply id st)))
    ∙ check-status_reply id st [] false small v
    ∙ ground arith

remove_failed-verdict :
    (T : Transport) (path : Bytes) (status : ℕ) (c : Client T)
    → remove_failed T path (verdict status) c
      ≡ (if status == 4 then rmdir T path c else (verdict status, c))
unfolding remove_failed verdict
remove_failed-verdict T path status c = elim (Bool-cases (status == 0)) [
  | inl e ↦ ground arith
  | inr e ↦ rw e refl
]

-- SSH_FXP_EXTENDED, with the name of the extension and both paths.
abbrev pub posix_packet : ℕ → Bytes → Bytes → Bytes
posix_packet id oldpath newpath =
    pack_string
      (pack_string
        (pack_string (pack_uint32 (pack_uint8 [] 200) id) (codes "posix-rename@openssh.org"))
        oldpath)
      newpath

-- SSH_FXP_RENAME, with both paths.
abbrev pub plain_packet : ℕ → Bytes → Bytes → Bytes
plain_packet id oldpath newpath =
    pack_string (pack_string (pack_uint32 (pack_uint8 [] 18) id) oldpath) newpath

-- What is sent for a renaming.
renaming_packet :
    (posix : Bool) (id : ℕ) (oldpath newpath : Bytes)
    → rename_request posix id oldpath newpath
      ≡ (if posix then posix_packet id oldpath newpath else plain_packet id oldpath newpath)
unfolding rename_request path_request
renaming_packet true id oldpath newpath = refl
renaming_packet false id oldpath newpath = refl

given_up : (a b : Bool) → (a && b) ≡ true → false ≡ (a && not (a && b))
given_up a b e = ground arith

still_used : (a b : Bool) → (a && b) ≡ false → a ≡ (a && not (a && b))
still_used a b e = ground arith

module _ (T : Transport) (S : Server T) (L : IsTransport T S) where
  open S use {Up, Answers, output}

  -- The IDs of the next two requests.
  abbrev pub first_id : Client T → ℕ
  first_id c = (newid c.id).0

  abbrev pub second_id : Client T → ℕ
  second_id c = (newid (newid c.id).1).0

  -- The client and the server before two requests: the replies are to come, the second one if the
  -- first has the status that leads to it.
  pub record IsAsked (status : ℕ) (c : Client T) (st1 st2 : Status) : Type 0 where
    pub is_connected : T.connected c.link ≡ true
    pub up : Up c.link
    pub small : c.id < word_size
    pub first : Answers c.link (first_id c) (status_reply (first_id c) st1)
    pub second : st1.status ≡ status → Answers c.link (second_id c) (status_reply (second_id c) st2)
    pub first_IsStatus : IsStatus st1
    pub second_IsStatus : IsStatus st2

  -- Removing a path asks for the removal of a file and, only if the server answers that with the
  -- status 4, for that of a directory. It ends with what the last status says: 0 is success, any
  -- other is thrown. Nothing else is sent.
  pub remove-two_requests :
      (path : Bytes) (c : Client T) (st1 st2 : Status)
      → IsAsked 4 c st1 st2
      → (c' : Client T) × (remove T path c
          ≡ (verdict (if st1.status == 4 then st2.status else st1.status), c'))
        × (output c'.link
            ≡ output c.link
              ++ (pack_string [] (path_request 13 (first_id c) path)
                  ++ (if st1.status == 4
                      then pack_string [] (path_request 15 (second_id c) path)
                      else [])))
  unfolding remove
  remove-two_requests path c st1 st2 v =
      let (small1, small2) = newid-small c.id v.small in
      let (l1, q1, c1) = unlink_lem T S L path _ c v.is_connected v.up v.first in
      let first =
        q1
        ∙ ap (λ r. (r, moved (newid c.id).1 l1 c))
            (check-verdict (first_id c) st1 small1 v.first_IsStatus) in
      elim (Bool-cases (st1.status == 4)) [
        | inl e ↦
            let a = c1.answers _ _ (newid-newid c.id v.small) (v.second (ground arith)) in
            let (l2, q2, c2) =
              rmdir_lem T S L path _ (moved (newid c.id).1 l1 c) (c1.is_connected ∙ v.is_connected)
                c1.up a in
            (
              moved (newid (newid c.id).1).1 l2 c,
              rw (first, remove_failed-verdict, e)
                  (q2
                    ∙ ap (λ r. (r, moved (newid (newid c.id).1).1 l2 c))
                        (check-verdict (second_id c) st2 (newid-small _ small2).0
                          v.second_IsStatus)),
              rw e (Continues-trans T S c1 c2).output_grows,
            )
        | inr e ↦ (
          moved (newid c.id).1 l1 c,
          rw (first, remove_failed-verdict, e) refl,
          rw e (c1.output_grows ∙ ap (λ b. output c.link ++ b) (sym (append-nil _))),
        )
      ]

  -- One call of rename().
  rename_step :
      (fuel : ℕ) (oldpath newpath r : Bytes) (c : Client T)
      → T.connected c.link ≡ true
      → Up c.link
      → Answers c.link (first_id c) r
      → (l : T.State) × (rename T (suc fuel) oldpath newpath c ≡ (
          if is_unsupported c.posix_rename (check r false)
          then rename T fuel oldpath newpath
              (record (moved (newid c.id).1 l c) { posix_rename = false })
          else (check r false, moved (newid c.id).1 l c)))
        × Continues T S c.link
            (pack_string [] (rename_request c.posix_rename (first_id c) oldpath newpath))
            (λ j. j ≡ first_id c)
            l
  unfolding rename rename_round
  rename_step fuel oldpath newpath r c e u a =
      let (l, q, go) =
        simple_request_lem T S L (λ id. rename_request c.posix_rename id oldpath newpath) r c u a in
      (l, rw (init_lem T S L c e, q) refl, go)

  is_unsupported-verdict :
      (posix : Bool) (status : ℕ) → is_unsupported posix (verdict status) ≡ posix && status == 8
  unfolding is_unsupported verdict
  is_unsupported-verdict posix status = elim (Bool-cases (status == 0)) [
    | inl e ↦ ground arith
    | inr e ↦ rw e refl
  ]

  -- Whether the server does not know posix-rename, by its first answer.
  abbrev pub refuses : Client T → Status → Bool
  refuses c st = c.posix_rename && st.status == 8

  -- Renaming asks for posix-rename unless it is known to be unsupported and, only if the server
  -- answers that with the status 8, for a plain renaming. It ends with what the last status says:
  -- 0 is success, any other is thrown. Nothing else is sent, and posix-rename is given up exactly if
  -- it was asked for and refused. A fuel of 2 is enough.
  pub rename-two_requests :
      (fuel : ℕ) (oldpath newpath : Bytes) (c : Client T) (st1 st2 : Status)
      → IsAsked 8 c st1 st2
      → (c' : Client T) × (rename T (suc (suc fuel)) oldpath newpath c
          ≡ (verdict (if refuses c st1 then st2.status else st1.status), c'))
        × (c'.posix_rename ≡ c.posix_rename && not (refuses c st1))
        × (output c'.link
            ≡ output c.link
              ++ (pack_string [] (
                    if c.posix_rename
                    then posix_packet (first_id c) oldpath newpath
                    else plain_packet (first_id c) oldpath newpath)
                  ++ (if refuses c st1
                      then pack_string [] (plain_packet (second_id c) oldpath newpath)
                      else [])))
  rename-two_requests fuel oldpath newpath c st1 st2 v =
      let (small1, small2) = newid-small c.id v.small in
      let (l1, q1, c1) = rename_step (suc fuel) oldpath newpath _ c v.is_connected v.up v.first in
      let asked = renaming_packet c.posix_rename (first_id c) oldpath newpath in
      let plain = renaming_packet false (second_id c) oldpath newpath in
      let asked_once = ap (λ b. output c.link ++ (pack_string [] b ++ [])) asked in
      let asked_both =
        ap
          (λ b.
            output c.link
            ++ (pack_string [] b
                ++ pack_string [] (rename_request false (second_id c) oldpath newpath)))
          asked
        ∙ ap
            (λ b.
              output c.link
              ++ (pack_string [] (
                    if c.posix_rename
                    then posix_packet (first_id c) oldpath newpath
                    else plain_packet (first_id c) oldpath newpath)
                  ++ pack_string [] b))
            plain in
      let first = check-verdict (first_id c) st1 small1 v.first_IsStatus in
      elim (Bool-cases (refuses c st1)) [
        | inl e ↦
            let a = c1.answers _ _ (newid-newid c.id v.small) (v.second (ground arith)) in
            let m = record (moved (newid c.id).1 l1 c) { posix_rename = false } in
            let (l2, q2, c2) =
              rename_step fuel oldpath newpath _ m (c1.is_connected ∙ v.is_connected) c1.up a in
            let second =
              check-verdict (second_id c) st2 (newid-small _ small2).0 v.second_IsStatus in
            (
              moved (newid (newid c.id).1).1 l2 m,
              rw (q1, first, is_unsupported-verdict, e)
                  (q2 ∙ rw (second, is_unsupported-verdict) refl),
              given_up c.posix_rename (st1.status == 8) e,
              rw e ((Continues-trans T S c1 c2).output_grows ∙ asked_both),
            )
        | inr e ↦ (
          moved (newid c.id).1 l1 c,
          rw (q1, first, is_unsupported-verdict, e) refl,
          still_used c.posix_rename (st1.status == 8) e,
          rw e (c1.output_grows ∙ ap (λ b. output c.link ++ b) (sym (append-nil _)) ∙ asked_once),
        )
      ]
