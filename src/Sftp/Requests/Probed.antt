-- ===== src/Sftp/Requests/Probed.antt =====
-- sftp.cc: what type() finds out, by the answers to its three requests.
use Prim.Native.Nat.{◌<◌}
use hbackup.Prelude.{
  ℕ, ◌≡◌, ◌≢◌, refl, ap, ◌∙◌, inl, inr, ◌⊎◌, [], ◌++◌, append-nil, Bool, true, get_or, Bytes, arith,
  ◌==◌, Bool-cases,
}
use hbackup.Outcome.{ok}
use hbackup.Filesystem.{Filetype, regular_file, directory, unknown_file_type}
use hbackup.Sftp.Wire.{word_size, pack_uint32, pack_string}
use hbackup.Sftp.Transport.Laws.{Continues-trans, Continues-weaken}
use hbackup.Sftp.Replies.{newid}
use hbackup.Sftp.Check.{status_reply}
use hbackup.Sftp.Transport.{Transport, Server, Continues, IsTransport}
use hbackup.Sftp.Requests.{
  Client, on_link, fresh_id, path_request, open_request, closehandle, forget_handle,
}
use hbackup.Sftp.Requests.Simple.{init_lem}
use hbackup.Sftp.Requests.Fallback.{newid-small, newid-newid}
use hbackup.Sftp.Requests.Types.{take_handle, deduce, send_probes, type}
use hbackup.Sftp.Requests.Probes.{
  Probe, bytes_of, Fits, finding, type_of, handle_of, missing_status, shown, finding_missing,
  finding_found, check_missing-Probe, opened, refused,
}

module _ (T : Transport) (S : Server T) (L : IsTransport T S) where
  open S use {Up, Answers}

  -- A connection that has gone on, with the answers to come but those that are gone.
  record Onward (l : T.State) (Gone : ℕ → Type 0) (l' : T.State) : Type 0 where
    up : Up l'
    answers : (j : ℕ) (r : Bytes) → ¬ Gone j → Answers l j r → Answers l' j r

  send_lem :
      (cmd : Bytes) (c : Client T)
      → Up c.link
      → (l : T.State) × (on_link T (T.send cmd) c ≡ (ok tt, record c { link = l }))
        × Onward c.link (λ _. ⊥) l
  unfolding on_link
  send_lem cmd c u =
      let (l, q, go) = L.sends cmd c.link u in
      (l, rw q refl, record { up = go.up; answers = go.answers })

  await_lem :
      (id : ℕ) (r : Bytes) (c : Client T)
      → Up c.link
      → Answers c.link id r
      → (l : T.State) × (on_link T (T.await id) c ≡ (ok (get_or r 0 0, r), record c { link = l }))
        × Onward c.link (λ j. j ≡ id) l
  unfolding on_link
  await_lem id r c u a =
      let (l, q, go) = L.awaits id r c.link u a in
      (l, rw q refl, record { up = go.up; answers = go.answers })

  -- The packets of the three questions about a path: SSH_FXP_OPEN for reading and without attributes,
  -- SSH_FXP_OPENDIR and SSH_FXP_READLINK.
  unfoldable pub questions : ℕ → ℕ → ℕ → Bytes → Bytes
  questions a b d path =
      pack_string [] (pack_uint32 (pack_uint32 (path_request 3 a path) 1) 0)
      ++ (pack_string [] (path_request 11 b path) ++ pack_string [] (path_request 19 d path))

  send_probes_lem :
      (path : Bytes) (a b d : ℕ) (c : Client T)
      → Up c.link
      → (l : T.State) × (send_probes T path a b d c ≡ (ok tt, record c { link = l }))
        × Continues T S c.link (questions a b d path) (λ _. ⊥) l
  unfolding send_probes on_link questions open_request
  send_probes_lem path a b d c u =
      let (l1, q1, g1) = L.sends (open_request a path 1) c.link u in
      let (l2, q2, g2) = L.sends (path_request 11 b path) l1 g1.up in
      let (l3, q3, g3) = L.sends (path_request 19 d path) l2 g2.up in
      let (l4, q4, g4) = L.flushes l3 g3.up in
      let both = Continues-trans T S g2 (Continues-trans T S g3 g4) in
      (
        l4,
        rw (q1, q2, q3, q4) refl,
        Continues-weaken T S
            (ap
              (λ x.
                pack_string [] (open_request a path 1)
                ++ (pack_string [] (path_request 11 b path) ++ x))
              (append-nil (pack_string [] (path_request 19 d path))))
            (λ j g. never g) (Continues-trans T S g1 both),
      )
    where
      never : ⊥ ⊎ (⊥ ⊎ (⊥ ⊎ ⊥)) → ⊥
      never (inr (inr (inr x))) = x
      never (inr (inr (inl x))) = x
      never (inr (inl x)) = x
      never (inl x) = x

  forget_lem :
      (handle : Bytes) (c : Client T)
      → Up c.link
      → (c' : Client T) × (forget_handle T handle c ≡ (ok tt, c')) × Up c'.link
  unfolding forget_handle closehandle fresh_id on_link
  forget_lem handle c u =
      let id = (newid c.id).0 in
      let (l, q, go) = L.sends (path_request 4 id handle) c.link u in
      (record c { link = T.ignore id l; id = (newid c.id).1 }, rw q refl, (L.ignores id l go.up).up)

  -- What a handle shows, which is then closed.
  take_handle_lem :
      (id : ℕ) (p : Probe) (as_found t : Filetype) (c : Client T)
      → Up c.link
      → Fits p
      → (c' : Client T) × (take_handle T (get_or (bytes_of id p) 0 0) (bytes_of id p) as_found t c
          ≡ (ok (shown p as_found t), c'))
        × Up c'.link
  unfolding take_handle bytes_of Fits shown
  take_handle_lem id (refused st) as_found t c u v =
      (c, ap (λ r. take_handle T r (status_reply id st) as_found t c) (type_of id (refused st)), u)
  take_handle_lem id (opened handle) as_found t c u v =
      let (i, e) = handle_of id handle v in
      let (c1, q, up) = forget_lem handle c u in
      (
        c1,
        ap (λ r. take_handle T r (path_request 102 id handle) as_found t c)
              (type_of id (opened handle))
            ∙ rw (e, q) refl,
        up,
      )

  abbrev first_id : Client T → ℕ
  first_id c = (newid c.id).0

  abbrev second_id : Client T → ℕ
  second_id c = (newid (newid c.id).1).0

  abbrev third_id : Client T → ℕ
  third_id c = (newid (newid (newid c.id).1).1).0

  -- A server that answers the three questions about a path once they are what was sent: its opening as
  -- a file and as a directory, and its reading as a link, which has the type 104 exactly for a link.
  pub record IsProbed (path : Bytes) (c : Client T) (openfile opendir : Probe) (link : Bool)
      : Type 0 where
    pub is_connected : T.connected c.link ≡ true
    pub up : Up c.link
    pub small : c.id < word_size
    pub readlink : Bytes
    pub answered :
        (l : T.State)
        → Continues T S c.link (questions (first_id c) (second_id c) (third_id c) path) (λ _. ⊥) l
        → Answers l (first_id c) (bytes_of (first_id c) openfile)
          × Answers l (second_id c) (bytes_of (second_id c) opendir)
          × Answers l (third_id c) readlink
    pub is_link : (get_or readlink 0 0 == 104) ≡ link
    pub openfile_fits : Fits openfile
    pub opendir_fits : Fits opendir

  deduce_lem :
      (id1 id2 : ℕ) (openfile opendir : Probe) (link : Bool) (readlink : Bytes) (c : Client T)
      → Up c.link
      → id1 < word_size
      → Fits openfile
      → Fits opendir
      → (get_or readlink 0 0 == 104) ≡ link
      → (c' : Client T) × (deduce T
            (get_or (bytes_of id1 openfile) 0 0, bytes_of id1 openfile)
            (get_or (bytes_of id2 opendir) 0 0, bytes_of id2 opendir)
            (get_or readlink 0 0, readlink)
            c
          ≡ (finding openfile opendir link, c'))
  unfolding deduce
  deduce_lem id1 id2 openfile opendir link readlink c u small v w e =
      elim (Bool-cases (missing_status openfile)) [
        | inl m ↦ (
          c,
          rw (check_missing-Probe id1 openfile small v, m)
              (ap (λ r. (r, c)) (finding_missing openfile opendir link m)),
        )
        | inr m ↦
            let (c1, q1, u1) = take_handle_lem id1 openfile regular_file unknown_file_type c u v in
            let (c2, q2, u2) =
              take_handle_lem id2 opendir directory (shown openfile regular_file unknown_file_type)
                c1 u1 w in
            (
              c2,
              rw (check_missing-Probe id1 openfile small v, m, q1, q2, e)
                  (ap (λ r. (r, c2)) (finding_found openfile opendir link m)),
            )
      ]

  three_ids : (n : ℕ) → n < word_size → (newid (newid (newid n).1).1).0 ≢ (newid n).0
  unfolding newid
  three_ids n h = ground arith

  -- By the answers of the server to an OPEN, an OPENDIR and a READLINK of the path, if these are what
  -- is sent next, and whatever the order of the answers, type() finds a link if the reading as a link
  -- succeeds, else a directory if the opening as a directory does, else a regular file if the opening
  -- as a file does, else a path of an unknown type; but a path that cannot be opened as a file since
  -- there is no such file is an error, which is thrown, even if it is a link.
  pub type-finding :
      (path : Bytes) (c : Client T) (openfile opendir : Probe) (link : Bool)
      → IsProbed path c openfile opendir link
      → (c' : Client T) × (type T path c ≡ (finding openfile opendir link, c'))
  unfolding type
  type-finding path c openfile opendir link v =
      let n = c.id in
      let (s1, t1) = newid-small n v.small in
      let (s2, t2) = newid-small (newid n).1 t1 in
      let c0 = record c { id = (newid (newid (newid n).1).1).1 } in
      let (l1, q1, g1) = send_probes_lem path (first_id c) (second_id c) (third_id c) c0 v.up in
      let (a1, a2, a3) = v.answered l1 g1 in
      let (l2, q2, g2) = await_lem (first_id c) _ (record c0 { link = l1 }) g1.up a1 in
      let b2 = g2.answers _ _ (newid-newid n v.small) a2 in
      let (l3, q3, g3) = await_lem (second_id c) _ (record c0 { link = l2 }) g2.up b2 in
      let b3 =
        g3.answers _ _ (newid-newid (newid n).1 t1) (g2.answers _ _ (three_ids n v.small) a3) in
      let (l4, q4, g4) = await_lem (third_id c) v.readlink (record c0 { link = l3 }) g3.up b3 in
      let (c1, q5) =
        deduce_lem (first_id c) (second_id c) openfile opendir link v.readlink
          (record c0 { link = l4 }) g4.up s1 v.openfile_fits v.opendir_fits v.is_link in
      (c1, rw (init_lem T S L c v.is_connected, q1, q2, q3, q4) q5)
