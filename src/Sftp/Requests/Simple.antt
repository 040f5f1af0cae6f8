-- ===== src/Sftp/Requests/Simple.antt =====
-- sftp.cc: what unlink(), rmdir(), mkdir() and a round of rename() do with the reply to their request.
use hbackup.Prelude.{ℕ, ◌≡◌, inl, inr, refl, [], append-nil, true, false, Bytes}
use hbackup.Outcome.{ok}
use hbackup.Sftp.Wire.{pack_string}
use hbackup.Sftp.Replies.{newid}
use hbackup.Sftp.Check.{check}
use hbackup.Sftp.Transport.{Transport, Server, Continues, IsTransport}
use hbackup.Sftp.Transport.Laws.{Continues-trans, Continues-weaken}
use hbackup.Sftp.Requests.{
  Client, command, on_link, check_reply, fresh_id, simple_request, init, unlink, rmdir,
  path_request,
}

-- A client whose connection has gone on, and that has used up an ID.
abbrev pub moved : {T : Transport} → ℕ → T.State → Client T → Client T
moved n l c = record c { link = l; id = n }

module _ (T : Transport) (S : Server T) (L : IsTransport T S) where
  open S use {Up, Answers, output}

  pub init_lem : (c : Client T) → T.connected c.link ≡ true → init T c ≡ (ok tt, c)
  unfolding init
  init_lem c e = rw e refl

  pub command_lem :
      (cmd : Bytes) (c : Client T)
      → Up c.link
      → (l : T.State) × (command T cmd c ≡ (ok tt, record c { link = l }))
        × Continues T S c.link (pack_string [] cmd) (λ _. ⊥) l
  unfolding command on_link
  command_lem cmd c u =
      let (l1, q1, c1) = L.sends cmd c.link u in
      let (l2, q2, c2) = L.flushes l1 c1.up in
      (
        l2,
        rw (q1, q2) refl,
        Continues-weaken T S (append-nil _) (λ j g. elim g [ inl x ↦ x | inr x ↦ x ])
            (Continues-trans T S c1 c2),
      )

  -- A request gets the verdict of its own reply, and sends one packet.
  pub simple_request_lem :
      (cmd : ℕ → Bytes) (r : Bytes) (c : Client T)
      → Up c.link
      → Answers c.link (newid c.id).0 r
      → (l : T.State) × (simple_request T cmd c ≡ (check r false, moved (newid c.id).1 l c))
        × Continues T S c.link (pack_string [] (cmd (newid c.id).0)) (λ j. j ≡ (newid c.id).0) l
  unfolding simple_request fresh_id check_reply on_link
  simple_request_lem cmd r c u a =
      let id = (newid c.id).0 in
      let (l1, q1, c1) = command_lem (cmd id) (record c { id = (newid c.id).1 }) u in
      let (l2, q2, c2) = L.awaits id r l1 c1.up (c1.answers id r (λ x. x) a) in
      (
        l2,
        rw (q1, q2) refl,
        Continues-weaken T S (append-nil _) (λ j g. elim g [ inl x ↦ absurd x | inr x ↦ x ])
            (Continues-trans T S c1 c2),
      )

  pub unlink_lem :
      (path r : Bytes) (c : Client T)
      → T.connected c.link ≡ true
      → Up c.link
      → Answers c.link (newid c.id).0 r
      → (l : T.State) × (unlink T path c ≡ (check r false, moved (newid c.id).1 l c))
        × Continues T S c.link
            (pack_string [] (path_request 13 (newid c.id).0 path))
            (λ j. j ≡ (newid c.id).0)
            l
  unfolding unlink
  unlink_lem path r c e u a =
      let (l, q, go) = simple_request_lem (λ id. path_request 13 id path) r c u a in
      (l, rw (init_lem c e) q, go)

  pub rmdir_lem :
      (path r : Bytes) (c : Client T)
      → T.connected c.link ≡ true
      → Up c.link
      → Answers c.link (newid c.id).0 r
      → (l : T.State) × (rmdir T path c ≡ (check r false, moved (newid c.id).1 l c))
        × Continues T S c.link
            (pack_string [] (path_request 15 (newid c.id).0 path))
            (λ j. j ≡ (newid c.id).0)
            l
  unfolding rmdir
  rmdir_lem path r c e u a =
      let (l, q, go) = simple_request_lem (λ id. path_request 15 id path) r c u a in
      (l, rw (init_lem c e) q, go)
