-- ===== src/Sftp/Transfers/Appended.antt =====
-- sftp.cc: a call of SftpFile::writebytes() sends its bytes at the end of what was written.
use Prim.Native.Nat.{◌<◌}
use hbackup.Prelude.{
  ℕ, ◌+◌, ◌%◌, ◌≤◌, ◌≡◌, ap, ◌∙◌, inl, inr, [], ◌∷◌, ◌++◌, length, append-nil, Bytes, arith, subst,
}
use hbackup.Outcome.{ok}
use hbackup.Sftp.Wire.{Status, pack_string}
use hbackup.Sftp.Transport.{Transport, Server, Continues, IsTransport}
use hbackup.Sftp.Transport.Laws.{Continues-trans, Continues-weaken}
use hbackup.Sftp.Requests.{on_link}
use hbackup.Sftp.Transfers.{
  Transfer, offset_size, write_request, on_fs, reap, request_write, write_some,
}
use hbackup.Sftp.Transfers.Ahead.{ids_from, ids_from-snoc, length-ids_from, fresh_id_next}
use hbackup.Sftp.Transfers.Written.{IsAccepting, InOrder, IsWriting, reap_accepted}

module _ (T : Transport) (S : Server T) (L : IsTransport T S) where
  open S use {Up, Answers, output}

  -- A request goes out, and is answered by its own ID, at the end of what was written.
  pub record Wrote (t t' : Transfer T) (bytes : Bytes) : Type 0 where
    pub handle : t'.handle ≡ t.handle
    pub offset : t'.writeoffset ≡ (t.writeoffset + length bytes) % offset_size
    pub next_id : t'.fs.id ≡ t.fs.id + 1
    pub sent :
        output t'.fs.link
        ≡ output t.fs.link ++ pack_string [] (write_request t.fs.id t.handle t.writeoffset bytes)

  module _ (statuses : ℕ → Status) (A : IsAccepting statuses) (last : ℕ) (O : InOrder T S) where
    abbrev Writing : Transfer T → ℕ → ℕ → Type 0
    Writing = IsWriting T S L statuses A last O

    pub write_some_lem :
        (bytes : Bytes) (t : Transfer T) (f n : ℕ)
        → f + n < last
        → Writing t f n
        → (t' : Transfer T) × (g : ℕ) × (m : ℕ) × (write_some T bytes t ≡ (ok tt, t'))
          × (g + m ≤ last)
          × Writing t' g m
          × Wrote t t' bytes
    unfolding write_some request_write on_fs on_link
    write_some_lem bytes t f n room v =
        let id = t.fs.id in
        let fresh =
          fresh_id_next T t.fs (omega (arith, v.next_id, v.positive))
            (omega (arith, v.next_id, v.small_ids, room)) in
        let cmd = write_request id t.handle t.writeoffset bytes in
        let (l1, q1, c1) = L.sends cmd t.fs.link v.up in
        let (l2, q2, c2) = L.flushes l1 c1.up in
        let go : Continues T S t.fs.link (pack_string [] cmd) (λ _. ⊥) l2 =
          Continues-weaken T S (append-nil _) (λ j g. elim g [ inl x ↦ x | inr x ↦ x ])
            (Continues-trans T S c1 c2) in
        let t1 : Transfer T = record t {
          fs = record t.fs { id = id + 1; link = l2 };
          writeoffset = (t.writeoffset + length bytes) % offset_size;
          writequeue = t.writequeue ++ id ∷ [];
        } in
        let queue : t1.writequeue ≡ ids_from f (n + 1) =
          ap (λ q. q ++ id ∷ []) v.queue
          ∙ ap (λ j. ids_from f n ++ j ∷ []) v.next_id
          ∙ ids_from-snoc f n in
        let size : length t1.writequeue ≡ n + 1 = ap length queue ∙ length-ids_from f (n + 1) in
        let (t2, g, m, q, few, v2, same) =
          reap_accepted T S L statuses A last O (n + 1) f t1 (omega (arith, room)) (record {
            up = go.up;
            queue = queue;
            next_id = omega (arith, v.next_id);
            ordered = subst O.Ordered (ap (λ p. p.1) q2) (
                O.after_flush l1 c1.up
                  (subst O.Ordered (ap (λ p. p.1) q1) (O.after_send cmd t.fs.link v.up v.ordered)));
            positive = v.positive;
            small_ids = v.small_ids;
            replies = λ j h k. go.answers j _ (λ x. x) (v.replies j h k);
          }) in
        (
          t2,
          g,
          m,
          ap (λ p. request_write T p bytes t) fresh ∙ rw (q1, q2) (ap (λ k. reap T k t1) size ∙ q),
          few,
          v2,
          record {
            handle = same.handle;
            offset = same.offset;
            next_id = same.next_id;
            sent = same.sent ∙ go.output_grows;
          },
        )
