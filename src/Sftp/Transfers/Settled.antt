-- ===== src/Sftp/Transfers/Settled.antt =====
-- sftp.cc: synchronize() of SftpFile where the server accepts the writes in flight.
use hbackup.Prelude.{ℕ, zero, suc, ◌+◌, ◌≤◌, ◌≡◌, refl, ap, subst, ◌∙◌, [], ◌∷◌, length, arith}
use hbackup.Outcome.{Result, ok, fatal}
use hbackup.Sftp.Wire.{Status}
use hbackup.Sftp.Transport.{Transport, Server, IsTransport}
use hbackup.Sftp.Transfers.{Transfer, synchronize_loop, synchronize}
use hbackup.Sftp.Transfers.Ahead.{ids_from, length-ids_from}
use hbackup.Sftp.Transfers.Written.{
  IsAccepting, InOrder, IsWriting, Same, Same-trans, front_accepted,
}

module _ (T : Transport) (S : Server T) (L : IsTransport T S) where
  module _ (statuses : ℕ → Status) (A : IsAccepting statuses) (last : ℕ) (O : InOrder T S) where
    -- The loop of synchronize() takes the replies that are left.
    loop_accepted :
        (n f : ℕ) (t : Transfer T)
        → f + n ≤ last
        → IsWriting T S L statuses A last O t f n
        → (t' : Transfer T) × (synchronize_loop T n t ≡ (ok tt, t'))
          × IsWriting T S L statuses A last O t' (f + n) 0
          × Same T S L statuses A last O t t'
    unfolding synchronize_loop ids_from
    loop_accepted zero f t few v =
        let none_more : f ≡ f + 0 = omega arith in
        (
          t,
          ap
              (λ q. elim q as (λ _. Result (Unit {0}) × Transfer T) [
                | [] ↦ (ok tt, t)
                | _ ∷ _ ↦ (fatal, t)
              ])
              v.queue,
          subst (λ k. IsWriting T S L statuses A last O t k 0) none_more v,
          record { handle = refl; offset = refl; next_id = refl; sent = refl },
        )
    loop_accepted (suc n) f t few v =
        let (t1, q, v1, s1) =
          front_accepted T S L statuses A last O 0 f n t refl (omega (arith, few)) v in
        let more : f + 1 + n ≡ f + suc n = omega arith in
        let (t2, q2, v2, s2) = loop_accepted n (f + 1) t1 (omega (arith, few)) v1 in
        (
          t2,
          rw (synchronize_loop, v.queue, q) q2,
          subst (λ k. IsWriting T S L statuses A last O t2 k 0) more v2,
          Same-trans T S L statuses A last O t t1 t2 s1 s2,
        )

    -- synchronize() leaves nothing in flight.
    pub sync_accepted :
        (n f : ℕ) (t : Transfer T)
        → f + n ≤ last
        → IsWriting T S L statuses A last O t f n
        → (t' : Transfer T) × (synchronize T t ≡ (ok tt, t'))
          × IsWriting T S L statuses A last O t' (f + n) 0
          × Same T S L statuses A last O t t'
    unfolding synchronize
    sync_accepted n f t few v =
        let size : length t.writequeue ≡ n = ap length v.queue ∙ length-ids_from f n in
        let (t1, q, v1, same) = loop_accepted n f t few v in
        (t1, ap (λ k. synchronize_loop T k t) size ∙ q, v1, same)
