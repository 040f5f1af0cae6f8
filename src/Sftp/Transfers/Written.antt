-- ===== src/Sftp/Transfers/Written.antt =====
-- sftp.cc: the loop at the end of SftpFile::writebytes() where the server accepts the writes in flight.
use Prim.Native.Nat.{◌<◌}
use hbackup.Prelude.{
  ℕ, zero, suc, ◌+◌, ◌≤◌, ◌≡◌, refl, ap, subst, ◌∙◌, inl, inr, ◌∷◌, List, true, false,
  if◌then◌else◌, append-nil, Bytes, arith, ◌==◌, Bool-cases,
}
use hbackup.Outcome.{Result, ok, fatal, and_then}
use hbackup.Sftp.Wire.{word_size, Status}
use hbackup.Sftp.Wire.Laws.{IsStatus}
use hbackup.Sftp.Check.{status_reply}
use hbackup.Sftp.Transport.{Transport, Server, IsTransport}
use hbackup.Sftp.Requests.{on_link}
use hbackup.Sftp.Requests.Fallback.{verdict, check-verdict}
use hbackup.Sftp.Transfers.{
  Transfer, on_fs, has_id, without, synchronize_one, find_ready, reap_ready, reap,
}
use hbackup.Sftp.Transfers.Ahead.{ids_from}

-- The statuses of writes that the server carries out.
pub record IsAccepting (statuses : ℕ → Status) : Type 0 where
  pub accepted : (j : ℕ) → (statuses j).status ≡ 0
  pub fits : (j : ℕ) → IsStatus (statuses j)

module _ (T : Transport) where
  reap_ready-some :
      (front : ℕ) (queue : List ℕ) (again : Transfer T → Result (Unit {0}) × Transfer T)
      (t t' : Transfer T)
      → 0 < front
      → synchronize_one T front front t ≡ (ok tt, t')
      → reap_ready T (front ∷ queue) front again t ≡ again t'
  unfolding reap_ready
  reap_ready-some front queue again t t' pos q =
      let nonzero : (front == 0) ≡ false = ground (arith, pos) in
      ap (λ b. if b then (ok tt, t) else and_then (synchronize_one T front front t) (λ _. again))
        nonzero
      ∙ ap (λ p. and_then p (λ _. again)) q

  -- A round, by the queue and what is ready.
  reap-queue :
      (n : ℕ) (queue : List ℕ) (ready_id : ℕ) (t : Transfer T)
      → t.writequeue ≡ queue
      → find_ready T queue t.fs.link ≡ ready_id
      → reap T (suc n) t ≡ reap_ready T queue ready_id (reap T n) t
  unfolding reap
  reap-queue n queue ready_id t e found =
      ap (λ q. reap_ready T q (find_ready T q t.fs.link) (reap T n) t) e
      ∙ ap (λ r. reap_ready T queue r (reap T n) t) found

module _ (T : Transport) (S : Server T) where
  open S use {Up, Answers}

  -- A condition on the state under which the reply to a request has come if that to a later one has,
  -- and which the operations of a file that is written preserve.
  pub record InOrder : Type 1 where
    pub Ordered : T.State → Type 0
    pub comes_first :
        (f j : ℕ) (r : Bytes) (l : T.State)
        → Ordered l
        → Answers l f r
        → f < j
        → T.ready j l ≡ true
        → T.ready f l ≡ true
    pub after_send : (cmd : Bytes) (l : T.State) → Up l → Ordered l → Ordered (T.send cmd l).1
    pub after_flush : (l : T.State) → Up l → Ordered l → Ordered (T.flush l).1
    pub after_await :
        (f : ℕ) (r : Bytes) (l : T.State)
        → Up l
        → Answers l f r
        → Ordered l
        → Ordered (T.await f l).1

module _ (T : Transport) (S : Server T) (L : IsTransport T S) where
  open S use {Up, Answers, output}

  module _ (statuses : ℕ → Status) (A : IsAccepting statuses) (last : ℕ) (O : InOrder T S) where
    -- `n` writes are in flight, from the ID `f` on, and those up to the ID `last` will be accepted.
    pub record IsWriting (t : Transfer T) (f n : ℕ) : Type 0 where
      pub up : Up t.fs.link
      pub queue : t.writequeue ≡ ids_from f n
      pub next_id : t.fs.id ≡ f + n
      pub ordered : O.Ordered t.fs.link
      pub positive : 0 < f
      pub small_ids : last < word_size
      pub replies : (j : ℕ) → f ≤ j → j < last → Answers t.fs.link j (status_reply j (statuses j))

    -- What does not change while replies are taken.
    pub record Same (t t' : Transfer T) : Type 0 where
      pub handle : t'.handle ≡ t.handle
      pub offset : t'.writeoffset ≡ t.writeoffset
      pub next_id : t'.fs.id ≡ t.fs.id
      pub sent : output t'.fs.link ≡ output t.fs.link

    pub Same-trans : (t t1 t2 : Transfer T) → Same t t1 → Same t1 t2 → Same t t2
    Same-trans t t1 t2 a b = record {
      handle = b.handle ∙ a.handle;
      offset = b.offset ∙ a.offset;
      next_id = b.next_id ∙ a.next_id;
      sent = b.sent ∙ a.sent;
    }

    -- The reply to the front of the queue is taken.
    pub front_accepted :
        (id f n : ℕ) (t : Transfer T)
        → (if id == 0 then f else id) ≡ f
        → f + n < last
        → IsWriting t f (suc n)
        → (t' : Transfer T) × (synchronize_one T f id t ≡ (ok tt, t'))
          × IsWriting t' (f + 1) n
          × Same t t'
    unfolding synchronize_one on_fs on_link verdict
    front_accepted id f n t e few v =
        let a = v.replies f (omega arith) (omega (arith, few)) in
        let (l, q, go) = L.awaits f (status_reply f (statuses f)) t.fs.link v.up a in
        let front : without f t.writequeue ≡ ids_from (f + 1) n =
          unfold without ids_from in rw v.queue (ground arith) in
        let there : has_id f t.writequeue ≡ true =
          unfold has_id ids_from in rw v.queue (ground arith) in
        let checked = check-verdict f (statuses f) (omega (arith, few, v.small_ids)) (A.fits f) in
        (
          record t { fs = record t.fs { link = l }; writequeue = without f t.writequeue },
          rw (q, e, there, checked, A.accepted f) refl,
          record {
            up = go.up;
            queue = front;
            next_id = omega (arith, v.next_id);
            ordered =
                subst O.Ordered (ap (λ p. p.1) q) (O.after_await f _ t.fs.link v.up a v.ordered);
            positive = omega arith;
            small_ids = v.small_ids;
            replies = λ j h k.
                go.answers j _ (λ x. omega (arith, x, h)) (v.replies j (omega (arith, h)) k);
          },
          record {
            handle = refl;
            offset = refl;
            next_id = refl;
            sent = go.output_grows ∙ append-nil _;
          },
        )

    -- If the first reply has not come, none has.
    none_ready :
        (l : T.State) (f k m : ℕ) (r : Bytes)
        → O.Ordered l
        → Answers l f r
        → f < k
        → T.ready f l ≡ false
        → find_ready T (ids_from k m) l ≡ 0
    unfolding find_ready ids_from
    none_ready l f k zero r order a later e = refl
    none_ready l f k (suc m) r order a later e = elim (Bool-cases (T.ready k l)) [
      | inl z ↦ absurd (cc (O.comes_first f k r l order a later z, e))
      | inr z ↦ rw z (none_ready l f (k + 1) m r order a (omega (arith, later)) e)
    ]

    -- What replies have come are taken, in the order of the queue.
    pub reap_accepted :
        (n f : ℕ) (t : Transfer T)
        → f + n ≤ last
        → IsWriting t f n
        → (t' : Transfer T) × (g : ℕ) × (m : ℕ) × (reap T n t ≡ (ok tt, t'))
          × (g + m ≤ last)
          × IsWriting t' g m
          × Same t t'
    unfolding reap reap_ready ids_from find_ready
    reap_accepted zero f t few v = (
      t,
      f,
      zero,
      ap (λ q. if find_ready T q t.fs.link == 0 then (ok tt, t) else (fatal, t)) v.queue,
      few,
      v,
      record { handle = refl; offset = refl; next_id = refl; sent = refl },
    )
    reap_accepted (suc n) f t few v = elim (Bool-cases (T.ready f t.fs.link)) [
      | inl z ↦
          let (t1, q, v1, s1) = front_accepted f f n t (ground arith) (omega (arith, few)) v in
          let (t2, g, m, q2, few2, v2, s2) = reap_accepted n (f + 1) t1 (omega (arith, few)) v1 in
          let found : find_ready T (ids_from f (suc n)) t.fs.link ≡ f = rw z refl in
          let taken = reap_ready-some T f (ids_from (f + 1) n) (reap T n) t t1 v.positive q in
          (
            t2,
            g,
            m,
            reap-queue T n (ids_from f (suc n)) f t v.queue found ∙ taken ∙ q2,
            few2,
            v2,
            Same-trans t t1 t2 s1 s2,
          )
      | inr z ↦
          let first = v.replies f (omega arith) (omega (arith, few)) in
          let found : find_ready T (ids_from f (suc n)) t.fs.link ≡ 0 =
            rw z (none_ready t.fs.link f (f + 1) n _ v.ordered first (omega arith) z) in
          (
            t,
            f,
            suc n,
            reap-queue T n (ids_from f (suc n)) 0 t v.queue found,
            few,
            v,
            record { handle = refl; offset = refl; next_id = refl; sent = refl },
          )
    ]
