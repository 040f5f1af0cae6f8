-- ===== src/Sftp/Transfers/Behind.antt =====
-- sftp.cc: SftpFile::synchronize(), which takes the replies to the writes that are in flight.
use Prim.Native.Nat.{◌<◌}
use hbackup.Prelude.{
  ℕ, suc, ◌≡◌, ◌≢◌, refl, ap, ◌∙◌, [], ◌∷◌, List, true, false, length, Bytes, arith, ◌==◌,
  if◌then◌else◌, Bool-cases, inl, inr,
}
use hbackup.Outcome.{Result, sftp_file_error, ok, err, fatal}
use hbackup.Sftp.Wire.{word_size, Status}
use hbackup.Sftp.Wire.Laws.{IsStatus}
use hbackup.Sftp.Check.{status_reply, errno_of}
use hbackup.Sftp.Transport.{Transport, Server, IsTransport}
use hbackup.Sftp.Requests.{on_link}
use hbackup.Sftp.Requests.Fallback.{verdict, check-verdict}
use hbackup.Sftp.Transfers.{
  Transfer, on_fs, has_id, without, synchronize_one, synchronize_loop, synchronize,
}

-- A write in flight, and the status that the server answers it with.
pub record Write : Type 0 where
  pub id : ℕ
  pub status : Status

unfoldable pub ids_of : List Write → List ℕ
ids_of [] = []
ids_of (w ∷ ws) = w.id ∷ ids_of ws

-- The verdict on the first write that failed.
unfoldable pub first_failure : List Write → Result (Unit {0})
first_failure [] = ok tt
first_failure (w ∷ ws) = if w.status.status == 0 then first_failure ws else verdict w.status.status

-- What is left in flight behind the first write that failed.
unfoldable pub behind_failure : List Write → List ℕ
behind_failure [] = []
behind_failure (w ∷ ws) = if w.status.status == 0 then behind_failure ws else ids_of ws

module _ (T : Transport) (S : Server T) (L : IsTransport T S) where
  open S use {Up, Answers}

  -- Every write is answered, under an ID of its own.
  unfoldable pub AllAnswered : T.State → List Write → Type 0
  AllAnswered l [] = Unit
  AllAnswered l (w ∷ ws) =
      Answers l w.id (status_reply w.id w.status)
      × IsStatus w.status
      × (w.id < word_size)
      × (has_id w.id (ids_of ws) ≡ false)
      × AllAnswered l ws

  AllAnswered-keeps :
      (l l' : T.State) (id : ℕ) (ws : List Write)
      → ((j : ℕ) (r : Bytes) → j ≢ id → Answers l j r → Answers l' j r)
      → has_id id (ids_of ws) ≡ false
      → AllAnswered l ws
      → AllAnswered l' ws
  unfolding AllAnswered ids_of has_id
  AllAnswered-keeps l l' id [] k n h = tt
  AllAnswered-keeps l l' id (w ∷ ws) k n (a, s, small, fresh, h) = (
    k w.id (status_reply w.id w.status) (λ e. ground arith) a,
    s,
    small,
    fresh,
    AllAnswered-keeps l l' id ws k (ground arith) h,
  )

  -- A round takes the reply to the front of the queue, and removes it.
  synchronize_front :
      (w : Write) (ws : List Write) (t : Transfer T)
      → t.writequeue ≡ w.id ∷ ids_of ws
      → Up t.fs.link
      → AllAnswered t.fs.link (w ∷ ws)
      → (t' : Transfer T) × (synchronize_one T w.id 0 t ≡ (verdict w.status.status, t'))
        × (t'.writequeue ≡ ids_of ws)
        × Up t'.fs.link
        × AllAnswered t'.fs.link ws
  unfolding synchronize_one on_fs on_link AllAnswered
  synchronize_front w ws t e u (a, s, small, fresh, h) =
      let (l, q, go) = L.awaits w.id (status_reply w.id w.status) t.fs.link u a in
      let front : without w.id t.writequeue ≡ ids_of ws = unfold without in rw e (ground arith) in
      let there : has_id w.id t.writequeue ≡ true = unfold has_id in rw e (ground arith) in
      (
        record t { fs = record t.fs { link = l }; writequeue = without w.id t.writequeue },
        rw (q, there, check-verdict w.id w.status small s) refl,
        front,
        go.up,
        AllAnswered-keeps t.fs.link l w.id ws go.answers fresh h,
      )

  sync_loop :
      (ws : List Write) (t : Transfer T)
      → t.writequeue ≡ ids_of ws
      → Up t.fs.link
      → AllAnswered t.fs.link ws
      → (t' : Transfer T) × (synchronize_loop T (length ws) t ≡ (first_failure ws, t'))
        × (t'.writequeue ≡ behind_failure ws)
  unfolding synchronize_loop first_failure behind_failure ids_of
  sync_loop [] t e u h = (
    t,
    ap
        (λ q. elim q as (λ _. Result (Unit {0}) × Transfer T) [
          | [] ↦ (ok tt, t)
          | _ ∷ _ ↦ (fatal, t)
        ])
        e,
    e,
  )
  sync_loop (w ∷ ws) t e u h =
      let (t1, q, e1, u1, h1) = synchronize_front w ws t e u h in
      elim (Bool-cases (w.status.status == 0)) [
        | inl z ↦
            let passed : verdict w.status.status ≡ ok tt = unfold verdict in rw z refl in
            let (t2, q2, e2) = sync_loop ws t1 e1 u1 h1 in
            (t2, rw (synchronize_loop, e, q, passed, z) q2, rw z e2)
        | inr z ↦
            let thrown : verdict w.status.status
                ≡ err (sftp_file_error (errno_of w.status.status) w.status.status) =
              unfold verdict in rw z refl in
            (t1, rw (synchronize_loop, e, q, thrown, z) refl, rw z e1)
      ]

  length-ids_of : (ws : List Write) → length (ids_of ws) ≡ length ws
  unfolding ids_of
  length-ids_of [] = refl
  length-ids_of (w ∷ ws) = ap suc (length-ids_of ws)

  -- If every write in flight is answered by a status, under an ID of its own, synchronize() comes to
  -- an end: it succeeds exactly if all statuses are 0, and then nothing is left in flight; else it
  -- throws what the first other status says, and the writes behind that one are still in flight.
  pub synchronize-first_failure :
      (ws : List Write) (t : Transfer T)
      → t.writequeue ≡ ids_of ws
      → Up t.fs.link
      → AllAnswered t.fs.link ws
      → (t' : Transfer T) × (synchronize T t ≡ (first_failure ws, t'))
        × (t'.writequeue ≡ behind_failure ws)
  unfolding synchronize
  synchronize-first_failure ws t e u h =
      let (t1, q, rest) = sync_loop ws t e u h in
      (t1, ap (λ n. synchronize_loop T n t) (ap length e ∙ length-ids_of ws) ∙ q, rest)
