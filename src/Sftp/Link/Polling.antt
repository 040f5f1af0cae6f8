-- ===== src/Sftp/Link/Polling.antt =====
-- sftp.cc: what recv(), poll(), await() and send() do to a session whose server sends packets.
use Prim.Native.Nat.{◌<◌}
use hbackup.Prelude.{
  ℕ, zero, suc, ◌≡◌, ◌≢◌, ◌%◌, refl, sym, ap, subst, ◌∙◌, [], ◌∷◌, ◌++◌, append_assoc, List, All,
  Bool, true, false, length, Bytes, arith,
}
use hbackup.Outcome.{ok, and_then}
use hbackup.File.{Device, File}
use hbackup.File.Read.{IsReader, stream, IsReadable}
use hbackup.File.Taker.{IsWritable}
use hbackup.File.Write.{IsWriter, text, put_all_lem}
use hbackup.Sftp.Wire.{word_size, pack_uint32, pack_string}
use hbackup.Sftp.Replies.{Session, poll, readable, poll_ready, put_output, send}
use hbackup.Sftp.Replies.Awaiting.{Packet, IsPacket, sent, deliver_all, poll_lem}

-- What select() is taken to answer for a server that does not hang up: a file is ready only if there
-- is something to read.
pub record IsSelect (V : Device) (R : IsReader V) (select : V.State → Bool × V.State) : Type 0 where
  pub same_content : (d : V.State) → R.content (select d).1 ≡ R.content d
  pub something : (d : V.State) → (select d).0 ≡ true → R.content d ≢ []

module _ (V : Device) (R : IsReader V) (select : V.State → Bool × V.State) where
  -- Some of the packets have been received.
  pub record Advanced (qs : List Packet) (s : Session V select) (s' : Session V select)
      : Type 0 where
    pub before : List Packet
    pub left : List Packet
    pub whole : qs ≡ before ++ left
    pub mailbox : s'.mailbox ≡ deliver_all before s.mailbox
    pub coming : stream V R s'.input ≡ sent left
    pub is_readable : IsReadable V R s'.input
    pub same_output : s'.output ≡ s.output

  module _ (Q : IsSelect V R select) where
    open Q use {same_content, something}

    -- readable() tells whether there is something to read, and leaves it there.
    readable_lem :
        (f : File V)
        → IsReadable V R f
        → (b : Bool) × (g : File V) × (readable V select f ≡ (b, g))
          × IsReadable V R g
          × (stream V R g ≡ stream V R f)
          × (b ≡ true → stream V R f ≢ [])
    unfolding readable
    readable_lem f v = go f.buffered refl
      where
        go :
            (x : Bytes)
            → f.buffered ≡ x
            → (b : Bool) × (g : File V) × (readable V select f ≡ (b, g))
              × IsReadable V R g
              × (stream V R g ≡ stream V R f)
              × (b ≡ true → stream V R f ≢ [])
        go [] e =
            let same : stream V R (record f { device = (select f.device).1 }) ≡ stream V R f =
              ap (λ c. f.buffered ++ c) (same_content f.device) in
            (
              (select f.device).0,
              record f { device = (select f.device).1 },
              ground (arith, e),
              record {
                not_writing = v.not_writing;
                idle_empty = v.idle_empty;
                eof_empty = λ h. same ∙ v.eof_empty h;
              },
              same,
              λ h t. something f.device h (ap (λ b. b ++ R.content f.device) (sym e) ∙ t),
            )
        go (c ∷ x) e = (
          true,
          f,
          ground (arith, e),
          v,
          refl,
          λ _ h. cc (ap (λ b. b ++ R.content f.device) (sym e) ∙ h),
        )

    poll_ready_done :
        (fuel : ℕ) (s : Session V select) (g : File V)
        → readable V select s.input ≡ (false, g)
        → poll_ready V select (suc fuel) s ≡ (ok tt, record s { input = g })
    unfolding poll_ready
    poll_ready_done fuel s g e = rw (poll_ready, e) (ap (λ p. (ok tt, record s { input = p.1 })) e)

    poll_ready_more :
        (fuel : ℕ) (s s1 : Session V select) (g : File V)
        → readable V select s.input ≡ (true, g)
        → poll V select (record s { input = g }) ≡ (ok tt, s1)
        → poll_ready V select (suc fuel) s ≡ poll_ready V select fuel s1
    unfolding poll_ready
    poll_ready_more fuel s s1 g e q =
        rw (poll_ready, e)
          (ap
              (λ p.
                and_then (poll V select (record s { input = p.1 }))
                  (λ _ s2. poll_ready V select fuel s2))
              e
            ∙ rw q refl)

    -- The loop of send() ends, and has received some of the packets.
    poll_ready_lem :
        (fuel : ℕ) (qs : List Packet) (s : Session V select)
        → length qs < fuel
        → All IsPacket qs
        → IsReadable V R s.input
        → stream V R s.input ≡ sent qs
        → (s' : Session V select) × (poll_ready V select fuel s ≡ (ok tt, s')) × Advanced qs s s'
    unfolding sent deliver_all
    poll_ready_lem zero qs s few vs v e = absurd (omega arith)
    poll_ready_lem (suc fuel) qs s few vs v e =
        let (b, g, q, w, same, there) = readable_lem s.input v in
        by_answer b qs g q w (same ∙ e) (λ h t. there h (e ∙ t)) few vs
          (λ ps s1. poll_ready_lem fuel ps s1)
      where
        by_answer :
            (b : Bool) (qs : List Packet) (g : File V)
            → readable V select s.input ≡ (b, g)
            → IsReadable V R g
            → stream V R g ≡ sent qs
            → (b ≡ true → sent qs ≢ [])
            → length qs < suc fuel
            → All IsPacket qs
            → ((ps : List Packet) (s1 : Session V select)
                → length ps < fuel
                → All IsPacket ps
                → IsReadable V R s1.input
                → stream V R s1.input ≡ sent ps
                → (s2 : Session V select) × (poll_ready V select fuel s1 ≡ (ok tt, s2))
                  × Advanced ps s1 s2)
            → (s' : Session V select) × (poll_ready V select (suc fuel) s ≡ (ok tt, s'))
              × Advanced qs s s'
        by_answer false qs g q w e there few vs again = (
          record s { input = g },
          poll_ready_done fuel s g q,
          record {
            before = [];
            left = qs;
            whole = refl;
            mailbox = refl;
            coming = e;
            is_readable = w;
            same_output = refl;
          },
        )
        by_answer true [] g q w e there few vs again = absurd (there refl refl)
        by_answer true (p ∷ qs) g q w e there few (vp, vs) again =
            let (s1, polled, got) =
              poll_lem V select R p (sent qs) (record s { input = g }) vp w e in
            let (s2, done, more) = again qs s1 (omega arith) vs got.readable got.left in
            (
              s2,
              poll_ready_more fuel s s1 g q polled ∙ done,
              record {
                before = p ∷ more.before;
                left = more.left;
                whole = ap (λ t. p ∷ t) more.whole;
                mailbox = more.mailbox ∙ ap (deliver_all more.before) got.mailbox;
                coming = more.coming;
                is_readable = more.is_readable;
                same_output = more.same_output ∙ got.same_output;
              },
            )

    module _ (W : IsWriter V) where
      -- What was put into the output of the session.
      abbrev pub outgoing : Session V select → Bytes
      outgoing s = text V W s.output

      put_output_lem :
          (t : Bytes) (s : Session V select)
          → IsWritable V s.output
          → (s' : Session V select) × (put_output V select t s ≡ (ok tt, s'))
            × (outgoing s' ≡ outgoing s ++ t)
            × IsWritable V s'.output
            × (s'.input ≡ s.input)
            × (s'.mailbox ≡ s.mailbox)
      unfolding put_output
      put_output_lem t s v =
          let (f, q, more, w) = put_all_lem V W t s.output v in
          (record s { output = f }, rw q refl, more, w, refl, refl)

      -- send() puts the command behind its length, after it has received some of the packets.
      pub send_lem :
          (fuel : ℕ) (cmd : Bytes) (qs : List Packet) (s : Session V select)
          → length qs < fuel
          → All IsPacket qs
          → IsReadable V R s.input
          → IsWritable V s.output
          → stream V R s.input ≡ sent qs
          → (s1 s' : Session V select) × (send V select fuel cmd s ≡ (ok tt, s'))
            × Advanced qs s s1
            × (outgoing s' ≡ outgoing s ++ pack_string [] cmd)
            × IsWritable V s'.output
            × (s'.input ≡ s1.input)
            × (s'.mailbox ≡ s1.mailbox)
      unfolding send pack_string
      send_lem fuel cmd qs s few vs v w e =
          let (s1, q1, adv) = poll_ready_lem fuel qs s few vs v e in
          let w1 : IsWritable V s1.output = subst (IsWritable V) (sym adv.same_output) w in
          let word = pack_uint32 [] (length cmd % word_size) in
          let (s2, q2, t2, w2, i2, m2) = put_output_lem word s1 w1 in
          let (s3, q3, t3, w3, i3, m3) = put_output_lem cmd s2 w2 in
          (
            s1,
            s3,
            rw (q1, q2, q3) refl,
            adv,
            t3
                ∙ ap (λ x. x ++ cmd) (t2 ∙ ap (λ o. text V W o ++ word) adv.same_output)
                ∙ append_assoc (outgoing s) word cmd,
            w3,
            i3 ∙ i2,
            m3 ∙ m2,
          )
