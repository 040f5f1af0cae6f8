-- ===== src/Sftp/Link/Serving.antt =====
-- sftp.cc: the connection of SftpFilesystem does what its requests rely on, where the server sends
-- packets.
use Prim.Native.Nat.{◌<◌}
use hbackup.Prelude.{
  ℕ, ◌≡◌, refl, sym, ap, subst, ◌∙◌, [], ◌∷◌, ◌++◌, append-nil, append_assoc, List, All, Bool, some,
  length, length-append, get_or, Bytes, nat_eq, arith, inl, inr,
}
use hbackup.Prelude.Dict
use hbackup.Outcome.{Result, ok}
use hbackup.File.{Device}
use hbackup.File.Read.{IsReader, stream, IsReadable}
use hbackup.File.Taker.{IsWritable, IsFlushed-IsWritable}
use hbackup.File.Write.{IsWriter, text, flush_lem}
use hbackup.Sftp.Wire.{pack_string}
use hbackup.Sftp.Replies.{Mailbox, ignore, await, send}
use hbackup.Sftp.Replies.Awaiting.{
  Packet, IsPacket, sent, deliver_all, claimed, IsOpen, await_own, await_pending,
}
use hbackup.Sftp.Transport.{Server, Continues, IsTransport}
use hbackup.Sftp.Link.{Link, link_transport, on_session, flush_output}
use hbackup.Sftp.Link.Answered.{
  Others, Answered, Answered-deliver_all, Answered-claimed, Answered-ignore, split,
}
use hbackup.Sftp.Link.Packets.{All-apart, sent_injective, sent-append, deliver_all-append}
use hbackup.Sftp.Link.Polling.{IsSelect, send_lem}

module _ (V : Device) (select : V.State → Bool × V.State) (server : Result (V.State × V.State))
    (fuel : ℕ) (R : IsReader V) (W : IsWriter V) where
  -- The packets still to come, fewer than the fuel, and an output that can be written.
  pub record IsServed (l : Link V select server fuel) (qs : List Packet) : Type 0 where
    pub packets : All IsPacket qs
    pub few : length qs < fuel
    pub coming : stream V R l.session.input ≡ sent qs
    pub is_readable : IsReadable V R l.session.input
    pub is_writable : IsWritable V l.session.output

  -- A reply is there, or to come, once.
  pub record IsAnswered (l : Link V select server fuel) (id : ℕ) (r : Bytes) : Type 0 where
    pub some_bytes : 0 < length r
    pub packets : List Packet
    pub is_served : IsServed l packets
    pub answered : Answered id r l.session.mailbox packets

  unfoldable pub link_server : Server (link_transport V select server fuel)
  unfolding link_transport
  link_server = record {
    Up = λ l. (qs : List Packet) × IsServed l qs;
    Answers = IsAnswered;
    output = λ l. text V W l.session.output;
    received = λ l. W.written l.session.output.device;
  }

  Goes : Link V select server fuel → Bytes → (ℕ → Type 0) → Link V select server fuel → Type 0
  unfolding link_transport
  Goes l sent Gone l' = Continues (link_transport V select server fuel) link_server l sent Gone l'

  answers_go_on :
      (l l' : Link V select server fuel) (qs before left : List Packet) (f : Mailbox → Mailbox)
      (Gone : ℕ → Type 0)
      → IsServed l qs
      → IsServed l' left
      → qs ≡ before ++ left
      → l'.session.mailbox ≡ f (deliver_all before l.session.mailbox)
      → ((j : ℕ) (r : Bytes) (m : Mailbox)
          → ¬ Gone j
          → Answered j r m left
          → Answered j r (f m) left)
      → (j : ℕ) (r : Bytes) → ¬ Gone j
      → IsAnswered l j r
      → IsAnswered l' j r
  answers_go_on l l' qs before left f Gone v v' whole mailbox keeps j r other a =
      let same : a.packets ≡ before ++ left =
        sent_injective a.packets qs a.is_served.packets v.packets
          (sym a.is_served.coming ∙ v.coming)
        ∙ whole in
      let answered =
        Answered-deliver_all j r before left l.session.mailbox
          (subst (Answered j r l.session.mailbox) same a.answered) in
      record {
        some_bytes = a.some_bytes;
        packets = left;
        is_served = v';
        answered =
            subst (λ m. Answered j r m left) (sym mailbox)
              (keeps j r (deliver_all before l.session.mailbox) other answered);
      }

  -- What is served once some packets have been received.
  pub left_over :
      (l l' : Link V select server fuel) (qs before left : List Packet)
      → IsServed l qs
      → qs ≡ before ++ left
      → stream V R l'.session.input ≡ sent left
      → IsReadable V R l'.session.input
      → IsWritable V l'.session.output
      → IsServed l' left
  left_over l l' qs before left v whole e r w = record {
    packets = (All-apart IsPacket before left (subst (All IsPacket) whole v.packets)).1;
    few = omega (arith, v.few, ap length whole, length-append before left);
    coming = e;
    is_readable = r;
    is_writable = w;
  }

  goes :
      (l l' : Link V select server fuel) (qs before left : List Packet) (f : Mailbox → Mailbox)
      (out : Bytes) (Gone : ℕ → Type 0)
      → IsServed l qs
      → IsServed l' left
      → qs ≡ before ++ left
      → l'.session.mailbox ≡ f (deliver_all before l.session.mailbox)
      → l'.connected ≡ l.connected
      → text V W l'.session.output ≡ text V W l.session.output ++ out
      → ((j : ℕ) (r : Bytes) (m : Mailbox)
          → ¬ Gone j
          → Answered j r m left
          → Answered j r (f m) left)
      → Goes l out Gone l'
  unfolding Goes link_server link_transport
  goes l l' qs before left f out Gone v v' whole mailbox same_flag grows keeps = record {
    up = (left, v');
    is_connected = same_flag;
    output_grows = grows;
    answers = answers_go_on l l' qs before left f Gone v v' whole mailbox keeps;
  }

  link_sends :
      (Q : IsSelect V R select) (cmd : Bytes) (l : Link V select server fuel) (qs : List Packet)
      → IsServed l qs
      → (l' : Link V select server fuel) × (on_session V select server fuel
            (send V select fuel cmd)
            l
          ≡ (ok tt, l'))
        × Goes l (pack_string [] cmd) (λ _. ⊥) l'
  unfolding on_session
  link_sends Q cmd l qs v =
      let (s1, s', q, adv, out, w, i, m) =
        send_lem V R select Q W fuel cmd qs l.session v.few v.packets v.is_readable v.is_writable
          v.coming in
      let l' = record l { session = s' } in
      let served =
        left_over l l' qs adv.before adv.left v adv.whole (ap (stream V R) i ∙ adv.coming)
          (subst (IsReadable V R) (sym i) adv.is_readable) w in
      (
        l',
        rw q refl,
        goes l l' qs adv.before adv.left (λ m. m) (pack_string [] cmd) (λ _. ⊥) v served adv.whole
            (m ∙ adv.mailbox) refl out (λ j r m o a. a),
      )

  link_flushes :
      (l : Link V select server fuel) (qs : List Packet)
      → IsServed l qs
      → (l' : Link V select server fuel) × (on_session V select server fuel
            (flush_output V select server fuel)
            l
          ≡ (ok tt, l'))
        × Goes l [] (λ _. ⊥) l'
  unfolding on_session flush_output deliver_all
  link_flushes l qs v =
      let (f, q, all, flushed) = flush_lem V W l.session.output v.is_writable in
      let l' = record l { session = record l.session { output = f } } in
      let served =
        left_over l l' qs [] qs v refl v.coming v.is_readable (IsFlushed-IsWritable V f flushed) in
      let same : text V W f ≡ text V W l.session.output ++ [] =
        ap (λ b. W.written f.device ++ b) flushed.empty ∙ append-nil _ ∙ all ∙ sym (append-nil _) in
      (
        l',
        rw q refl,
        goes l l' qs [] qs (λ m. m) [] (λ _. ⊥) v served refl refl refl same (λ j r m o a. a),
      )

  -- All that was put out has been written to the device.
  link_delivers :
      (l : Link V select server fuel) (qs : List Packet)
      → IsServed l qs
      → W.written
          (on_session V select server fuel
            (flush_output V select server fuel)
            l).1.session.output.device
        ≡ text V W l.session.output
  unfolding on_session flush_output
  link_delivers l qs v =
      let (f, q, all, flushed) = flush_lem V W l.session.output v.is_writable in
      ap (λ p. W.written p.1.device) q ∙ all

  link_ignores :
      (id : ℕ) (l : Link V select server fuel) (qs : List Packet)
      → IsServed l qs
      → Goes l []
          (λ j. j ≡ id)
          (record l { session = record l.session { mailbox = ignore id l.session.mailbox } })
  unfolding deliver_all
  link_ignores id l qs v =
      let l' = record l { session = record l.session { mailbox = ignore id l.session.mailbox } } in
      goes l l' qs [] qs (ignore id) [] (λ j. j ≡ id) v
        (left_over l l' qs [] qs v refl v.coming v.is_readable v.is_writable) refl refl refl
        (sym (append-nil _)) (λ j r m o a. Answered-ignore j id r qs m o a)

  -- await() returns the reply, and the other replies are still there.
  Awaited : Link V select server fuel → ℕ → Bytes → Type 0
  Awaited l id r =
      (l' : Link V select server fuel) × (on_session V select server fuel (await V select fuel id) l
        ≡ (ok (get_or r 0 0, r), l'))
      × Goes l [] (λ j. j ≡ id) l'

  awaits_come :
      (id : ℕ) (r : Bytes) (l : Link V select server fuel) (qs : List Packet)
      → 0 < length r
      → IsServed l qs
      → Dict.lookup id l.session.mailbox.replies ≡ some r
      → Awaited l id r
  unfolding on_session deliver_all Awaited
  awaits_come id r l qs pos v h =
      let l' = record l { session = record l.session { mailbox = claimed id l.session.mailbox } } in
      (
        l',
        rw (await_pending V select fuel id r l.session pos h) refl,
        goes l l' qs [] qs (claimed id) [] (λ j. j ≡ id) v
            (left_over l l' qs [] qs v refl v.coming v.is_readable v.is_writable) refl refl refl
            (sym (append-nil _)) (λ j r m o a. Answered-claimed j id r qs m o a),
      )

  awaits_coming :
      (before after : List Packet) (p : Packet) (l : Link V select server fuel)
      → IsServed l (before ++ p ∷ after)
      → IsOpen p.id l.session.mailbox
      → Others p.id before
      → Awaited l p.id p.bytes
  unfolding on_session deliver_all Awaited sent
  awaits_coming before after p l v open_id others =
      let (vs, (vp, _)) = All-apart IsPacket before (p ∷ after) v.packets in
      let (s', q, got) =
        await_own V select R fuel before p (sent after) l.session
          (omega (arith, v.few, length-append before (p ∷ after))) vs vp others open_id
          v.is_readable (v.coming ∙ sent-append before (p ∷ after)) in
      let l' = record l { session = s' } in
      let w = subst (IsWritable V) (sym got.same_output) v.is_writable in
      let whole : before ++ p ∷ after ≡ (before ++ p ∷ []) ++ after =
        sym (append_assoc before (p ∷ []) after) in
      let delivered =
        got.mailbox
        ∙ ap (claimed p.id) (sym (deliver_all-append before (p ∷ []) l.session.mailbox)) in
      (
        l',
        rw q refl,
        goes l l' (before ++ p ∷ after) (before ++ p ∷ []) after (claimed p.id) [] (λ j. j ≡ p.id) v
            (left_over l l' _ (before ++ p ∷ []) after v whole got.left got.readable w) whole
            delivered refl (ap (text V W) got.same_output ∙ sym (append-nil _))
            (λ j r m o a. Answered-claimed j p.id r after m o a),
      )

  link_awaits :
      (id : ℕ) (r : Bytes) (l : Link V select server fuel) (qs : List Packet)
      → 0 < length r
      → IsServed l qs
      → Answered id r l.session.mailbox qs
      → Awaited l id r
  link_awaits id r l qs pos v (inl (h, _)) = awaits_come id r l qs pos v h
  link_awaits id r l qs pos v (inr (open_id, once)) =
      let s = split id r qs once in
      let own =
        awaits_coming s.before s.after s.own l (subst (IsServed l) s.whole v)
          (subst (λ k. IsOpen k l.session.mailbox) (sym s.has_id) open_id)
          (subst (λ k. Others k s.before) (sym s.has_id) s.others) in
      subst (λ b. Awaited l id b) s.has_bytes (subst (λ k. Awaited l k s.own.bytes) s.has_id own)

  -- The connection does what the requests rely on, where select() answers for a server that does
  -- not hang up: what it sends is put out, behind its length, and after a flush all of that has been
  -- written to the server's input; each reply is awaited whole, whichever replies come before it.
  pub link_IsTransport :
      IsSelect V R select → IsTransport (link_transport V select server fuel) link_server
  unfolding link_transport link_server Goes Awaited
  link_IsTransport Q = record {
    sends = λ cmd l (qs, v). link_sends Q cmd l qs v;
    flushes = λ l (qs, v). link_flushes l qs v;
    delivers = λ l (qs, v). link_delivers l qs v;
    awaits = λ id r l up a. link_awaits id r l a.packets a.some_bytes a.is_served a.answered;
    ignores = λ id l (qs, v). link_ignores id l qs v;
  }
