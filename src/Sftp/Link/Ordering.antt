-- ===== src/Sftp/Link/Ordering.antt =====
-- sftp.cc: a server whose packets come in the order of the requests, at the connection of
-- SftpFilesystem.
use Prim.Native.Nat.{◌<◌}
use hbackup.Prelude.{
  ℕ, ◌≡◌, refl, sym, ap, subst, ◌∙◌, [], ◌∷◌, ◌++◌, append_assoc, List, All, Bool, true, false,
  none, some, length-append, Bytes, nat_eq, arith, inl, inr,
}
use hbackup.Prelude.Dict
use hbackup.Outcome.{Result}
use hbackup.File.{Device}
use hbackup.File.Read.{IsReader, stream, IsReadable}
use hbackup.File.Taker.{IsWritable, IsFlushed-IsWritable}
use hbackup.File.Write.{IsWriter, flush_lem}
use hbackup.Sftp.Replies.{Mailbox, deliver, await, send, ready}
use hbackup.Sftp.Replies.Awaiting.{
  Packet, IsPacket, sent, deliver_all, claimed, IsOpen, await_own, await_pending,
}
use hbackup.Sftp.Link.{Link, link_transport, on_session, flush_output}
use hbackup.Sftp.Link.Answered.{Answered, Once, Others, split, deliver_keeps}
use hbackup.Sftp.Link.Packets.{All-apart, sent_injective, sent-append, deliver_all-append}
use hbackup.Sftp.Link.Polling.{IsSelect, send_lem}
use hbackup.Sftp.Link.Serving.{IsServed, IsAnswered, link_server, left_over}
use hbackup.Sftp.Transfers.Written.{InOrder}

-- The packets are those of later and later requests.
unfoldable pub Ascending : List Packet → Type 0
Ascending [] = Unit
Ascending (q ∷ qs) = All (λ p. q.id < p.id) qs × Ascending qs

-- No reply has come to a request behind one of those that the packets still to come are for.
unfoldable pub NoneBehind : Mailbox → List Packet → Type 0
NoneBehind m qs = All (λ q. (j : ℕ) → q.id < j → Dict.lookup j m.replies ≡ none) qs

Ascending-apart :
    (before left : List Packet)
    → Ascending (before ++ left)
    → Ascending left × All (λ q. All (λ p. p.id < q.id) before) left
unfolding Ascending
Ascending-apart [] left h = (h, none_before left)
  where
    none_before : (qs : List Packet) → All {0, 0} (λ q. Unit {0}) qs
    none_before [] = tt
    none_before (q ∷ qs) = (tt, none_before qs)
Ascending-apart (p ∷ before) left (later, h) =
    let (up, below) = Ascending-apart before left h in
    (up, both left (All-apart (λ q. p.id < q.id) before left later).1 below)
  where
    both :
        (qs : List Packet)
        → All (λ q. p.id < q.id) qs
        → All (λ q. All (λ x. x.id < q.id) before) qs
        → All (λ q. (p.id < q.id) × All (λ x. x.id < q.id) before) qs
    both [] a b = tt
    both (q ∷ qs) (a, more_a) (b, more_b) = ((a, b), both qs more_a more_b)

-- Delivering replies to earlier requests leaves later ones as they are.
deliver_all-later :
    (before : List Packet) (k j : ℕ) (m : Mailbox)
    → All (λ p. p.id < k) before
    → k < j
    → Dict.lookup j (deliver_all before m).replies ≡ Dict.lookup j m.replies
unfolding deliver_all
deliver_all-later [] k j m h later = refl
deliver_all-later (p ∷ before) k j m (small, h) later =
    deliver_all-later before k j (deliver p.id p.bytes m) h later
    ∙ deliver_keeps j p.id p.bytes m (λ e. omega (arith, e, small, later))

NoneBehind-deliver_all :
    (before left : List Packet) (m : Mailbox)
    → All (λ q. All (λ p. p.id < q.id) before) left
    → NoneBehind m left
    → NoneBehind (deliver_all before m) left
unfolding NoneBehind
NoneBehind-deliver_all before [] m below h = tt
NoneBehind-deliver_all before (q ∷ left) m (b, below) (n, h) = (
  λ j later. deliver_all-later before q.id j m b later ∙ n j later,
  NoneBehind-deliver_all before left m below h,
)

NoneBehind-claimed :
    (id : ℕ) (qs : List Packet) (m : Mailbox) → NoneBehind m qs → NoneBehind (claimed id m) qs
unfolding NoneBehind
NoneBehind-claimed id [] m h = tt
NoneBehind-claimed id (q ∷ qs) m (n, h) = (
  λ j later. ground (arith, n j later, Dict.lookup-erase j id m.replies),
  NoneBehind-claimed id qs m h,
)

-- Where the reply to a request is still to come, none has come to a later one.
none_ready :
    (f j : ℕ) (r : Bytes) (qs : List Packet) (m : Mailbox)
    → NoneBehind m qs
    → Once f r qs
    → f < j
    → Dict.lookup j m.replies ≡ none
unfolding NoneBehind
none_ready f j r [] m h once later = absurd once
none_ready f j r (q ∷ qs) m (n, h) (inl (e, _, _)) later = n j (omega (arith, e, later))
none_ready f j r (q ∷ qs) m (n, h) (inr (_, once)) later = none_ready f j r qs m h once later

ready-some : (f : ℕ) (r : Bytes) (m : Mailbox) → Dict.lookup f m.replies ≡ some r → ready f m ≡ true
unfolding ready
ready-some f r m e = rw (ready, e) refl

ready-none : (j : ℕ) (m : Mailbox) → Dict.lookup j m.replies ≡ none → ready j m ≡ false
unfolding ready
ready-none j m e = rw (ready, e) refl

-- What has come and what is still to come, in order.
pub record IsOrdered (m : Mailbox) (qs : List Packet) : Type 0 where
  pub ascending : Ascending qs
  pub none_behind : NoneBehind m qs

-- Some packets are received.
IsOrdered-claimed :
    (id : ℕ) (qs : List Packet) (m : Mailbox) → IsOrdered m qs → IsOrdered (claimed id m) qs
IsOrdered-claimed id qs m v = record {
  ascending = v.ascending;
  none_behind = NoneBehind-claimed id qs m v.none_behind;
}

IsOrdered-deliver_all :
    (before left : List Packet) (m : Mailbox)
    → IsOrdered m (before ++ left)
    → IsOrdered (deliver_all before m) left
unfolding NoneBehind
IsOrdered-deliver_all before left m v =
    let (up, below) = Ascending-apart before left v.ascending in
    record {
      ascending = up;
      none_behind =
          NoneBehind-deliver_all before left m below
            (All-apart (λ q. (j : ℕ) → q.id < j → Dict.lookup j m.replies ≡ none) before left
              v.none_behind).1;
    }

module _ (V : Device) (select : V.State → Bool × V.State) (server : Result (V.State × V.State))
    (fuel : ℕ) (R : IsReader V) (W : IsWriter V) (Q : IsSelect V R select) where
  -- The connection to a server whose packets come in order.
  pub record IsOrderly (l : Link V select server fuel) : Type 0 where
    pub packets : List Packet
    pub is_served : IsServed V select server fuel R W l packets
    pub is_ordered : IsOrdered l.session.mailbox packets

  pub orderly_first :
      (f j : ℕ) (r : Bytes) (l : Link V select server fuel)
      → IsOrderly l
      → IsAnswered V select server fuel R W l f r
      → f < j
      → ready j l.session.mailbox ≡ true
      → ready f l.session.mailbox ≡ true
  orderly_first f j r l v a later h = by_answer a.answered
    where
      by_answer : Answered f r l.session.mailbox a.packets → ready f l.session.mailbox ≡ true
      by_answer (inl (e, _)) = ready-some f r l.session.mailbox e
      by_answer (inr (open_id, once)) =
          let same : a.packets ≡ v.packets =
            sent_injective a.packets v.packets a.is_served.packets v.is_served.packets
              (sym a.is_served.coming ∙ v.is_served.coming) in
          let none_yet : Dict.lookup j l.session.mailbox.replies ≡ none =
            none_ready f j r v.packets l.session.mailbox v.is_ordered.none_behind
              (subst (Once f r) same once) later in
          absurd (cc (ready-none j l.session.mailbox none_yet, h))

  pub IsOrderly-send :
      (cmd : Bytes) (l : Link V select server fuel)
      → IsOrderly l
      → IsOrderly (on_session V select server fuel (send V select fuel cmd) l).1
  unfolding on_session
  IsOrderly-send cmd l v =
      let u = v.is_served in
      let (s1, s', q, adv, out, w, i, m) =
        send_lem V R select Q W fuel cmd v.packets l.session u.few u.packets u.is_readable
          u.is_writable u.coming in
      let l' : Link V select server fuel = record l { session = s' } in
      let served =
        left_over V select server fuel R W l l' v.packets adv.before adv.left u adv.whole
          (ap (stream V R) i ∙ adv.coming) (subst (IsReadable V R) (sym i) adv.is_readable) w in
      subst IsOrderly (sym (ap (λ p. record l { session = p.1 }) q)) (record {
        packets = adv.left;
        is_served = served;
        is_ordered =
            subst (λ b. IsOrdered b adv.left) (sym (m ∙ adv.mailbox))
              (IsOrdered-deliver_all adv.before adv.left l.session.mailbox
                (subst (IsOrdered l.session.mailbox) adv.whole v.is_ordered));
      })

  pub IsOrderly-flush :
      (l : Link V select server fuel)
      → IsOrderly l
      → IsOrderly (on_session V select server fuel (flush_output V select server fuel) l).1
  unfolding on_session flush_output deliver_all
  IsOrderly-flush l v =
      let u = v.is_served in
      let (f, q, all, flushed) = flush_lem V W l.session.output u.is_writable in
      let l' : Link V select server fuel = record l { session = record l.session { output = f } } in
      subst IsOrderly (sym (ap (λ p. record l { session = record l.session { output = p.1 } }) q))
        (record {
          packets = v.packets;
          is_served =
              left_over V select server fuel R W l l' v.packets [] v.packets u refl u.coming
                u.is_readable (IsFlushed-IsWritable V f flushed);
          is_ordered = v.is_ordered;
        })

  IsOrderly-coming :
      (before after : List Packet) (p : Packet) (l : Link V select server fuel)
      → IsServed V select server fuel R W l (before ++ p ∷ after)
      → IsOpen p.id l.session.mailbox
      → Others p.id before
      → IsOrdered l.session.mailbox (before ++ p ∷ after)
      → IsOrderly (on_session V select server fuel (await V select fuel p.id) l).1
  unfolding on_session deliver_all sent
  IsOrderly-coming before after p l v open_id others ordered =
      let (vs, (vp, _)) = All-apart IsPacket before (p ∷ after) v.packets in
      let (s', q, got) =
        await_own V select R fuel before p (sent after) l.session
          (omega (arith, v.few, length-append before (p ∷ after))) vs vp others open_id
          v.is_readable (v.coming ∙ sent-append before (p ∷ after)) in
      let l' : Link V select server fuel = record l { session = s' } in
      let whole : before ++ p ∷ after ≡ (before ++ p ∷ []) ++ after =
        sym (append_assoc before (p ∷ []) after) in
      let delivered =
        got.mailbox
        ∙ ap (claimed p.id) (sym (deliver_all-append before (p ∷ []) l.session.mailbox)) in
      subst IsOrderly (sym (ap (λ x. record l { session = x.1 }) q)) (record {
        packets = after;
        is_served =
            left_over V select server fuel R W l l' (before ++ p ∷ after) (before ++ p ∷ []) after v
              whole got.left got.readable
              (subst (IsWritable V) (sym got.same_output) v.is_writable);
        is_ordered =
            subst (λ m. IsOrdered m after) (sym delivered)
              (IsOrdered-claimed p.id after _ (
                IsOrdered-deliver_all (before ++ p ∷ []) after l.session.mailbox
                  (subst (IsOrdered l.session.mailbox) whole ordered)));
      })

  pub IsOrderly-await :
      (f : ℕ) (r : Bytes) (l : Link V select server fuel)
      → IsAnswered V select server fuel R W l f r
      → IsOrderly l
      → IsOrderly (on_session V select server fuel (await V select fuel f) l).1
  unfolding on_session deliver_all sent
  IsOrderly-await f r l a v = by_answer a.answered
    where
      Awaited : Type 0
      Awaited = IsOrderly (on_session V select server fuel (await V select fuel f) l).1

      by_answer : Answered f r l.session.mailbox a.packets → Awaited
      by_answer (inl (h, _)) =
          let l' : Link V select server fuel = record l {
            session = record l.session { mailbox = claimed f l.session.mailbox };
          } in
          let u = v.is_served in
          subst IsOrderly
            (sym (
              ap (λ p. record l { session = p.1 })
                (await_pending V select fuel f r l.session a.some_bytes h)))
            (record {
              packets = v.packets;
              is_served =
                  left_over V select server fuel R W l l' v.packets [] v.packets u refl u.coming
                    u.is_readable u.is_writable;
              is_ordered = IsOrdered-claimed f v.packets l.session.mailbox v.is_ordered;
            })
      by_answer (inr (open_id, once)) =
          let same : a.packets ≡ v.packets =
            sent_injective a.packets v.packets a.is_served.packets v.is_served.packets
              (sym a.is_served.coming ∙ v.is_served.coming) in
          let s = split f r v.packets (subst (Once f r) same once) in
          subst (λ k. IsOrderly (on_session V select server fuel (await V select fuel k) l).1)
            s.has_id
            (IsOrderly-coming s.before s.after s.own l
              (subst (IsServed V select server fuel R W l) s.whole v.is_served)
              (subst (λ k. IsOpen k l.session.mailbox) (sym s.has_id) open_id)
              (subst (λ k. Others k s.before) (sym s.has_id) s.others)
              (subst (IsOrdered l.session.mailbox) s.whole v.is_ordered))

  -- The program's own connection has replies in order where the server sends them so.
  unfoldable pub link_InOrder :
      InOrder (link_transport V select server fuel) (link_server V select server fuel R W)
  unfolding link_transport link_server
  link_InOrder = record {
    Ordered = IsOrderly;
    comes_first = λ f j r l v a later h. orderly_first f j r l v a later h;
    after_send = λ cmd l u v. IsOrderly-send cmd l v;
    after_flush = λ l u v. IsOrderly-flush l v;
    after_await = λ f r l u a v. IsOrderly-await f r l a v;
  }
