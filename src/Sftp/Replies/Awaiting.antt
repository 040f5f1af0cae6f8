-- ===== src/Sftp/Replies/Awaiting.antt =====
-- await() of sftp.cc: a request gets its own reply, whichever order the replies come in.
use Prim.Native.Nat.{◌<◌}
use hbackup.Prelude.{
  ℕ, zero, suc, ◌≡◌, ◌≢◌, refl, sym, ap, subst, ◌∙◌, [], ◌∷◌, ◌++◌, append_assoc, List, All, Bool,
  false, none, some, length, get_or, Bytes, nat_eq, arith,
}
use hbackup.Prelude.Dict
use hbackup.Outcome.{ok}
use hbackup.File.{Device}
use hbackup.File.Read.{IsReader, stream, IsReadable}
use hbackup.Sftp.Wire.{pack_string, unpack_uint32, first_of}
use hbackup.Sftp.Replies.{Mailbox, is_ignored, deliver, Session, poll, take_reply, await}
use hbackup.Sftp.Replies.Framing.{recv-pack_string}

pub record Packet : Type 0 where
  pub id : ℕ
  pub bytes : Bytes

-- A reply that poll() accepts: its ID stands behind the type byte.
pub record IsPacket (p : Packet) : Type 0 where
  pub some_bytes : 0 < length p.bytes
  pub small : length p.bytes < 2147483648
  pub has_id : unpack_uint32 p.bytes 1 ≡ ok (p.id, 5)

-- The packets as the server sends them.
unfoldable pub sent : List Packet → Bytes
sent [] = []
sent (p ∷ ps) = pack_string [] p.bytes ++ sent ps

unfoldable pub deliver_all : List Packet → Mailbox → Mailbox
deliver_all [] m = m
deliver_all (p ∷ ps) m = deliver_all ps (deliver p.id p.bytes m)

-- A mailbox without the reply to one request.
abbrev pub claimed : ℕ → Mailbox → Mailbox
claimed id m = record m { replies = Dict.erase id m.replies }

-- No reply to the request is there, and it is not ignored.
pub record IsOpen (id : ℕ) (m : Mailbox) : Type 0 where
  pub no_reply : Dict.lookup id m.replies ≡ none
  pub wanted : is_ignored id m ≡ false

pub deliver-IsOpen :
    (id k : ℕ) (reply : Bytes) (m : Mailbox) → k ≢ id → IsOpen id m → IsOpen id (deliver k reply m)
unfolding deliver is_ignored
deliver-IsOpen id k reply m other v = record {
  no_reply = ground (arith, v.no_reply, Dict.lookup-insert id k reply m.replies);
  wanted = ground (arith, v.wanted, Dict.lookup-erase id k m.ignored);
}

pub deliver-own :
    (id : ℕ) (reply : Bytes) (m : Mailbox)
    → IsOpen id m
    → Dict.lookup id (deliver id reply m).replies ≡ some reply
unfolding deliver
deliver-own id reply m v = ground (arith, v.wanted, Dict.lookup-insert id id reply m.replies)

first_of-get_or : (s : Bytes) → 0 < length s → first_of s ≡ ok (get_or s 0 0)
unfolding first_of
first_of-get_or [] h = absurd (omega arith)
first_of-get_or (c ∷ s) h = refl

module _ (V : Device) (select : V.State → Bool × V.State) where
  pub await_pending :
      (fuel id : ℕ) (reply : Bytes) (s : Session V select)
      → 0 < length reply
      → Dict.lookup id s.mailbox.replies ≡ some reply
      → await V select fuel id s
        ≡ (ok (get_or reply 0 0, reply), record s { mailbox = claimed id s.mailbox })
  unfolding await take_reply
  await_pending zero id reply s pos h = rw (h, await, first_of-get_or reply pos) refl
  await_pending (suc fuel) id reply s pos h = rw (h, await, first_of-get_or reply pos) refl

  module _ (R : IsReader V) where
    -- A session that has read up to `t` and delivered what it read.
    pub record Polled (s : Session V select) (t : Bytes) (m : Mailbox) (s' : Session V select)
        : Type 0 where
      pub left : stream V R s'.input ≡ t
      pub readable : IsReadable V R s'.input
      pub same_output : s'.output ≡ s.output
      pub mailbox : s'.mailbox ≡ m

    pub poll_lem :
        (p : Packet) (t : Bytes) (s : Session V select)
        → IsPacket p
        → IsReadable V R s.input
        → stream V R s.input ≡ pack_string [] p.bytes ++ t
        → (s' : Session V select) × (poll V select s ≡ (ok tt, s'))
          × Polled s t (deliver p.id p.bytes s.mailbox) s'
    unfolding poll
    poll_lem p t s v w e =
        let (s', q, got) = recv-pack_string V R select p.bytes t s v.some_bytes v.small w e in
        (
          record s' { mailbox = deliver p.id p.bytes s'.mailbox },
          rw (q, v.has_id) refl,
          record {
            left = got.left;
            readable = got.readable;
            same_output = got.same_output;
            mailbox = ap (deliver p.id p.bytes) got.same_mailbox;
          },
        )

    await_first :
        (fuel : ℕ) (p : Packet) (t : Bytes) (s : Session V select)
        → IsPacket p
        → IsOpen p.id s.mailbox
        → IsReadable V R s.input
        → stream V R s.input ≡ pack_string [] p.bytes ++ t
        → (s' : Session V select) × (await V select (suc fuel) p.id s
            ≡ (ok (get_or p.bytes 0 0, p.bytes), s'))
          × Polled s t (claimed p.id (deliver p.id p.bytes s.mailbox)) s'
    unfolding await
    await_first fuel p t s v open_id w e =
        let (s1, q, got) = poll_lem p t s v w e in
        let there = await_pending fuel p.id p.bytes s1 v.some_bytes (
          ap (λ m. Dict.lookup p.id m.replies) got.mailbox
          ∙ deliver-own p.id p.bytes s.mailbox open_id) in
        (
          record s1 { mailbox = claimed p.id s1.mailbox },
          rw (open_id.no_reply, await, q) there,
          record {
            left = got.left;
            readable = got.readable;
            same_output = got.same_output;
            mailbox = ap (claimed p.id) got.mailbox;
          },
        )

    -- With more fuel than there are other replies before its own, await() on an open request
    -- returns the reply to that request, whatever the order of arrival. The replies before it are
    -- delivered, for their own requests or to be ignored, and nothing behind it is read.
    pub await_own :
        (fuel : ℕ) (qs : List Packet) (p : Packet) (t : Bytes) (s : Session V select)
        → length qs < fuel
        → All IsPacket qs
        → IsPacket p
        → All (λ q. q.id ≢ p.id) qs
        → IsOpen p.id s.mailbox
        → IsReadable V R s.input
        → stream V R s.input ≡ sent qs ++ (pack_string [] p.bytes ++ t)
        → (s' : Session V select) × (await V select fuel p.id s
            ≡ (ok (get_or p.bytes 0 0, p.bytes), s'))
          × Polled s t (claimed p.id (deliver p.id p.bytes (deliver_all qs s.mailbox))) s'
    unfolding await sent deliver_all
    await_own zero qs p t s few vs v others open_id w e = absurd (omega arith)
    await_own (suc fuel) [] p t s few vs v others open_id w e = await_first fuel p t s v open_id w e
    await_own (suc fuel) (q ∷ qs) p t s few (vq, vs) v (other, others) open_id w e =
        let (s1, polled, got) =
          poll_lem q (sent qs ++ (pack_string [] p.bytes ++ t)) s vq w
            (e ∙ append_assoc (pack_string [] q.bytes) (sent qs) (pack_string [] p.bytes ++ t)) in
        let still : IsOpen p.id s1.mailbox =
          subst (IsOpen p.id) (sym got.mailbox)
            (deliver-IsOpen p.id q.id q.bytes s.mailbox other open_id) in
        let (s2, own, rest) =
          await_own fuel qs p t s1 (omega arith) vs v others still got.readable got.left in
        (
          s2,
          rw (open_id.no_reply, await, polled) own,
          record {
            left = rest.left;
            readable = rest.readable;
            same_output = rest.same_output ∙ got.same_output;
            mailbox =
                rest.mailbox
                ∙ ap (λ m. claimed p.id (deliver p.id p.bytes (deliver_all qs m))) got.mailbox;
          },
        )
