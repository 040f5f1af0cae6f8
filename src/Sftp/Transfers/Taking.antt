-- ===== src/Sftp/Transfers/Taking.antt =====
-- sftp.cc: SftpFile takes so many bytes more, as what its base class File writes to.
use Prim.Native.Nat.{◌<◌}
use hbackup.Prelude.{
  ℕ, ◌+◌, ◌≤◌, ◌≡◌, refl, sym, ap, ◌∙◌, [], ◌∷◌, ◌++◌, List, length, length-append, append_assoc,
  append-nil, drop, drop-append, Bytes, arith,
}
use hbackup.Outcome.{Result, ok, err, fatal}
use hbackup.File.Taker.{IsTaker}
use hbackup.Sftp.Wire.{word_size, Status, pack_string}
use hbackup.Sftp.Transport.{Transport, Server, IsTransport}
use hbackup.Sftp.Requests.{Client}
use hbackup.Sftp.Transfers.{
  Transfer, new_transfer, offset_size, write_request, writebytes, synchronize, transfer_device,
}
use hbackup.Sftp.Transfers.Ahead.{ids_from}
use hbackup.Sftp.Transfers.Received.{
  WriteRequest, AreReadable, packets_of, carried_out, carried_out-end, serve,
}
use hbackup.Sftp.Transfers.Received.Laws.{
  serve-packets_of, packets_of-snoc, carried_out-snoc, AreReadable-snoc,
}
use hbackup.Sftp.Transfers.Written.{IsAccepting, InOrder, IsWriting}
use hbackup.Sftp.Transfers.Settled.{sync_accepted}
use hbackup.Sftp.Transfers.Appended.{write_some_lem}
use hbackup.Sftp.Transfers.Stored.{IsAcceptingFile}

unfoldable pub value_of : Result Bytes → Bytes
value_of (ok b) = b
value_of (err e) = []
value_of fatal = []

module _ (T : Transport) (S : Server T) (L : IsTransport T S) where
  open S use {output}

  module _ (statuses : ℕ → Status) (A : IsAccepting statuses) (last : ℕ) (O : InOrder T S)
      (handle base : Bytes) (limit : ℕ) where
    -- What the server makes of what was sent behind `base`.
    unfoldable pub held : Transfer T → Bytes
    unfolding value_of serve
    held t = value_of (serve limit handle (drop (length base) (output t.fs.link)) [])

    -- `n` bytes more can be written.
    pub record CanTake (t : Transfer T) (n : ℕ) : Type 0 where
      pub first_id : ℕ
      pub in_flight : ℕ
      pub requests : List WriteRequest
      pub is_writing : IsWriting T S L statuses A last O t first_id in_flight
      pub room : first_id + in_flight + n ≤ last
      pub same_handle : t.handle ≡ handle
      pub sent : output t.fs.link ≡ base ++ packets_of handle requests
      pub offset : t.writeoffset ≡ length (carried_out requests [])
      pub small : t.writeoffset + n < offset_size
      pub few : length requests + n ≤ limit
      pub readable : AreReadable handle requests

    pub held_lem : (t : Transfer T) (n : ℕ) (a : CanTake t n) → held t ≡ carried_out a.requests []
    unfolding held value_of
    held_lem t n a =
        let served =
          serve-packets_of limit handle a.requests [] (omega (arith, a.few)) a.readable in
        ap (λ o. value_of (serve limit handle (drop (length base) o) [])) a.sent
        ∙ ap (λ o. value_of (serve limit handle o [])) (drop-append base _)
        ∙ ap value_of served

    held_same : (t t' : Transfer T) → output t'.fs.link ≡ output t.fs.link → held t' ≡ held t
    unfolding held
    held_same t t' e = ap (λ o. value_of (serve limit handle (drop (length base) o) [])) e

    pub settles_lem :
        (t : Transfer T) (n : ℕ)
        → CanTake t n
        → (t' : Transfer T) × (synchronize T t ≡ (ok tt, t')) × (held t' ≡ held t) × CanTake t' n
    settles_lem t n a =
        let (t1, q, v1, same) =
          sync_accepted T S L statuses A last O a.in_flight a.first_id t (omega (arith, a.room))
            a.is_writing in
        (
          t1,
          q,
          held_same t t1 same.sent,
          record {
            first_id = a.first_id + a.in_flight;
            in_flight = 0;
            requests = a.requests;
            is_writing = v1;
            room = omega (arith, a.room);
            same_handle = same.handle ∙ a.same_handle;
            sent = same.sent ∙ a.sent;
            offset = same.offset ∙ a.offset;
            small = omega (arith, same.offset, a.small);
            few = a.few;
            readable = a.readable;
          },
        )

    pub accepts_lem :
        (t : Transfer T) (c : ℕ) (s : Bytes) (n : ℕ)
        → length handle + length (c ∷ s) + 21 < word_size
        → CanTake t (length (c ∷ s) + n)
        → (t' : Transfer T) × (writebytes T (c ∷ s) t ≡ (ok tt, t'))
          × (held t' ≡ held t ++ c ∷ s)
          × CanTake t' n
    unfolding writebytes carried_out AreReadable
    accepts_lem t c s n short a =
        let (t1, g, m, q, few, v1, w) =
          write_some_lem T S L statuses A last O (c ∷ s) t a.first_id a.in_flight
            (omega (arith, a.room)) a.is_writing in
        let request : WriteRequest = record {
          id = t.fs.id;
          offset = t.writeoffset;
          bytes = c ∷ s;
        } in
        let packet : Bytes → Bytes =
          λ h. pack_string [] (write_request t.fs.id h t.writeoffset (c ∷ s)) in
        let all = a.requests ++ request ∷ [] in
        let file = carried_out a.requests [] in
        let grown : carried_out all [] ≡ file ++ c ∷ s =
          carried_out-snoc a.requests request [] ∙ carried_out-end request [] file a.offset in
        let b : CanTake t1 n = record {
          first_id = g;
          in_flight = m;
          requests = all;
          is_writing = v1;
          room = omega (arith, a.room, v1.next_id, w.next_id, a.is_writing.next_id);
          same_handle = w.handle ∙ a.same_handle;
          sent =
              w.sent
              ∙ ap (λ o. o ++ packet t.handle) a.sent
              ∙ append_assoc base (packets_of handle a.requests) (packet t.handle)
              ∙ ap (λ h. base ++ (packets_of handle a.requests ++ packet h)) a.same_handle
              ∙ ap (λ b. base ++ b) (sym (packets_of-snoc handle a.requests request));
          offset =
              w.offset
              ∙ omega (arith, a.small, a.offset, ap length grown, length-append file (c ∷ s));
          small = omega (arith, w.offset, a.small);
          few = omega (arith, a.few, length-append a.requests (request ∷ []));
          readable = AreReadable-snoc handle a.requests request a.readable (
            omega (arith, a.is_writing.next_id, a.is_writing.small_ids, a.room),
            omega (arith, a.small),
            short,
            tt,
          );
        } in
        (t1, q, held_lem t1 n b ∙ grown ∙ sym (ap (λ x. x ++ c ∷ s) (held_lem t _ a)), b)

    -- SftpFile as a device that takes so many bytes more.
    abbrev pub transfer_taker : length handle + 4117 < word_size → IsTaker (transfer_device T)
    transfer_taker short = record {
      Able = CanTake;
      written = held;
      accepts = λ t c s n fits a. accepts_lem t c s n (omega (arith, fits, short)) a;
      settles = settles_lem;
    }

    pub new_transfer-CanTake :
        (c : Client T) (n : ℕ)
        → IsAcceptingFile T S L statuses A last O c
        → output c.link ≡ base
        → c.id + n ≤ last
        → n < offset_size
        → n ≤ limit
        → CanTake (new_transfer T handle c) n
    unfolding new_transfer packets_of carried_out AreReadable ids_from
    new_transfer-CanTake c n v e room small few = record {
      first_id = c.id;
      in_flight = 0;
      requests = [];
      is_writing = record {
        up = v.up;
        queue = refl;
        next_id = omega arith;
        ordered = v.ordered;
        positive = v.positive;
        small_ids = v.small_ids;
        replies = v.replies;
      };
      room = omega (arith, room);
      same_handle = refl;
      sent = e ∙ sym (append-nil base);
      offset = refl;
      small = omega (arith, small);
      few = omega (arith, few);
      readable = tt;
    }

    pub held_new : (c : Client T) → output c.link ≡ base → held (new_transfer T handle c) ≡ []
    unfolding held value_of new_transfer serve
    held_new c e =
        ap (λ o. value_of (serve limit handle (drop (length base) o) []))
          (e ∙ sym (append-nil base))
        ∙ ap (λ o. value_of (serve limit handle o [])) (drop-append base [])
