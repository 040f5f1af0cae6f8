-- ===== src/Sftp/Link/Packets.antt =====
-- The packets that a server of sftp.cc sends, as one stream.
use Prim.Native.Nat.{◌<◌}
use hbackup.Prelude.{
  ℕ, ◌≡◌, ◌≢◌, refl, sym, ap, ◌∙◌, [], ◌∷◌, ◌++◌, append_assoc, append-nil, List, All, length,
  length-append, Bytes, arith,
}
use hbackup.Outcome.{ok}
use hbackup.Sftp.Wire.{pack_uint32, pack_string, unpack_uint32}
use hbackup.Sftp.Wire.Laws.{length-pack_uint32, unpack_uint32_lem}
use hbackup.Sftp.Replies.{Mailbox, deliver}
use hbackup.Sftp.Replies.Framing.{append_cancel, pack_string_split}
use hbackup.Sftp.Replies.Awaiting.{Packet, IsPacket, sent, deliver_all}

pub All-apart {ℓ κ} :
    {A : Type ℓ} (P : A → Type κ) (ys zs : List A) → All P (ys ++ zs) → All P ys × All P zs
All-apart P [] zs h = (tt, h)
All-apart P (y ∷ ys) zs (p, h) = let (hy, hz) = All-apart P ys zs h in ((p, hy), hz)

pub sent-append : (ps qs : List Packet) → sent (ps ++ qs) ≡ sent ps ++ sent qs
unfolding sent
sent-append [] qs = refl
sent-append (p ∷ ps) qs =
    ap (λ t. pack_string [] p.bytes ++ t) (sent-append ps qs)
    ∙ sym (append_assoc (pack_string [] p.bytes) (sent ps) (sent qs))

pub deliver_all-append :
    (ps qs : List Packet) (m : Mailbox)
    → deliver_all (ps ++ qs) m ≡ deliver_all qs (deliver_all ps m)
unfolding deliver_all
deliver_all-append [] qs m = refl
deliver_all-append (p ∷ ps) qs m = deliver_all-append ps qs (deliver p.id p.bytes m)

word_unique :
    (m n : ℕ) → m < 2147483648 → n < 2147483648 → pack_uint32 [] m ≡ pack_uint32 [] n → m ≡ n
word_unique m n hm hn e =
    let f : unpack_uint32 (pack_uint32 [] m) 0 ≡ ok (m, 4) =
      (unpack_uint32_lem _ 0 m [] (omega arith) (sym (append-nil _))).result in
    let g : unpack_uint32 (pack_uint32 [] n) 0 ≡ ok (n, 4) =
      (unpack_uint32_lem _ 0 n [] (omega arith) (sym (append-nil _))).result in
    cc (f, g, ap (λ w. unpack_uint32 w 0) e)

packet_unique :
    (p q : Packet) (s t : Bytes)
    → IsPacket p
    → IsPacket q
    → pack_string [] p.bytes ++ s ≡ pack_string [] q.bytes ++ t
    → (p ≡ q) × (s ≡ t)
packet_unique p q s t v w e =
    let (same_length, rest) =
      append_cancel {xs = pack_uint32 [] (length p.bytes)} {zs = pack_uint32 [] (length q.bytes)}
        (length-pack_uint32 _ ∙ sym (length-pack_uint32 _))
        (sym (pack_string_split p.bytes s v.small) ∙ e ∙ pack_string_split q.bytes t w.small) in
    let (same_bytes, same_rest) =
      append_cancel {xs = p.bytes} (word_unique _ _ v.small w.small same_length) rest in
    let same_id : p.id ≡ q.id = cc (v.has_id, w.has_id, ap (λ b. unpack_uint32 b 1) same_bytes) in
    (λ i. record { id = same_id i; bytes = same_bytes i }, same_rest)

some_sent : (q : Packet) (t : Bytes) → IsPacket q → [] ≢ pack_string [] q.bytes ++ t
unfolding pack_string
some_sent q t w e = omega (
  arith,
  w.some_bytes,
  ap length (e ∙ pack_string_split q.bytes t w.small),
  length-append (pack_uint32 [] (length q.bytes)) (q.bytes ++ t),
  length-pack_uint32 (length q.bytes),
)

-- A stream is that of one list of packets only.
pub sent_injective :
    (ps qs : List Packet) → All IsPacket ps → All IsPacket qs → sent ps ≡ sent qs → ps ≡ qs
unfolding sent
sent_injective [] [] vs ws e = refl
sent_injective [] (q ∷ qs) vs (w, ws) e = absurd (some_sent q (sent qs) w e)
sent_injective (p ∷ ps) [] (v, vs) ws e = absurd (some_sent p (sent ps) v (sym e))
sent_injective (p ∷ ps) (q ∷ qs) (v, vs) (w, ws) e =
    let (same, rest) = packet_unique p q (sent ps) (sent qs) v w e in
    λ i. same i ∷ sent_injective ps qs vs ws rest i
