-- ===== src/Sftp/Transfers/Received/Laws.antt =====
-- sftp.cc: a WRITE request of SftpFile is what its server reads.
use Prim.Native.Nat.{◌<◌}
use hbackup.Prelude.{
  ℕ, zero, suc, ◌+◌, ◌%◌, ◌≤◌, ◌≡◌, ◌≢◌, refl, ap, ◌∙◌, [], ◌∷◌, ◌++◌, List, true, length,
  length-append, append_assoc, append-nil, sym, Bytes, bytes_eq, same_self, arith, ◌==◌,
}
use hbackup.Outcome.{ok}
use hbackup.Sftp.Wire.{word_size, pack_uint8, pack_uint32, pack_uint64, pack_string}
use hbackup.Sftp.Wire.Laws.{
  unpack_uint8_lem, unpack_uint32_lem, unpack_uint64_lem, unpack_string_lem, pack_uint32-eq,
  pack_uint64-eq, pack_string-eq, length-pack_uint32,
}
use hbackup.Sftp.Requests.{path_request}
use hbackup.Sftp.Transfers.{offset_size, write_request}
use hbackup.Sftp.Transfers.Received.{
  WriteRequest, packets_of, AreReadable, written_at, carried_out, serve_one, serve,
}

-- A round.
serve-more :
    (fuel : ℕ) (handle s rest file written : Bytes)
    → s ≢ []
    → serve_one handle s file ≡ ok (rest, written)
    → serve (suc fuel) handle s file ≡ serve fuel handle rest written
unfolding serve
serve-more fuel handle [] rest file written some_left e = absurd (some_left refl)
serve-more fuel handle (c ∷ s) rest file written some_left e = rw e refl

-- The layout of a request.
abbrev fields : ℕ → Bytes → ℕ → Bytes → Bytes
fields id handle offset bytes =
    6 ∷ pack_uint32 [] id
    ++ (pack_string [] handle ++ (pack_uint64 [] offset ++ pack_string [] bytes))

write_request-eq :
    (id : ℕ) (handle : Bytes) (offset : ℕ) (bytes : Bytes)
    → write_request id handle offset bytes ≡ fields id handle offset bytes
unfolding write_request path_request pack_uint8
write_request-eq id handle offset bytes =
    let start = pack_uint32 (6 ∷ []) id in
    pack_string-eq (pack_uint64 (pack_string start handle) offset) bytes
    ∙ ap (λ y. y ++ pack_string [] bytes)
        (pack_uint64-eq (pack_string start handle) offset
          ∙ ap (λ y. y ++ pack_uint64 [] offset)
              (pack_string-eq start handle
                ∙ ap (λ y. y ++ pack_string [] handle) (pack_uint32-eq (6 ∷ []) id)))
    ∙ simp append_assoc

length-pack_string : (s : Bytes) → length (pack_string [] s) ≡ 4 + length s
unfolding pack_string
length-pack_string s =
    let n = length s % word_size in
    omega (arith, length-append (pack_uint32 [] n) s, length-pack_uint32 n)

length-write_request :
    (id : ℕ) (handle : Bytes) (offset : ℕ) (bytes : Bytes)
    → length (write_request id handle offset bytes) ≡ 21 + length handle + length bytes
length-write_request id handle offset bytes =
    let eight : length (pack_uint64 [] offset) ≡ 8 =
      unfold pack_uint64 pack_uint32 pack_uint8 in refl in
    let tail = pack_uint64 [] offset ++ pack_string [] bytes in
    let cut = ap length (write_request-eq id handle offset bytes) in
    omega (
      arith,
      cut,
      length-append (pack_uint32 [] id) (pack_string [] handle ++ tail),
      length-append (pack_string [] handle) tail,
      length-append (pack_uint64 [] offset) (pack_string [] bytes),
      length-pack_string handle,
      length-pack_string bytes,
      length-pack_uint32 id,
      eight,
    )

-- A packet, and what is behind it.
packet-eq :
    (id : ℕ) (handle : Bytes) (offset : ℕ) (bytes rest : Bytes)
    → pack_string [] (write_request id handle offset bytes) ++ rest
      ≡ pack_uint32 [] (length (write_request id handle offset bytes) % word_size)
        ++ (6
            ∷ (pack_uint32 [] id
                ++ (pack_string [] handle
                    ++ (pack_uint64 [] offset ++ (pack_string [] bytes ++ rest)))))
packet-eq id handle offset bytes rest =
    let w = write_request id handle offset bytes in
    let opened : pack_string [] w ≡ pack_uint32 [] (length w % word_size) ++ w =
      unfold pack_string in refl in
    ap (λ p. p ++ rest) opened
    ∙ append_assoc (pack_uint32 [] (length w % word_size)) w rest
    ∙ ap (λ b. pack_uint32 [] (length w % word_size) ++ (b ++ rest))
        (write_request-eq id handle offset bytes)
    ∙ ap (λ b. pack_uint32 [] (length w % word_size) ++ b) (simp append_assoc)

-- The server takes the request as it was written.
serve_one-write :
    (w : WriteRequest) (handle rest file : Bytes)
    → w.id < word_size
    → w.offset < offset_size
    → length handle + length w.bytes + 21 < word_size
    → serve_one handle (pack_string [] (write_request w.id handle w.offset w.bytes) ++ rest) file
      ≡ ok (rest, written_at w.offset w.bytes file)
unfolding serve_one
serve_one-write w handle rest file small offset short =
    let size = length (write_request w.id handle w.offset w.bytes) in
    let known = length-write_request w.id handle w.offset w.bytes in
    let fits : size % word_size ≡ size = omega (arith, known, short) in
    let s = pack_string [] (write_request w.id handle w.offset w.bytes) ++ rest in
    let at = packet-eq w.id handle w.offset w.bytes rest in
    let r1 = unpack_uint32_lem s 0 (size % word_size) _ (omega (arith, fits, known, short)) at in
    let r2 = unpack_uint8_lem s 4 6 _ r1.left in
    let r3 = unpack_uint32_lem s (4 + 1) w.id _ small r2.left in
    let r4 = unpack_string_lem s (4 + 1 + 4) handle _ (omega (arith, short)) r3.left in
    let r5 = unpack_uint64_lem s (4 + 1 + 4 + 4 + length handle) w.offset _ offset r4.left in
    let end = 4 + 1 + 4 + 4 + length handle + 8 in
    let r6 = unpack_string_lem s end w.bytes rest (omega (arith, short)) r5.left in
    let total : end + 4 + length w.bytes ≡ 4 + size % word_size = omega (arith, fits, known) in
    let whole : (end + 4 + length w.bytes == 4 + size % word_size) ≡ true = ground (arith, total) in
    rw
      (
        r1.result,
        r2.result,
        r3.result,
        r4.result,
        r5.result,
        r6.result,
        same_self handle,
        whole,
        r6.left,
      )
      refl

pack_string-some : (s rest : Bytes) → pack_string [] s ++ rest ≢ []
unfolding pack_string pack_uint32 pack_uint8
pack_string-some s rest e = cc e

-- All packets are taken, each by a round.
pub serve-packets_of :
    (fuel : ℕ) (handle : Bytes) (ws : List WriteRequest) (file : Bytes)
    → length ws ≤ fuel
    → AreReadable handle ws
    → serve fuel handle (packets_of handle ws) file ≡ ok (carried_out ws file)
unfolding serve packets_of carried_out AreReadable
serve-packets_of fuel handle [] file few v = refl
serve-packets_of zero handle (w ∷ ws) file few v = absurd (omega (arith, few))
serve-packets_of (suc fuel) handle (w ∷ ws) file few (id, offset, short, v) =
    let one = serve_one-write w handle (packets_of handle ws) file id offset short in
    let again =
      serve-packets_of fuel handle ws (written_at w.offset w.bytes file) (omega (arith, few)) v in
    serve-more fuel handle _ _ file _ (pack_string-some _ (packets_of handle ws)) one ∙ again

-- A request more.
pub packets_of-snoc :
    (handle : Bytes) (ws : List WriteRequest) (w : WriteRequest)
    → packets_of handle (ws ++ w ∷ [])
      ≡ packets_of handle ws ++ pack_string [] (write_request w.id handle w.offset w.bytes)
unfolding packets_of
packets_of-snoc handle [] w = append-nil _
packets_of-snoc handle (v ∷ ws) w =
    let first = pack_string [] (write_request v.id handle v.offset v.bytes) in
    ap (λ b. first ++ b) (packets_of-snoc handle ws w)
    ∙ sym (append_assoc first (packets_of handle ws) _)

pub carried_out-snoc :
    (ws : List WriteRequest) (w : WriteRequest) (file : Bytes)
    → carried_out (ws ++ w ∷ []) file ≡ carried_out (w ∷ []) (carried_out ws file)
unfolding carried_out
carried_out-snoc [] w file = refl
carried_out-snoc (v ∷ ws) w file = carried_out-snoc ws w (written_at v.offset v.bytes file)

pub AreReadable-snoc :
    (handle : Bytes) (ws : List WriteRequest) (w : WriteRequest)
    → AreReadable handle ws
    → AreReadable handle (w ∷ [])
    → AreReadable handle (ws ++ w ∷ [])
unfolding AreReadable
AreReadable-snoc handle [] w v one = one
AreReadable-snoc handle (x ∷ ws) w (id, offset, short, v) one =
    (id, offset, short, AreReadable-snoc handle ws w v one)
