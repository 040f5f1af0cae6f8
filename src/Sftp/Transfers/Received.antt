-- ===== src/Sftp/Transfers/Received.antt =====
-- sftp.cc: the WRITE requests of SftpFile at a server that reads and carries them out.
pub mod Laws
use Prim.Native.Nat.{◌<◌}
use hbackup.Prelude.{
  ℕ, zero, suc, ◌+◌, ◌%◌, ◌≤◌, ◌≡◌, ◌≢◌, refl, sym, ap, ◌∙◌, [], ◌∷◌, ◌++◌, List, Bool, true, ◌&&◌,
  if◌then◌else◌, length, length-append, append_assoc, append-nil, drop, Bytes, bytes_eq, same,
  same_self, arith, ◌==◌,
}
use hbackup.Outcome.{Result, ok, err, fatal, sftp_file_error, ◌>>=◌}
use hbackup.Sftp.Wire.{
  word_size, pack_uint8, pack_uint32, pack_uint64, pack_string, unpack_uint8, unpack_uint32,
  unpack_uint64, unpack_string,
}
use hbackup.Sftp.Wire.Laws.{
  Reads, unpack_uint8_lem, unpack_uint32_lem, unpack_uint64_lem, unpack_string_lem, pack_uint32-eq,
  pack_uint64-eq, pack_string-eq, length-pack_uint32,
}
use hbackup.Sftp.Requests.{path_request}
use hbackup.Sftp.Transfers.{offset_size, write_request}

-- A WRITE request.
pub record WriteRequest : Type 0 where
  pub id : ℕ
  pub offset : ℕ
  pub bytes : Bytes

-- Their packets.
unfoldable pub packets_of : Bytes → List WriteRequest → Bytes
packets_of handle [] = []
packets_of handle (w ∷ ws) =
    pack_string [] (write_request w.id handle w.offset w.bytes) ++ packets_of handle ws

-- The numbers and strings of the requests fit into their packets.
unfoldable pub AreReadable : Bytes → List WriteRequest → Type 0
AreReadable handle [] = Unit
AreReadable handle (w ∷ ws) =
    (w.id < word_size)
    × (w.offset < offset_size)
    × (length handle + length w.bytes + 21 < word_size)
    × AreReadable handle ws

-- The first `n` bytes of a file, which zeros fill up.
unfoldable pub padded : ℕ → Bytes → Bytes
padded zero file = []
padded (suc n) [] = 0 ∷ padded n []
padded (suc n) (c ∷ file) = c ∷ padded n file

-- A file with some bytes written at an offset.
unfoldable pub written_at : ℕ → Bytes → Bytes → Bytes
unfolding padded
written_at offset bytes file = padded offset file ++ (bytes ++ drop (offset + length bytes) file)

-- What the requests make of a file, one after another.
unfoldable pub carried_out : List WriteRequest → Bytes → Bytes
unfolding written_at
carried_out [] file = file
carried_out (w ∷ ws) file = carried_out ws (written_at w.offset w.bytes file)

padded-length : (file : Bytes) → padded (length file) file ≡ file
unfolding padded
padded-length [] = refl
padded-length (c ∷ file) = ap (λ s. c ∷ s) (padded-length file)

drop-nil : (n : ℕ) → drop {A = ℕ} n [] ≡ []
drop-nil zero = refl
drop-nil (suc n) = refl

drop-past : (file : Bytes) (n : ℕ) → drop (length file + n) file ≡ []
drop-past [] n = drop-nil (0 + n)
drop-past (c ∷ file) n =
    let e : suc (length file) + n ≡ suc (length file + n) = omega arith in rw e (drop-past file n)

-- A write at the end of the file.
pub carried_out-end :
    (w : WriteRequest) (ws : List WriteRequest) (file : Bytes)
    → w.offset ≡ length file
    → carried_out (w ∷ ws) file ≡ carried_out ws (file ++ w.bytes)
unfolding carried_out written_at
carried_out-end w ws file e =
    ap (λ o. carried_out ws (written_at o w.bytes file)) e
    ∙ rw (padded-length file, drop-past file (length w.bytes), append-nil w.bytes) refl

-- A server reads a WRITE request off what it received, and carries it out: it leaves what it has
-- not read, and the file. What is no such packet is a bad message.
unfoldable pub serve_one : Bytes → Bytes → Bytes → Result (Bytes × Bytes)
unfolding unpack_uint8 unpack_uint32 unpack_uint64 unpack_string written_at
serve_one handle s file = do
  (size, i1) ← unpack_uint32 s 0
  (type, i2) ← unpack_uint8 s i1
  (id, i3) ← unpack_uint32 s i2
  (name, i4) ← unpack_string s i3
  (offset, i5) ← unpack_uint64 s i4
  (bytes, i6) ← unpack_string s i5
  if type == 6 && same name handle && i6 == 4 + size
      then ok (drop i6 s, written_at offset bytes file)
      else err (sftp_file_error 0 5)

-- All that it received. A round reads a packet.
unfoldable pub serve : ℕ → Bytes → Bytes → Bytes → Result Bytes
unfolding serve_one
serve fuel handle [] file = ok file
serve zero handle (c ∷ s) file = fatal
serve (suc fuel) handle (c ∷ s) file = do
  (rest, written) ← serve_one handle (c ∷ s) file
  serve fuel handle rest written
