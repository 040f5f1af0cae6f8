-- ===== src/Sftp/Transfers/Stored.antt =====
-- sftp.cc: what the writes of SftpFile leave at a server that carries them out.
use Prim.Native.Nat.{◌<◌}
use hbackup.Prelude.{ℕ, ◌+◌, ◌≤◌, ◌≡◌, [], ◌∷◌, ◌++◌, List, length, Bytes}
use hbackup.Outcome.{Result, ok, and_then}
use hbackup.Sftp.Wire.{word_size, Status}
use hbackup.Sftp.Transport.{Transport, Server, IsTransport}
use hbackup.Sftp.Requests.{Client}
use hbackup.Sftp.Check.{status_reply}
use hbackup.Sftp.Transfers.{Transfer, writebytes, synchronize}
use hbackup.Sftp.Transfers.Received.{WriteRequest, AreReadable, packets_of, carried_out}
use hbackup.Sftp.Transfers.Written.{IsAccepting, InOrder, IsWriting}

-- The pieces, one behind the other.
unfoldable pub joined : List Bytes → Bytes
joined [] = []
joined (piece ∷ pieces) = piece ++ joined pieces

-- The pieces fit into a packet each.
unfoldable pub AreShort : Bytes → List Bytes → Type 0
AreShort handle [] = Unit
AreShort handle (piece ∷ pieces) =
    (length handle + length piece + 21 < word_size) × AreShort handle pieces

module _ (T : Transport) where
  -- writebytes() for each of some pieces, and then synchronize().
  unfoldable pub write_pieces : List Bytes → Transfer T → Result (Unit {0}) × Transfer T
  write_pieces [] t = synchronize T t
  write_pieces (piece ∷ pieces) t = and_then (writebytes T piece t) (λ _ t1. write_pieces pieces t1)

module _ (T : Transport) (S : Server T) (L : IsTransport T S) where
  open S use {Up, Answers, output}

  module _ (statuses : ℕ → Status) (A : IsAccepting statuses) (last : ℕ) (O : InOrder T S) where
    abbrev Writing : Transfer T → ℕ → ℕ → Type 0
    Writing = IsWriting T S L statuses A last O

    -- What the writes of some pieces leave, at the end of a file.
    record Sent (t : Transfer T) (file : Bytes) (pieces : List Bytes) : Type 0 where
      requests : List WriteRequest
      after : Transfer T
      done : write_pieces T pieces t ≡ (ok tt, after)
      settled : after.writequeue ≡ []
      sent : output after.fs.link ≡ output t.fs.link ++ packets_of t.handle requests
      stored : carried_out requests file ≡ file ++ joined pieces
      few : length requests ≤ length pieces
      readable : AreReadable t.handle requests

    -- A server that accepts the writes of a file that is opened now, with IDs that do not wrap
    -- around.
    pub record IsAcceptingFile (c : Client T) : Type 0 where
      pub up : Up c.link
      pub ordered : O.Ordered c.link
      pub positive : 0 < c.id
      pub small_ids : last < word_size
      pub replies : (j : ℕ) → c.id ≤ j → j < last → Answers c.link j (status_reply j (statuses j))
