-- ===== src/Tests/Uploads.antt =====
-- The writing of a remote file over the connection of the program, to a server that accepts every
-- write, in order.
use hbackup.Prelude.{ℕ, [], ◌∷◌, List, Bytes, codes}
use hbackup.File.{File}
use hbackup.Sftp.Wire.{Status}
use hbackup.Sftp.Replies.Awaiting.{Packet}
use hbackup.Sftp.Requests.{Client}
use hbackup.Sftp.Link.Ordering.{link_InOrder}
use hbackup.Sftp.Transfers.Written.{InOrder}
use hbackup.Tests.Memory.{memory_file, memory_file-IsReader, memory_file-IsWriter}
use hbackup.Tests.Server.{
  nothing_ready, nothing_ready-IsSelect, no_server, transport, server, client_of, answer, success,
}

abbrev accepting : ℕ → Status
accepting id = success

abbrev in_order : InOrder transport server
in_order =
    link_InOrder memory_file nothing_ready no_server 10 memory_file-IsReader memory_file-IsWriter
      nothing_ready-IsSelect

-- The replies to three writes.
abbrev replies : List Packet
replies = answer 1 success ∷ answer 2 success ∷ answer 3 success ∷ []

abbrev writer : Client transport
writer = record (client_of replies) { id = 1 }

abbrev chunks : List Bytes
chunks = codes "ab" ∷ [] ∷ codes "de" ∷ []
