-- ===== src/Tests/Server.antt =====
-- The theorems on the requests of sftp.cc, at a server in memory that has some packets to send.
use Prim.Native.Nat.{◌<◌}
use hbackup.Prelude.{
  ℕ, ◌≡◌, inl, inr, refl, [], ◌∷◌, ◌++◌, List, All, Bool, true, false, length, Bytes, codes, arith,
  nat_eq, bytes_eq,
}
use hbackup.Outcome.{Result, fatal}
use hbackup.File.{new_file}
use hbackup.File.Read.{new_file-IsReadable}
use hbackup.Sftp.Wire.{pack_string, Status, unpack_uint32}
use hbackup.Sftp.Wire.Laws.{IsStatus, pack_status}
use hbackup.Sftp.Replies.{Mailbox, Session, newid}
use hbackup.Sftp.Replies.Awaiting.{Packet, IsPacket, sent}
use hbackup.Sftp.Check.{status_reply}
use hbackup.Sftp.Transport.{Transport, Server, IsTransport}
use hbackup.Sftp.Link.{Link, link_transport}
use hbackup.Sftp.Link.Answered.{Once}
use hbackup.Sftp.Link.Polling.{IsSelect}
use hbackup.Sftp.Link.Serving.{IsServed, link_server, link_IsTransport}
use hbackup.Sftp.Requests.{Client, path_request, remove, rename}
use hbackup.Sftp.Requests.Fallback.{
  IsAsked, verdict, remove-two_requests, rename-two_requests, posix_packet, plain_packet,
}
use hbackup.Tests.Memory.{memory_file, memory_file-IsReader, memory_file-IsWriter}

-- A select() that finds nothing to read.
abbrev pub nothing_ready : Bytes × Bytes → Bool × (Bytes × Bytes)
nothing_ready d = (false, d)

pub nothing_ready-IsSelect : IsSelect memory_file memory_file-IsReader nothing_ready
nothing_ready-IsSelect = record { same_content = λ d. refl; something = λ d e. cc }

-- No connection has to be made.
abbrev pub no_server : Result ((Bytes × Bytes) × (Bytes × Bytes))
no_server = fatal

abbrev pub transport : Transport
transport = link_transport memory_file nothing_ready no_server 10

abbrev pub server : Server transport
server =
    link_server memory_file nothing_ready no_server 10 memory_file-IsReader memory_file-IsWriter

-- The connection is a transport for a server in memory.
pub transport-IsTransport : IsTransport transport server
transport-IsTransport =
    link_IsTransport memory_file nothing_ready no_server 10 memory_file-IsReader
      memory_file-IsWriter nothing_ready-IsSelect

link_IsTransport_example : IsTransport transport server
link_IsTransport_example =
    link_IsTransport memory_file nothing_ready no_server 10 memory_file-IsReader
      memory_file-IsWriter nothing_ready-IsSelect

abbrev pub link_of : List Packet → Link memory_file nothing_ready no_server 10
link_of qs = record {
  connected = true;
  session = record {
    input = new_file (sent qs, []);
    output = new_file ([], []);
    mailbox = record { replies = []; ignored = [] };
  };
}

unfoldable pub client_of : List Packet → Client transport
unfolding link_transport
client_of qs = record {
  link = link_of qs;
  id = 0;
  existence_inflight = [];
  existence = [];
  posix_rename = true;
}

pub link_of-IsServed :
    (qs : List Packet)
    → All IsPacket qs
    → length qs < 10
    → IsServed memory_file nothing_ready no_server 10 memory_file-IsReader memory_file-IsWriter
        (link_of qs)
        qs
link_of-IsServed qs vs few = record {
  packets = vs;
  few = few;
  coming = refl;
  is_readable = new_file-IsReadable memory_file memory_file-IsReader _;
  is_writable = record { not_reading = λ e. cc; idle_empty = λ _. refl; fits = omega arith };
}

pub client_of-Up :
    (qs : List Packet) → All IsPacket qs → length qs < 10 → server.Up (client_of qs).link
unfolding client_of link_server link_transport
client_of-Up qs vs few = (qs, link_of-IsServed qs vs few)

pub client_of-Answers :
    (qs : List Packet) (id : ℕ) (r : Bytes)
    → All IsPacket qs
    → length qs < 10
    → 0 < length r
    → Once id r qs
    → server.Answers (client_of qs).link id r
unfolding client_of link_server link_transport
client_of-Answers qs id r vs few pos once = record {
  some_bytes = pos;
  packets = qs;
  is_served = link_of-IsServed qs vs few;
  answered =
      inr
        (record { no_reply = refl; wanted = unfold hbackup.Sftp.Replies.is_ignored in refl }, once);
}

pub client_of-connected : (qs : List Packet) → transport.connected (client_of qs).link ≡ true
unfolding client_of link_transport
client_of-connected qs = refl

abbrev pub failure : Status
failure = record { status = 4; message = codes "no"; lang = [] }

abbrev pub success : Status
success = record { status = 0; message = []; lang = [] }

abbrev not_supported : Status
not_supported = record { status = 8; message = []; lang = [] }

pub small_IsStatus :
    (n : ℕ) → n < 100 → IsStatus (record { status = n; message = codes "no"; lang = [] })
small_IsStatus n h = record { status = omega arith; message = omega arith; lang = omega arith }

pub success-IsStatus : IsStatus success
success-IsStatus = record { status = omega arith; message = omega arith; lang = omega arith }

not_supported-IsStatus : IsStatus not_supported
not_supported-IsStatus = record { status = omega arith; message = omega arith; lang = omega arith }

unfoldable pub answer : ℕ → Status → Packet
answer id st = record { id = id; bytes = status_reply id st }

-- A removal that is refused as one of a file, and done as one of a directory.
abbrev pub removal : List Packet
removal = answer 2 success ∷ answer 1 failure ∷ []

pub first-IsPacket : IsPacket (answer 1 failure)
unfolding answer status_reply pack_status unpack_uint32 pack_string
first-IsPacket = record { some_bytes = omega arith; small = omega arith; has_id = refl }

pub second-IsPacket : IsPacket (answer 2 success)
unfolding answer status_reply pack_status unpack_uint32 pack_string
second-IsPacket = record { some_bytes = omega arith; small = omega arith; has_id = refl }

refused-IsPacket : IsPacket (answer 1 not_supported)
unfolding answer status_reply pack_status unpack_uint32 pack_string
refused-IsPacket = record { some_bytes = omega arith; small = omega arith; has_id = refl }

removal-IsAsked :
    IsAsked transport server transport-IsTransport 4 (client_of removal) failure success
unfolding client_of newid answer
removal-IsAsked =
    let vs : All IsPacket removal = (second-IsPacket, (first-IsPacket, tt)) in
    record {
      is_connected = client_of-connected removal;
      up = client_of-Up removal vs (omega arith);
      small = omega arith;
      first =
          client_of-Answers removal 1 _ vs (omega arith) first-IsPacket.some_bytes
            (inr (omega arith, inl (refl, refl, tt)));
      second = λ _.
          client_of-Answers removal 2 _ vs (omega arith) second-IsPacket.some_bytes
            (inl (refl, refl, (omega arith, tt)));
      first_IsStatus = small_IsStatus 4 (omega arith);
      second_IsStatus = success-IsStatus;
    }

remove-two_requests_example :
    (c' : Client transport) × (remove transport (codes "d") (client_of removal) ≡ (verdict 0, c'))
    × (server.output c'.link
        ≡ server.output (client_of removal).link
          ++ (pack_string [] (path_request 13 1 (codes "d"))
              ++ pack_string [] (path_request 15 2 (codes "d"))))
unfolding client_of newid
remove-two_requests_example =
    remove-two_requests transport server transport-IsTransport (codes "d") (client_of removal)
      failure success removal-IsAsked

-- posix-rename is refused, and the plain renaming is done.
abbrev renaming : List Packet
renaming = answer 1 not_supported ∷ answer 2 success ∷ []

renaming-IsAsked :
    IsAsked transport server transport-IsTransport 8 (client_of renaming) not_supported success
unfolding client_of newid answer
renaming-IsAsked =
    let vs : All IsPacket renaming = (refused-IsPacket, (second-IsPacket, tt)) in
    record {
      is_connected = client_of-connected renaming;
      up = client_of-Up renaming vs (omega arith);
      small = omega arith;
      first =
          client_of-Answers renaming 1 _ vs (omega arith) refused-IsPacket.some_bytes
            (inl (refl, refl, (omega arith, tt)));
      second = λ _.
          client_of-Answers renaming 2 _ vs (omega arith) second-IsPacket.some_bytes
            (inr (omega arith, inl (refl, refl, tt)));
      first_IsStatus = not_supported-IsStatus;
      second_IsStatus = success-IsStatus;
    }

rename-two_requests_example :
    (c' : Client transport) × (rename transport 2 (codes "a") (codes "b") (client_of renaming)
      ≡ (verdict 0, c'))
    × (c'.posix_rename ≡ false)
    × (server.output c'.link
        ≡ server.output (client_of renaming).link
          ++ (pack_string [] (posix_packet 1 (codes "a") (codes "b"))
              ++ pack_string [] (plain_packet 2 (codes "a") (codes "b"))))
unfolding client_of newid verdict
rename-two_requests_example =
    rename-two_requests transport server transport-IsTransport 0 (codes "a") (codes "b")
      (client_of renaming) not_supported success renaming-IsAsked
