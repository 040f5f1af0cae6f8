-- ===== src/Tests/Packets.antt =====
-- The theorems on sftp.cc at concrete packets.
use hbackup.Prelude.{◌≡◌, ◌≢◌, refl, [], ◌∷◌, ◌++◌, Bool, false, Bytes, codes, arith, nat_eq}
use hbackup.Prelude.Dict
use hbackup.Outcome.{ok, err, out_of_range}
use hbackup.File.{new_file}
use hbackup.File.Read.{new_file-IsReadable}
use hbackup.Sftp.Wire.{pack_string, unpack_uint32, unpack_extended, Status, Attributes}
use hbackup.Sftp.Wire.Bounds.{unpack_extended-over}
use hbackup.Sftp.Replies.{Mailbox, Session, recv, await, deliver}
use hbackup.Sftp.Replies.Awaiting.{Packet, IsPacket, sent, deliver_all, claimed, Polled, await_own}
use hbackup.Sftp.Replies.Ids.{nth_id, nth_id_injective}
use hbackup.Tests.Memory.{memory_file, memory_file-IsReader}

abbrev refused : Status
refused = record { status = 3; message = codes "no"; lang = codes "en" }

abbrev no_attributes : Attributes
no_attributes = record {
  flags = 0;
  size = 0;
  uid = 0;
  gid = 0;
  permissions = 0;
  atime = 0;
  mtime = 0;
  extended = [];
}

-- One pair, whole, and a byte behind it.
abbrev one_pair : Bytes
one_pair = 0 ∷ 0 ∷ 0 ∷ 1 ∷ 0 ∷ 0 ∷ 0 ∷ 1 ∷ b'k' ∷ 0 ∷ 0 ∷ 0 ∷ 1 ∷ b'v' ∷ 0 ∷ []

unpack_extended-over_example : unpack_extended one_pair no_attributes 0 ≡ err out_of_range
unfolding unpack_uint32
unpack_extended-over_example = unpack_extended-over one_pair no_attributes 0 4 0 refl

abbrev no_select : Bytes × Bytes → Bool × (Bytes × Bytes)
no_select d = (false, d)

-- Packets of the requests 7 and 9.
abbrev seven : Packet
seven = record { id = 7; bytes = 101 ∷ 0 ∷ 0 ∷ 0 ∷ 7 ∷ [] }

abbrev nine : Packet
nine = record { id = 9; bytes = 105 ∷ 0 ∷ 0 ∷ 0 ∷ 9 ∷ [] }

abbrev no_replies : Mailbox
no_replies = record { replies = []; ignored = [] }

abbrev session : Bytes → Session memory_file no_select
session s = record { input = new_file (s, []); output = new_file ([], []); mailbox = no_replies }

seven-IsPacket : IsPacket seven
unfolding unpack_uint32
seven-IsPacket = record { some_bytes = omega arith; small = omega arith; has_id = refl }

nine-IsPacket : IsPacket nine
unfolding unpack_uint32
nine-IsPacket = record { some_bytes = omega arith; small = omega arith; has_id = refl }

abbrev two_replies : Session memory_file no_select
two_replies = session (sent (seven ∷ []) ++ (pack_string [] nine.bytes ++ []))

-- The reply to 9 is behind that to 7.
await_own_example :
    (s : Session memory_file no_select) × (await memory_file no_select 2 9 two_replies
      ≡ (ok (105, nine.bytes), s))
    × Polled memory_file no_select memory_file-IsReader two_replies []
        (claimed 9 (deliver 9 nine.bytes (deliver_all (seven ∷ []) no_replies)))
        s
unfolding Dict.lookup deliver
await_own_example =
    await_own memory_file no_select memory_file-IsReader 2 (seven ∷ []) nine [] two_replies
      (omega arith) (seven-IsPacket, tt) nine-IsPacket (omega arith, tt)
      (record { no_reply = refl; wanted = unfold hbackup.Sftp.Replies.is_ignored in refl })
      (new_file-IsReadable memory_file memory_file-IsReader _) refl

nth_id_injective_example : (nth_id 0 ≢ nth_id 5) × (nth_id 0 ≢ 0)
nth_id_injective_example = nth_id_injective 0 5 (omega arith) (omega arith) (omega arith)
