-- ===== src/Tests/Prefetched.antt =====
-- exists() of sftp.cc and synchronize() of SftpFile, at a server in memory.
use hbackup.Prelude.{
  ◌≡◌, inl, inr, refl, [], ◌∷◌, List, All, Bool, true, Bytes, codes, arith, nat_eq, bytes_eq, same,
}
use hbackup.Prelude.Dict
use hbackup.Outcome.{ok}
use hbackup.Sftp.Wire.{pack_string, pack_uint32, unpack_uint32}
use hbackup.Sftp.Wire.Laws.{pack_status}
use hbackup.Sftp.Replies.{newid}
use hbackup.Sftp.Replies.Awaiting.{Packet, IsPacket}
use hbackup.Sftp.Check.{status_reply}
use hbackup.Sftp.Requests.{Client}
use hbackup.Sftp.Requests.Existence.{exists}
use hbackup.Sftp.Requests.Prefigured.{IsHonest, IsNext, exists-present}
use hbackup.Sftp.Requests.Fallback.{verdict}
use hbackup.Sftp.Transfers.{Transfer, new_transfer, synchronize, has_id}
use hbackup.Sftp.Transfers.Behind.{
  Write, ids_of, first_failure, behind_failure, AllAnswered, synchronize-first_failure,
}
use hbackup.Tests.Server.{
  transport, server, transport-IsTransport, client_of, client_of-Up, client_of-Answers,
  client_of-connected, answer, success, failure, first-IsPacket, second-IsPacket, removal,
  small_IsStatus, success-IsStatus,
}

-- The attributes of what the first request asks for, with no flag.
abbrev attributes : Packet
attributes = record { id = 1; bytes = 105 ∷ 0 ∷ 0 ∷ 0 ∷ 1 ∷ 0 ∷ 0 ∷ 0 ∷ 0 ∷ [] }

attributes-IsPacket : IsPacket attributes
unfolding unpack_uint32
attributes-IsPacket = record { some_bytes = omega arith; small = omega arith; has_id = refl }

-- `b` was asked for under the ID 2, and is not there.
abbrev replies : List Packet
replies = attributes ∷ answer 2 failure ∷ []

missing-IsPacket : IsPacket (answer 2 failure)
unfolding answer status_reply pack_status unpack_uint32 pack_string
missing-IsPacket = record { some_bytes = omega arith; small = omega arith; has_id = refl }

replies-IsPacket : All IsPacket replies
replies-IsPacket = (attributes-IsPacket, (missing-IsPacket, tt))

unfoldable asking : Client transport
asking = record (client_of replies) { existence_inflight = (2, codes "b") ∷ [] }

abbrev only_a : Bytes → Bool
only_a p = same p (codes "a")

asking-IsHonest : IsHonest transport server transport-IsTransport only_a asking
unfolding asking client_of answer status_reply pack_status bytes_eq pack_string pack_uint32
    Dict.lookup
asking-IsHonest = record {
  is_connected = client_of-connected replies;
  up = client_of-Up replies replies-IsPacket (omega arith);
  true_cache = λ p b e. cc;
  all_tell = (
    record {
      reply = status_reply 2 failure;
      answers =
          client_of-Answers replies 2 _ replies-IsPacket (omega arith) missing-IsPacket.some_bytes
            (inr (omega arith, inl (refl, refl, tt)));
      truth = refl;
    },
    λ x. x,
    tt,
  );
}

asking-IsNext : IsNext transport server transport-IsTransport only_a asking (codes "a")
unfolding asking newid client_of bytes_eq answer
asking-IsNext = record {
  tells = λ l Gone fresh go. record {
    reply = attributes.bytes;
    answers = go.answers _ _ fresh (
        client_of-Answers replies 1 _ replies-IsPacket (omega arith) attributes-IsPacket.some_bytes
          (inl (refl, refl, (omega arith, tt))));
    truth = refl;
  };
  unused = λ x. elim x [ inl e ↦ omega (arith, e) | inr y ↦ y ];
}

exists-present_example :
    (c' : Client transport) × (exists transport 2 (codes "a") asking ≡ (ok true, c'))
    × IsHonest transport server transport-IsTransport only_a c'
    × (c'.existence_inflight ≡ [])
unfolding bytes_eq
exists-present_example =
    exists-present transport server transport-IsTransport only_a 0 (codes "a") asking
      asking-IsHonest asking-IsNext

-- Two writes, the first of which fails.
abbrev two_writes : List Write
two_writes = record { id = 1; status = failure } ∷ record { id = 2; status = success } ∷ []

unfoldable writing_file : Transfer transport
writing_file = record (new_transfer transport (codes "h") (client_of removal)) {
  writequeue = 1 ∷ 2 ∷ [];
}

writing_file-AllAnswered :
    AllAnswered transport server transport-IsTransport writing_file.fs.link two_writes
unfolding writing_file AllAnswered answer new_transfer ids_of has_id
writing_file-AllAnswered =
    let vs : All IsPacket removal = (second-IsPacket, (first-IsPacket, tt)) in
    (
      client_of-Answers removal 1 _ vs (omega arith) first-IsPacket.some_bytes
          (inr (omega arith, inl (refl, refl, tt))),
      small_IsStatus 4 (omega arith),
      omega arith,
      refl,
      (
        client_of-Answers removal 2 _ vs (omega arith) second-IsPacket.some_bytes
            (inl (refl, refl, (omega arith, tt))),
        success-IsStatus,
        omega arith,
        refl,
        tt,
      ),
    )

synchronize-first_failure_example :
    (t : Transfer transport) × (synchronize transport writing_file ≡ (verdict 4, t))
    × (t.writequeue ≡ 2 ∷ [])
unfolding first_failure behind_failure ids_of writing_file new_transfer
synchronize-first_failure_example =
    synchronize-first_failure transport server transport-IsTransport two_writes writing_file refl
      (client_of-Up removal (second-IsPacket, (first-IsPacket, tt)) (omega arith))
      writing_file-AllAnswered
