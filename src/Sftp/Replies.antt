-- ===== src/Sftp/Replies.antt =====
-- sftp.cc: requests and their replies, which may arrive in any order (newid, send, recv, poll, await,
-- ignore and ready of SftpFilesystem).
pub mod Framing
pub mod Awaiting
pub mod Ids
use hbackup.Prelude.{
  ℕ, zero, suc, ◌+◌, ◌%◌, [], ◌∷◌, List, Bool, true, false, not, Option, none, some, length, get_or,
  Bytes, nat_eq, same, leb, ltb, ◌==◌, if◌then◌else◌,
}
use hbackup.Prelude.Dict
use hbackup.Prelude.Dict.{Dict}
use hbackup.Outcome.{Result, ok, err, fatal, length_error, and_then}
use hbackup.File.{Device, File, getbytes, put_all}
use hbackup.Sftp.Wire.{word_size, pack_uint32, first_of, unpack_uint32}

-- `replies` and `ignored`; the latter is a set.
pub record Mailbox : Type 0 where
  pub replies : Dict ℕ Bytes
  pub ignored : Dict ℕ (Unit {0})

unfoldable pub is_ignored : ℕ → Mailbox → Bool
unfolding Dict.lookup
is_ignored id m = elim (Dict.lookup id m.ignored) [ some _ ↦ true | none ↦ false ]

-- What poll() does with a reply once it has its ID.
unfoldable pub deliver : ℕ → Bytes → Mailbox → Mailbox
unfolding is_ignored Dict.insert Dict.erase
deliver id reply m =
    if is_ignored id m
    then record m { ignored = Dict.erase id m.ignored }
    else record m { replies = Dict.insert id reply m.replies }

-- SftpFilesystem::ignore()
unfoldable pub ignore : ℕ → Mailbox → Mailbox
unfolding Dict.insert Dict.erase
ignore id m = record { replies = Dict.erase id m.replies; ignored = Dict.insert id tt m.ignored }

-- SftpFilesystem::ready()
unfoldable pub ready : ℕ → Mailbox → Bool
unfolding Dict.lookup
ready id m = elim (Dict.lookup id m.replies) [ some _ ↦ true | none ↦ false ]

-- SftpFilesystem::newid(): the ID, and the member `id` after it. IDs are uint32_t.
unfoldable pub newid : ℕ → ℕ × ℕ
newid n = let id = if n == 0 then 1 else n in (id, (id + 1) % word_size)

-- `select d` is what select() answers for an open file.
module _ (V : Device) (select : V.State → Bool × V.State) where
  -- The members of SftpFilesystem that these operations use.
  pub record Session : Type 0 where
    pub input : File V
    pub output : File V
    pub mailbox : Mailbox

  -- SftpFilesystem::recv(). A length that is no `int` turns into a huge size.
  unfoldable pub recv_body : ℕ → Session → Result (ℕ × Bytes) × Session
  unfolding getbytes
  recv_body len s =
      let (r, f) = getbytes V len true s.input in
      and_then (r, record s { input = f })
        λ reply s1. if length reply == len then (ok (get_or reply 0 0, reply), s1) else (fatal, s1)

  unfoldable pub recv : Session → Result (ℕ × Bytes) × Session
  unfolding unpack_uint32 getbytes recv_body
  recv s =
      let (r, f) = getbytes V 4 true s.input in
      and_then (r, record s { input = f })
        λ slen s1.
          if length slen == 4
          then and_then (unpack_uint32 slen 0, s1)
              (λ p s2. if leb 2147483648 p.0 then (err length_error, s2) else recv_body p.0 s2)
          else (fatal, s1)

  -- SftpFilesystem::poll()
  unfoldable pub poll : Session → Result (Unit {0}) × Session
  unfolding recv unpack_uint32 deliver
  poll s = and_then (recv s) λ p s1.
      and_then (unpack_uint32 p.1 1, s1)
        λ q s2. (ok tt, record s2 { mailbox = deliver q.0 p.1 s2.mailbox })

  -- The end of await(): the type of the reply, and the reply, which is no longer pending.
  unfoldable pub take_reply : ℕ → Bytes → Session → Result (ℕ × Bytes) × Session
  unfolding first_of Dict.erase
  take_reply id reply s =
      and_then
        (
          first_of reply,
          record s { mailbox = record s.mailbox { replies = Dict.erase id s.mailbox.replies } },
        )
        (λ t s1. (ok (t, reply), s1))

  -- SftpFilesystem::await(); the fuel bounds its calls of poll().
  unfoldable pub await : ℕ → ℕ → Session → Result (ℕ × Bytes) × Session
  unfolding poll take_reply Dict.lookup
  await zero id s = elim (Dict.lookup id s.mailbox.replies) [
    | some reply ↦ take_reply id reply s
    | none ↦ (fatal, s)
  ]
  await (suc fuel) id s = elim (Dict.lookup id s.mailbox.replies) [
    | some reply ↦ take_reply id reply s
    | none ↦ and_then (poll s) (λ _ s1. await fuel id s1)
  ]

  -- LocalFile::readable()
  unfoldable pub readable : File V → Bool × File V
  readable f =
      if ltb 0 (length f.buffered)
      then (true, f)
      else let (b, d) = select f.device in (b, record f { device = d })

  -- The loop of send(): replies are taken as long as there are any. The fuel bounds their number.
  unfoldable pub poll_ready : ℕ → Session → Result (Unit {0}) × Session
  unfolding readable poll
  poll_ready zero s = (fatal, s)
  poll_ready (suc fuel) s =
      let (b, f) = readable s.input in
      let s1 = record s { input = f } in
      elim b [ true ↦ and_then (poll s1) (λ _ s2. poll_ready fuel s2) | false ↦ (ok tt, s1) ]

  -- `out->put(t)`
  unfoldable pub put_output : Bytes → Session → Result (Unit {0}) × Session
  unfolding put_all
  put_output t s = let (r, f) = put_all V t s.output in (r, record s { output = f })

  -- SftpFilesystem::send()
  unfoldable pub send : ℕ → Bytes → Session → Result (Unit {0}) × Session
  unfolding poll_ready put_output pack_uint32
  send fuel cmd s = and_then (poll_ready fuel s) λ _ s1.
      and_then (put_output (pack_uint32 [] (length cmd % word_size)) s1) (λ _ s2. put_output cmd s2)
