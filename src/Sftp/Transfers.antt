-- ===== src/Sftp/Transfers.antt =====
-- sftp.cc: class SftpFile, which reads ahead and writes behind by keeping requests in flight.
pub mod Behind
pub mod Ahead
pub mod Answers
pub mod Delivered
pub mod Whole
pub mod Written
pub mod Received
pub mod Settled
pub mod Appended
pub mod Stored
pub mod Taking
pub mod Buffered
use hbackup.Prelude.{
  ℕ, zero, suc, ◌+◌, ◌-◌, ◌%◌, [], ◌∷◌, ◌++◌, List, Bool, true, false, ◌&&◌, not, Option, none,
  some, length, take, drop, Bytes, ltb, ◌==◌, if◌then◌else◌,
}
use hbackup.Outcome.{Result, ok, err, fatal, and_then}
use hbackup.File.{Device}
use hbackup.Sftp.Wire.{word_size, pack_uint32, pack_uint64, pack_string, unpack_string}
use hbackup.Sftp.Check.{check}
use hbackup.Sftp.Transport.{Transport}
use hbackup.Sftp.Requests.{
  Client, on_link, fresh_id, command, init, path_request, OpenMode, open_flags, open_request,
  check_unless, check_reply, closehandle, forget_handle, request_reply,
}

-- The end of uint64_t.
abbrev pub offset_size : ℕ
offset_size = 18446744073709551616

-- SSH_FXP_READ
unfoldable pub read_request : ℕ → Bytes → ℕ → ℕ → Bytes
unfolding path_request pack_uint64 pack_uint32
read_request id handle offset space =
    pack_uint32 (pack_uint64 (path_request 5 id handle) offset) (space % word_size)

-- SSH_FXP_WRITE
unfoldable pub write_request : ℕ → Bytes → ℕ → Bytes → Bytes
unfolding path_request pack_uint64 pack_string
write_request id handle offset data_ =
    pack_string (pack_uint64 (path_request 6 id handle) offset) data_

-- `readqueuesize`
abbrev pub read_queue_size : ℕ
read_queue_size = 8

-- `writequeue.erase(it)`, for the first entry that is the ID.
unfoldable pub without : ℕ → List ℕ → List ℕ
without id [] = []
without id (j ∷ queue) = if j == id then queue else j ∷ without id queue

unfoldable pub has_id : ℕ → List ℕ → Bool
has_id id [] = false
has_id id (j ∷ queue) = if j == id then true else has_id id queue

module _ (T : Transport) where
  -- The members of SftpFile. `fs` is the file system that it uses.
  pub record Transfer : Type 0 where
    pub fs : Client T
    pub handle : Bytes
    pub readqueue : List ℕ
    pub readbuffer : Bytes
    pub readoffset : ℕ
    pub eof : Bool
    pub writequeue : List ℕ
    pub writeoffset : ℕ

  -- The constructor.
  unfoldable pub new_transfer : Bytes → Client T → Transfer
  new_transfer handle fs = record {
    fs = fs;
    handle = handle;
    readqueue = [];
    readbuffer = [];
    readoffset = 0;
    eof = false;
    writequeue = [];
    writeoffset = 0;
  }

  -- SftpFilesystem::open(), up to the construction of the file from its handle.
  unfoldable pub open_handle : Bytes → OpenMode → Client T → Result Bytes × Client T
  unfolding init fresh_id open_request open_flags request_reply check_unless unpack_string
  open_handle path mode c = and_then (init T c) λ _ c1.
      let (id, c2) = fresh_id T c1 in
      and_then (request_reply T id (open_request id path (open_flags mode)) c2) λ p c3.
        and_then (check_unless (p.0 == 102) p.1, c3)
          λ _ c4. and_then (unpack_string p.1 5, c4) λ h c5. (ok h.0, c5)

  -- An operation on the file system.
  unfoldable pub on_fs :
      {A : Type 0} → (Client T → Result A × Client T) → Transfer → Result A × Transfer
  on_fs f t = let (r, c) = f t.fs in (r, record t { fs = c })

  -- A round of the loop that keeps the queue of reads full, with a new ID and the client behind it.
  unfoldable pub request_read : ℕ × Client T → ℕ → Transfer → Result (Unit {0}) × Transfer
  unfolding on_fs command read_request
  request_read (id, c) space t =
      let t1 = record t { fs = c; readoffset = (t.readoffset + space) % offset_size } in
      and_then (on_fs (command T (read_request id t.handle t.readoffset space)) t1)
        λ _ t2. (ok tt, record t2 { readqueue = t2.readqueue ++ id ∷ [] })

  -- The loop; `n` is what the queue lacks.
  unfoldable pub fill_queue : ℕ → ℕ → Transfer → Result (Unit {0}) × Transfer
  unfolding fresh_id request_read
  fill_queue zero space t = (ok tt, t)
  fill_queue (suc n) space t =
      and_then (request_read (fresh_id T t.fs) space t) (λ _ t1. fill_queue n space t1)

  unfoldable pub read_ahead : ℕ → Transfer → Result (Unit {0}) × Transfer
  unfolding fill_queue
  read_ahead space t =
      if not t.eof && ltb (length t.readqueue) read_queue_size
      then fill_queue (read_queue_size - length t.readqueue) space t
      else (ok tt, t)

  -- The reads that are left are ignored.
  unfoldable pub ignore_all : List ℕ → T.State → T.State
  ignore_all [] l = l
  ignore_all (id ∷ queue) l = ignore_all queue (T.ignore id l)

  -- At the end of the file: an error is thrown, and a reply that is none ends the reading.
  unfoldable pub end_reading : Bytes → Transfer → Result (Unit {0}) × Transfer
  unfolding check ignore_all
  end_reading reply t =
      and_then (check reply true, t)
        λ _ t1. (
          ok tt,
          record t1 {
            fs = record t1.fs { link = ignore_all t1.readqueue t1.fs.link };
            readqueue = [];
            eof = true;
          },
        )

  -- What becomes of a reply: SSH_FXP_DATA is 103.
  unfoldable pub take_data : ℕ × Bytes → Transfer → Result (Unit {0}) × Transfer
  unfolding unpack_string end_reading
  take_data p t =
      if p.0 == 103
      then and_then (unpack_string p.1 5, t) (λ d t1. (ok tt, record t1 { readbuffer = d.0 }))
      else end_reading p.1 t

  -- `if(!readbuffer.size() and readqueue.size())`, on the buffer and the queue.
  unfoldable pub take_next : Bytes → List ℕ → Transfer → Result (Unit {0}) × Transfer
  unfolding on_fs on_link take_data
  take_next [] (id ∷ queue) t =
      and_then (on_fs (on_link T (T.await id)) (record t { readqueue = queue })) take_data
  take_next _ _ t = (ok tt, t)

  unfoldable pub next_data : Transfer → Result (Unit {0}) × Transfer
  unfolding take_next
  next_data t = take_next t.readbuffer t.readqueue t

  -- SftpFile::readbytes()
  unfoldable pub readbytes : ℕ → Transfer → Result Bytes × Transfer
  unfolding read_ahead next_data
  readbytes space t = and_then (read_ahead space t) λ _ t1.
      and_then (next_data t1)
        λ _ t2. (ok (take space t2.readbuffer), record t2 { readbuffer = drop space t2.readbuffer })

  -- SftpFile::synchronize_one(), which awaits the front of the queue whatever `id` is. The assertion
  -- fails on an ID that is not in the queue.
  unfoldable pub synchronize_one : ℕ → ℕ → Transfer → Result (Unit {0}) × Transfer
  unfolding on_fs on_link has_id without check
  synchronize_one front id t =
      let wanted = if id == 0 then front else id in
      and_then (on_fs (on_link T (T.await front)) t) λ p t1.
        if has_id wanted t1.writequeue
        then (check p.1 false, record t1 { writequeue = without wanted t1.writequeue })
        else (fatal, t1)

  -- The loop of SftpFile::synchronize(). A round takes an entry off the queue.
  unfoldable pub synchronize_loop : ℕ → Transfer → Result (Unit {0}) × Transfer
  unfolding synchronize_one
  synchronize_loop zero t = elim t.writequeue [ [] ↦ (ok tt, t) | _ ∷ _ ↦ (fatal, t) ]
  synchronize_loop (suc fuel) t = elim t.writequeue [
    | [] ↦ (ok tt, t)
    | front ∷ queue ↦ and_then (synchronize_one front 0 t) (λ _ t1. synchronize_loop fuel t1)
  ]

  -- SftpFile::synchronize()
  unfoldable pub synchronize : Transfer → Result (Unit {0}) × Transfer
  unfolding synchronize_loop
  synchronize t = synchronize_loop (length t.writequeue) t

  -- SftpFile::find_ready_write(), 0 if there is none.
  unfoldable pub find_ready : List ℕ → T.State → ℕ
  find_ready [] l = 0
  find_ready (id ∷ queue) l = if T.ready id l then id else find_ready queue l

  -- A round of the loop at the end of writebytes(), by the queue and the ID that is ready. `again` is
  -- the rest of the loop.
  unfoldable pub reap_ready :
      List ℕ
      → ℕ
      → (Transfer → Result (Unit {0}) × Transfer)
      → Transfer
      → Result (Unit {0}) × Transfer
  unfolding synchronize_one
  reap_ready [] ready_id again t = (ok tt, t)
  reap_ready (front ∷ queue) ready_id again t =
      let rest = and_then (synchronize_one front ready_id t) (λ _ t1. again t1) in
      if ready_id == 0 then (ok tt, t) else rest

  -- The loop. A round takes an entry off the queue.
  unfoldable pub reap : ℕ → Transfer → Result (Unit {0}) × Transfer
  unfolding find_ready reap_ready
  reap zero t = if find_ready t.writequeue t.fs.link == 0 then (ok tt, t) else (fatal, t)
  reap (suc fuel) t =
      reap_ready t.writequeue (find_ready t.writequeue t.fs.link) (λ t1. reap fuel t1) t

  -- SftpFile::writebytes() on some bytes, with a new ID and the client behind it.
  unfoldable pub request_write : ℕ × Client T → Bytes → Transfer → Result (Unit {0}) × Transfer
  unfolding on_fs on_link write_request reap
  request_write (id, c) bytes t =
      let t1 = record t { fs = c } in
      and_then (on_fs (on_link T (T.send (write_request id t.handle t.writeoffset bytes))) t1)
        λ _ t2.
          let t3 = record t2 { writeoffset = (t2.writeoffset + length bytes) % offset_size } in
          and_then (on_fs (on_link T T.flush) t3) λ _ t4.
            let t5 = record t4 { writequeue = t4.writequeue ++ id ∷ [] } in
            reap (length t5.writequeue) t5

  unfoldable pub write_some : Bytes → Transfer → Result (Unit {0}) × Transfer
  unfolding fresh_id request_write
  write_some bytes t = request_write (fresh_id T t.fs) bytes t

  -- SftpFile::writebytes()
  unfoldable pub writebytes : Bytes → Transfer → Result (Unit {0}) × Transfer
  unfolding write_some
  writebytes [] t = (ok tt, t)
  writebytes (b ∷ bytes) t = write_some (b ∷ bytes) t

  -- The destructor.
  unfoldable pub close_transfer : Transfer → Result (Unit {0}) × Transfer
  unfolding synchronize on_fs forget_handle
  close_transfer t = and_then (synchronize t) (λ _ t1. on_fs (forget_handle T t1.handle) t1)

  -- SftpFile as the device of a buffered file.
  abbrev pub transfer_device : Device
  transfer_device = record {
    State = Transfer;
    readbytes = λ t n. readbytes n t;
    writebytes = λ t s. writebytes s t;
    synchronize = synchronize;
  }
