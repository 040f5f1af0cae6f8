-- ===== src/Sftp/Transfers/Ahead.antt =====
-- sftp.cc: what the server of a file answers to the reads of SftpFile, and the queue of them.
use Prim.Native.Nat.{◌<◌}
use hbackup.Prelude.{
  ℕ, zero, suc, ◌+◌, ◌%◌, ◌≤◌, ◌≡◌, refl, sym, ap, subst, ◌∙◌, [], ◌∷◌, ◌++◌, List, false, length,
  take, drop, Bytes, arith, append-nil, append_assoc, inl, inr,
}
use hbackup.Outcome.{ok, and_then}
use hbackup.Sftp.Wire.{word_size, Status, pack_uint8, pack_uint32, pack_uint64, pack_string}
use hbackup.Sftp.Replies.{newid}
use hbackup.Sftp.Check.{status_reply}
use hbackup.Sftp.Transport.{Transport, Server, Continues, IsTransport}
use hbackup.Sftp.Transport.Laws.{Continues-trans, Continues-weaken}
use hbackup.Sftp.Requests.{Client, fresh_id, path_request}
use hbackup.Sftp.Requests.Simple.{command_lem}
use hbackup.Sftp.Transfers.{Transfer, offset_size, on_fs, read_request, request_read, fill_queue}

-- SSH_FX_EOF
abbrev pub at_end : Status
at_end = record { status = 1; message = []; lang = [] }

-- The answer to a read that finds some bytes, or none.
unfoldable pub data_reply : ℕ → Bytes → Bytes
data_reply id [] = status_reply id at_end
data_reply id (c ∷ chunk) = path_request 103 id (c ∷ chunk)

-- Consecutive IDs.
unfoldable pub ids_from : ℕ → ℕ → List ℕ
ids_from f zero = []
ids_from f (suc n) = f ∷ ids_from (f + 1) n

pub ids_from-snoc : (f n : ℕ) → ids_from f n ++ (f + n) ∷ [] ≡ ids_from f (n + 1)
unfolding ids_from
ids_from-snoc f zero = let e : f + 0 ≡ f = omega arith in rw e refl
ids_from-snoc f (suc n) =
    let e : f + suc n ≡ f + 1 + n = omega arith in
    let g : suc n + 1 ≡ suc (n + 1) = omega arith in
    rw (e, g) (ap (λ q. f ∷ q) (ids_from-snoc (f + 1) n))

pub length-ids_from : (f n : ℕ) → length (ids_from f n) ≡ n
unfolding ids_from
length-ids_from f zero = refl
length-ids_from f (suc n) = ap suc (length-ids_from (f + 1) n)

pub newid_next : (n : ℕ) → 0 < n → n + 1 < word_size → newid n ≡ (n, n + 1)
unfolding newid
newid_next n pos small = ground arith

-- The offset of the read `i` after the one at `o`.
unfoldable pub offset_of : ℕ → ℕ → ℕ → ℕ
offset_of space o zero = o
offset_of space o (suc i) = offset_of space (o + space) i

pub offset_of-snoc : (space o n : ℕ) → offset_of space o (n + 1) ≡ offset_of space o n + space
unfolding offset_of
offset_of-snoc space o zero = refl
offset_of-snoc space o (suc n) =
    let g : suc n + 1 ≡ suc (n + 1) = omega arith in rw g (offset_of-snoc space (o + space) n)

module _ (T : Transport) where
  -- The next ID, where none wraps around.
  pub fresh_id_next :
      (c : Client T)
      → 0 < c.id
      → c.id + 1 < word_size
      → fresh_id T c ≡ (c.id, record c { id = c.id + 1 })
  unfolding fresh_id
  fresh_id_next c pos small = ap (λ p. (p.0, record c { id = p.1 })) (newid_next c.id pos small)

pub offset_of-add :
    (space o m n : ℕ) → offset_of space (offset_of space o m) n ≡ offset_of space o (m + n)
unfolding offset_of
offset_of-add space o zero n = let e : 0 + n ≡ n = omega arith in rw e refl
offset_of-add space o (suc m) n =
    let e : suc m + n ≡ suc (m + n) = omega arith in rw e (offset_of-add space (o + space) m n)

-- The packet of a READ request: the ID, the handle, the offset and the size.
unfoldable pub read_packet : ℕ → Bytes → ℕ → ℕ → Bytes
read_packet id handle offset space = pack_string [] (
    pack_uint32 (pack_uint64 (pack_string (pack_uint32 (pack_uint8 [] 5) id) handle) offset)
      (space % word_size))

-- The packets of `n` reads of consecutive pieces under consecutive IDs.
unfoldable pub reads_from : Bytes → ℕ → ℕ → ℕ → ℕ → Bytes
reads_from handle space id o zero = []
reads_from handle space id o (suc n) =
    read_packet id handle o space ++ reads_from handle space (id + 1) (o + space) n

reads_from-snoc :
    (handle : Bytes) (space id o n : ℕ)
    → reads_from handle space id o n ++ read_packet (id + n) handle (offset_of space o n) space
      ≡ reads_from handle space id o (n + 1)
unfolding reads_from offset_of
reads_from-snoc handle space id o zero =
    let e : id + 0 ≡ id = omega arith in rw e (sym (append-nil _))
reads_from-snoc handle space id o (suc n) =
    let e : id + suc n ≡ id + 1 + n = omega arith in
    let g : suc n + 1 ≡ suc (n + 1) = omega arith in
    rw (e, g)
      (append_assoc (read_packet id handle o space) _ _
        ∙ ap (λ b. read_packet id handle o space ++ b)
            (reads_from-snoc handle space (id + 1) (o + space) n))

module _ (T : Transport) (S : Server T) (L : IsTransport T S) (space : ℕ) (content handle : Bytes)
    (base : T.State) (id0 total : ℕ) where
  open S use {Up, Answers}

  -- Once the packets of `m` reads, from the start of the file on, are what was sent behind `base`,
  -- and nothing else, each of the reads is answered by the bytes of the content that it asks for,
  -- unless its reply is gone.
  unfoldable pub Promised : Type 1
  Promised =
      (i m : ℕ)
      → i < m
      → m ≤ total
      → (l : T.State) (Gone : ℕ → Type 0) → ¬ Gone (id0 + i)
      → Continues T S base (reads_from handle space id0 0 m) Gone l
      → Answers l (id0 + i) (data_reply (id0 + i) (take space (drop (offset_of space 0 i) content)))

  -- The queue holds `n` reads that begin with the ID `f` and the offset `o`, which are sent; those
  -- before have been taken.
  pub record IsQueue (t : Transfer T) (f o n budget : ℕ) : Type 0 where
    pub taken : ℕ
    pub first_id : f ≡ id0 + taken
    pub first_offset : o ≡ offset_of space 0 taken
    pub same_handle : t.handle ≡ handle
    pub history :
        Continues T S base (reads_from handle space id0 0 (taken + n)) (λ j. j < f) t.fs.link
    pub within : taken + budget ≤ total
    pub open_file : t.eof ≡ false
    pub queue : t.readqueue ≡ ids_from f n
    pub next_id : t.fs.id ≡ f + n
    pub next_offset : t.readoffset ≡ offset_of space o n
    pub positive : 0 < f
    pub enough : n ≤ budget
    pub small_ids : f + budget < word_size
    pub small_offsets : (i : ℕ) → i ≤ budget → offset_of space o i < offset_size

  -- A read more.
  fill_one :
      (t : Transfer T) (f o n budget : ℕ)
      → n < budget
      → IsQueue t f o n budget
      → (t' : Transfer T) × ((k : ℕ) → fill_queue T (suc k) space t ≡ fill_queue T k space t')
        × IsQueue t' f o (n + 1) budget
        × (t'.readbuffer ≡ t.readbuffer)
  unfolding fill_queue request_read on_fs
  fill_one t f o n budget more v =
      let fresh : fresh_id T t.fs ≡ (t.fs.id, record t.fs { id = t.fs.id + 1 }) =
        fresh_id_next T t.fs (omega (arith, v.next_id, v.positive))
          (omega (arith, v.next_id, v.small_ids, more)) in
      let c1 = record t.fs { id = t.fs.id + 1 } in
      let moved : t.readoffset + space ≡ offset_of space o (n + 1) =
        ap (λ x. x + space) v.next_offset ∙ sym (offset_of-snoc space o n) in
      let wrap : (t.readoffset + space) % offset_size ≡ t.readoffset + space =
        omega (arith, moved, v.small_offsets (n + 1) (omega (arith, more))) in
      let (l, q, go) =
        command_lem T S L (read_request t.fs.id t.handle t.readoffset space) c1 v.history.up in
      let same_packet : pack_string [] (read_request t.fs.id t.handle t.readoffset space)
          ≡ read_packet (id0 + (v.taken + n)) handle (offset_of space 0 (v.taken + n)) space =
        unfold read_request path_request read_packet in
        (ap
            (λ id. pack_string [] (
              pack_uint32
                (pack_uint64 (pack_string (pack_uint32 (pack_uint8 [] 5) id) t.handle) t.readoffset)
                (space % word_size)))
            (omega (arith, v.next_id, v.first_id))
          ∙ ap (λ h. read_packet (id0 + (v.taken + n)) h t.readoffset space) v.same_handle
          ∙ ap (λ o. read_packet (id0 + (v.taken + n)) handle o space)
              (v.next_offset
                ∙ ap (λ o. offset_of space o n) v.first_offset
                ∙ offset_of-add space 0 v.taken n)) in
      let longer : v.taken + n + 1 ≡ v.taken + (n + 1) = omega arith in
      let all_sent =
        ap (λ b. reads_from handle space id0 0 (v.taken + n) ++ b) same_packet
        ∙ reads_from-snoc handle space id0 0 (v.taken + n)
        ∙ ap (reads_from handle space id0 0) longer in
      (
        record t {
          fs = record c1 { link = l };
          readoffset = t.readoffset + space;
          readqueue = t.readqueue ++ t.fs.id ∷ [];
        },
        λ k.
            ap (λ p. and_then (request_read T p space t) (λ _ t1. fill_queue T k space t1)) fresh
            ∙ rw (wrap, q) refl,
        record {
          taken = v.taken;
          first_id = v.first_id;
          first_offset = v.first_offset;
          same_handle = v.same_handle;
          history =
              Continues-weaken T S all_sent (λ j g. elim g [ inl x ↦ x | inr x ↦ absurd x ])
                (Continues-trans T S v.history go);
          within = v.within;
          open_file = v.open_file;
          queue =
              ap (λ x. x ++ t.fs.id ∷ []) v.queue
              ∙ ap (λ j. ids_from f n ++ j ∷ []) v.next_id
              ∙ ids_from-snoc f n;
          next_id = omega (arith, v.next_id);
          next_offset = moved;
          positive = v.positive;
          enough = omega (arith, more);
          small_ids = v.small_ids;
          small_offsets = v.small_offsets;
        },
        refl,
      )

  -- The queue is filled.
  pub fill_queue_lem :
      (k : ℕ) (t : Transfer T) (f o n budget : ℕ)
      → n + k ≤ budget
      → IsQueue t f o n budget
      → (t' : Transfer T) × (fill_queue T k space t ≡ (ok tt, t'))
        × IsQueue t' f o (n + k) budget
        × (t'.readbuffer ≡ t.readbuffer)
  unfolding fill_queue
  fill_queue_lem zero t f o n budget room v =
      let e : n + 0 ≡ n = omega arith in (t, refl, rw e v, refl)
  fill_queue_lem (suc k) t f o n budget room v =
      let (t1, step, v1, b1) = fill_one t f o n budget (omega arith) v in
      let (t2, q, v2, b2) = fill_queue_lem k t1 f o (n + 1) budget (omega arith) v1 in
      let e : n + 1 + k ≡ n + suc k = omega arith in
      (t2, step k ∙ q, subst (λ m. IsQueue t2 f o m budget) e v2, b2 ∙ b1)
