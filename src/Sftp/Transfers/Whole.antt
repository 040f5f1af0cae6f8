-- ===== src/Sftp/Transfers/Whole.antt =====
-- sftp.cc: reading a file of SftpFile to its end.
use Prim.Native.Nat.{◌<◌}
use hbackup.Prelude.{
  ℕ, zero, suc, ◌+◌, ◌≤◌, ◌≡◌, refl, sym, ap, subst, ◌∙◌, [], ◌∷◌, ◌++◌, append_assoc, false, not,
  ◌&&◌, length, length-append, take, drop, take-append-drop, Bytes, arith, ltb,
}
use hbackup.Outcome.{Result, ok, fatal, and_then}
use hbackup.Sftp.Wire.{word_size}
use hbackup.Sftp.Transport.{Transport, Server, IsTransport}
use hbackup.Sftp.Transport.Laws.{Continues-refl, Continues-weaken}
use hbackup.Sftp.Requests.{Client}
use hbackup.Sftp.Transfers.{
  Transfer, new_transfer, read_queue_size, read_ahead, readbytes, offset_size,
}
use hbackup.Sftp.Transfers.Ahead.{offset_of, ids_from, reads_from, IsQueue, Promised}
use hbackup.Sftp.Transfers.Delivered.{
  Ahead, reading, ended, Next, read_ahead_lem, read_ahead_if, take_next_some, take_next_none,
  reply_step,
}
use hbackup.Sftp.Transfers.Answers.{take-nil}

module _ (T : Transport) where
  -- What the calls of readbytes() for pieces of one size return, up to the first that returns
  -- nothing.
  unfoldable pub read_pieces : ℕ → ℕ → Transfer T → Result Bytes × Transfer T
  read_pieces zero space t = (fatal, t)
  read_pieces (suc fuel) space t = and_then (readbytes T space t) λ chunk t1. elim chunk [
    | [] ↦ (ok [], t1)
    | c ∷ b ↦ and_then (read_pieces fuel space t1) (λ rest t2. (ok (c ∷ b ++ rest), t2))
  ]

read_pieces-end :
    (T : Transport) (fuel space : ℕ) (t t1 : Transfer T)
    → readbytes T space t ≡ (ok [], t1)
    → read_pieces T (suc fuel) space t ≡ (ok [], t1)
unfolding read_pieces
read_pieces-end T fuel space t t1 q = rw q refl

read_pieces-more :
    (T : Transport) (fuel space c : ℕ) (b rest : Bytes) (t t1 t2 : Transfer T)
    → readbytes T space t ≡ (ok (c ∷ b), t1)
    → read_pieces T fuel space t1 ≡ (ok rest, t2)
    → read_pieces T (suc fuel) space t ≡ (ok (c ∷ b ++ rest), t2)
unfolding read_pieces
read_pieces-more T fuel space c b rest t t1 t2 q h = rw q (rw h refl)

module _ (T : Transport) (S : Server T) (L : IsTransport T S) (space : ℕ) (content handle : Bytes)
    (base : T.State) (id0 total : ℕ) where
  open S use {Up, Answers}

  abbrev Coming : Transfer T → Bytes → ℕ → Type 0
  Coming = Ahead T S L space content handle base id0 total

  fewer :
      (t : Transfer T) (f o n budget : ℕ)
      → n ≤ budget
      → IsQueue T S L space content handle base id0 total t f o n (suc budget)
      → IsQueue T S L space content handle base id0 total t f o n budget
  fewer t f o n budget few v = record {
    taken = v.taken;
    first_id = v.first_id;
    first_offset = v.first_offset;
    same_handle = v.same_handle;
    history = v.history;
    within = omega (arith, v.within);
    open_file = v.open_file;
    queue = v.queue;
    next_id = v.next_id;
    next_offset = v.next_offset;
    positive = v.positive;
    enough = few;
    small_ids = omega (arith, v.small_ids);
    small_offsets = λ i h. v.small_offsets i (omega (arith, h));
  }

  queue_step :
      (t : Transfer T) (f o budget : ℕ) (rest b : Bytes)
      → 0 < space
      → space < word_size
      → 8 ≤ budget
      → Promised T S L space content handle base id0 total
      → IsQueue T S L space content handle base id0 total t f o 8 (suc budget)
      → rest ≡ t.readbuffer ++ drop o content
      → t.readbuffer ≡ b
      → Next T S L space content handle base id0 total t rest budget
  queue_step t f o budget rest [] pos small room promise v e empty =
      subst (λ r. Next T S L space content handle base id0 total t r budget)
        (sym (e ∙ ap (λ b. b ++ drop o content) empty))
        (reply_step T S L space content handle base id0 total t f o 7 budget
          (take space (drop o content)) pos small empty (omega arith) promise v refl)
  queue_step t f o budget rest (c ∷ b) pos small room promise v e some_left = record {
    after = t;
    done = take_next_some T S L space content handle base id0 total t c b some_left;
    ahead = reading f o 8 (omega arith) (fewer t f o 8 budget room v) e;
    at_the_end = λ z. cc (z, some_left);
  }

  -- What is left once some of the buffer has been delivered.
  consumed :
      (t : Transfer T) (rest : Bytes) (budget : ℕ)
      → Coming t rest budget
      → (left : Bytes) × (rest ≡ take space t.readbuffer ++ left)
        × Coming (record t { readbuffer = drop space t.readbuffer }) left budget
  consumed t rest budget (reading f o n few v e) = (
    drop space t.readbuffer ++ drop o content,
    e
        ∙ ap (λ b. b ++ drop o content) (sym (take-append-drop space t.readbuffer))
        ∙ append_assoc (take space t.readbuffer) (drop space t.readbuffer) (drop o content),
    reading f o n few
        (record {
          taken = v.taken;
          first_id = v.first_id;
          first_offset = v.first_offset;
          same_handle = v.same_handle;
          history = v.history;
          within = v.within;
          open_file = v.open_file;
          queue = v.queue;
          next_id = v.next_id;
          next_offset = v.next_offset;
          positive = v.positive;
          enough = v.enough;
          small_ids = v.small_ids;
          small_offsets = v.small_offsets;
        })
        refl,
  )
  consumed t rest budget (ended u e q b) =
      (drop space t.readbuffer, b ∙ sym (take-append-drop space t.readbuffer), ended u e q refl)

  -- A call of readbytes().
  record Delivers (t : Transfer T) (rest : Bytes) (budget : ℕ) : Type 0 where
    chunk : Bytes
    left : Bytes
    after : Transfer T
    done : readbytes T space t ≡ (ok chunk, after)
    split : rest ≡ chunk ++ left
    at_the_end : chunk ≡ [] → rest ≡ []
    ahead : Coming after left budget

  call_step :
      (t t1 : Transfer T) (rest : Bytes) (budget : ℕ)
      → 0 < space
      → read_ahead T space t ≡ (ok tt, t1)
      → Next T S L space content handle base id0 total t1 rest budget
      → Delivers t rest budget
  unfolding readbytes
  call_step t t1 rest budget pos q next =
      let t2 = next.after in
      let (left, split, coming) = consumed t2 rest budget next.ahead in
      record {
        chunk = take space t2.readbuffer;
        left = left;
        after = record t2 { readbuffer = drop space t2.readbuffer };
        done = rw (q, next.done) refl;
        split = split;
        at_the_end = λ z. next.at_the_end (take-nil space t2.readbuffer pos z);
        ahead = coming;
      }

  readbytes_lem :
      (t : Transfer T) (rest : Bytes) (budget : ℕ)
      → 0 < space
      → space < word_size
      → 8 ≤ budget
      → Promised T S L space content handle base id0 total
      → Coming t rest (suc budget)
      → Delivers t rest budget
  readbytes_lem t rest budget pos small room promise (reading f o n few v e) =
      let (t1, q, v1, b1) =
        read_ahead_lem T S L space content handle base id0 total t f o n (suc budget) few
          (omega (arith, room)) v in
      call_step t t1 rest budget pos q (
        queue_step t1 f o budget rest t1.readbuffer pos small room promise v1
          (e ∙ ap (λ b. b ++ drop o content) (sym b1)) refl)
  readbytes_lem t rest budget pos small room promise (ended u e q b) =
      let test : (not t.eof && ltb (length t.readqueue) read_queue_size) ≡ false = rw e refl in
      call_step t t rest budget pos
        (read_ahead_if T S L space content handle base id0 total t false test)
        (record {
          after = t;
          done = take_next_none T S L space content handle base id0 total t q;
          ahead = ended u e q b;
          at_the_end = λ z. b ∙ z;
        })

  pieces :
      (fuel : ℕ) (t : Transfer T) (rest : Bytes) (budget : ℕ)
      → 0 < space
      → space < word_size
      → length rest < fuel
      → length rest + 8 ≤ budget
      → Promised T S L space content handle base id0 total
      → Coming t rest (suc budget)
      → (t' : Transfer T) × (read_pieces T fuel space t ≡ (ok rest, t'))
  pieces zero t rest budget pos small few room promise v = absurd (omega arith)
  pieces (suc fuel) t rest zero pos small few room promise v = absurd (omega arith)
  pieces (suc fuel) t rest (suc budget) pos small few room promise v =
      let d = readbytes_lem t rest (suc budget) pos small (omega (arith, room)) promise v in
      by_chunk d d.chunk refl (λ left t1 few1 room1 coming.
        pieces fuel t1 left budget pos small few1 room1 promise coming)
    where
      by_chunk :
          (d : Delivers t rest (suc budget)) (chunk : Bytes)
          → d.chunk ≡ chunk
          → ((left : Bytes) (t1 : Transfer T)
              → length left < fuel
              → length left + 8 ≤ budget
              → Coming t1 left (suc budget)
              → (t2 : Transfer T) × (read_pieces T fuel space t1 ≡ (ok left, t2)))
          → (t' : Transfer T) × (read_pieces T (suc fuel) space t ≡ (ok rest, t'))
      by_chunk d [] e again = (
        d.after,
        read_pieces-end T fuel space t d.after (d.done ∙ ap (λ x. (ok x, d.after)) e)
            ∙ ap (λ x. (ok x, d.after)) (sym (d.at_the_end e)),
      )
      by_chunk d (c ∷ b) e again =
          let split : rest ≡ c ∷ b ++ d.left = d.split ∙ ap (λ x. x ++ d.left) e in
          let size : length rest ≡ suc (length b + length d.left) =
            ap length split ∙ ap suc (length-append b d.left) in
          let (t2, q) =
            again d.left d.after (omega (arith, few, size)) (omega (arith, room, size)) d.ahead in
          (
            t2,
            read_pieces-more T fuel space c b d.left t d.after t2
                  (d.done ∙ ap (λ x. (ok x, d.after)) e) q
                ∙ ap (λ x. (ok x, t2)) (sym split),
          )

module _ (T : Transport) (S : Server T) (L : IsTransport T S) (space : ℕ) (content : Bytes) where
  open S use {Up, Answers}

  -- A server that answers the reads of a file that is opened now, as many as its reading to the end
  -- takes: once they are what was sent, each with the bytes that it asks for, as far as there are
  -- any, and with the end of the file where there are none.
  pub record IsServedFile (handle : Bytes) (c : Client T) (budget : ℕ) : Type 1 where
    pub up : Up c.link
    pub positive : 0 < c.id
    pub enough : length content + 9 ≤ budget
    pub small_ids : c.id + budget < word_size
    pub small_offsets : (i : ℕ) → i ≤ budget → offset_of space 0 i < offset_size
    pub promise : Promised T S L space content handle c.link c.id budget

  -- Reading a file over SFTP to its end, in pieces of one size of less than 2^32 bytes, gives its
  -- whole content in order, with more fuel than bytes, if the server, sent the READ requests for the
  -- pieces one after the other, answers each in full. The IDs and the offsets of the requests do not
  -- wrap around.
  pub read_pieces-content :
      (fuel : ℕ) (handle : Bytes) (c : Client T) (budget : ℕ)
      → 0 < space
      → space < word_size
      → length content < fuel
      → IsServedFile handle c budget
      → (t : Transfer T) × (read_pieces T fuel space (new_transfer T handle c) ≡ (ok content, t))
  unfolding new_transfer offset_of ids_from reads_from
  read_pieces-content fuel handle c zero pos small few v = absurd (omega (arith, v.enough))
  read_pieces-content fuel handle c (suc budget) pos small few v =
      pieces T S L space content handle c.link c.id (suc budget) fuel (new_transfer T handle c)
        content budget pos small few (omega (arith, v.enough)) v.promise
        (reading c.id 0 0 (omega arith)
          (record {
            taken = 0;
            first_id = omega arith;
            first_offset = refl;
            same_handle = refl;
            history = Continues-weaken T S refl (λ j x. absurd x) (Continues-refl T S v.up);
            within = omega arith;
            open_file = refl;
            queue = refl;
            next_id = omega arith;
            next_offset = refl;
            positive = v.positive;
            enough = omega arith;
            small_ids = v.small_ids;
            small_offsets = v.small_offsets;
          })
          refl)
