-- ===== src/Sftp/Transfers/Delivered.antt =====
-- sftp.cc: SftpFile delivers a file in order, where the server answers each read in full.
use Prim.Native.Nat.{◌<◌}
use hbackup.Prelude.{
  ℕ, suc, ◌+◌, ◌-◌, ◌≤◌, ◌≡◌, refl, sym, ap, subst, ◌∙◌, inl, inr, [], ◌∷◌, ◌++◌, append-nil, List,
  Bool, true, false, not, ◌&&◌, if◌then◌else◌, length, take, drop, drop-drop, take-append-drop,
  length-take_le, Bytes, arith, ltb, Bool-cases,
}
use hbackup.Outcome.{ok, and_then}
use hbackup.Sftp.Wire.{word_size}
use hbackup.Sftp.Transport.{Transport, Server, Continues, IsTransport}
use hbackup.Sftp.Transport.Laws.{Continues-trans, Continues-weaken}
use hbackup.Sftp.Requests.{on_link}
use hbackup.Sftp.Transfers.{
  Transfer, on_fs, read_queue_size, fill_queue, read_ahead, ignore_all, end_reading, take_data,
  take_next, next_data,
}
use hbackup.Sftp.Transfers.Ahead.{
  data_reply, Promised, offset_of-snoc, reads_from, ids_from, length-ids_from, offset_of, IsQueue,
  fill_queue_lem,
}
use hbackup.Sftp.Transfers.Answers.{
  data_reply-check, data_reply-unpack_string, data_reply-type_data, data_reply-type_end, take-nil,
}

module _ (T : Transport) (S : Server T) (L : IsTransport T S) (space : ℕ) (content handle : Bytes)
    (base : T.State) (id0 total : ℕ) where
  open S use {Up, Answers}

  abbrev Queue : Transfer T → ℕ → ℕ → ℕ → ℕ → Type 0
  Queue = IsQueue T S L space content handle base id0 total

  -- By its condition.
  pub read_ahead_if :
      (t : Transfer T) (b : Bool)
      → (not t.eof && ltb (length t.readqueue) read_queue_size) ≡ b
      → read_ahead T space t
        ≡ (if b then fill_queue T (read_queue_size - length t.readqueue) space t else (ok tt, t))
  unfolding read_ahead
  read_ahead_if t b e =
      ap
        (λ x. if x then fill_queue T (read_queue_size - length t.readqueue) space t else (ok tt, t))
        e

  pub read_ahead_lem :
      (t : Transfer T) (f o n budget : ℕ)
      → n ≤ 8
      → 8 ≤ budget
      → Queue t f o n budget
      → (t' : Transfer T) × (read_ahead T space t ≡ (ok tt, t'))
        × Queue t' f o 8 budget
        × (t'.readbuffer ≡ t.readbuffer)
  read_ahead_lem t f o n budget few room v =
      let size : length t.readqueue ≡ n = ap length v.queue ∙ length-ids_from f n in
      elim (Bool-cases (ltb (length t.readqueue) read_queue_size)) [
        | inl e ↦
            let full : n + (8 - n) ≡ 8 = omega (arith, few) in
            let (t1, q, v1, b1) =
              fill_queue_lem T S L space content handle base id0 total (8 - n) t f o n budget
                (omega (arith, full, room)) v in
            let test : (not t.eof && ltb (length t.readqueue) read_queue_size) ≡ true =
              rw (v.open_file, e) refl in
            (
              t1,
              read_ahead_if t true test ∙ ap (λ m. fill_queue T (8 - m) space t) size ∙ q,
              subst (λ m. Queue t1 f o m budget) full v1,
              b1,
            )
        | inr e ↦
            let full : n ≡ 8 = ground (arith, e, size, few) in
            let test : (not t.eof && ltb (length t.readqueue) read_queue_size) ≡ false =
              rw (v.open_file, e) refl in
            (t, read_ahead_if t false test, subst (λ m. Queue t f o m budget) full v, refl)
      ]

  -- The reads that are left, once the reply to the first has been taken.
  rest-IsQueue :
      (t : Transfer T) (f o n budget : ℕ) (l : T.State) (buffer : Bytes)
      → Queue t f o (suc n) (suc budget)
      → Continues T S t.fs.link [] (λ j. j ≡ f) l
      → Queue
          (record t {
            fs = record t.fs { link = l };
            readqueue = ids_from (f + 1) n;
            readbuffer = buffer;
          })
          (f + 1)
          (o + space)
          n
          budget
  unfolding offset_of
  rest-IsQueue t f o n budget l buffer v go = record {
    taken = v.taken + 1;
    first_id = omega (arith, v.first_id);
    first_offset = ap (λ x. x + space) v.first_offset ∙ sym (offset_of-snoc space 0 v.taken);
    same_handle = v.same_handle;
    history =
        let count : v.taken + suc n ≡ v.taken + 1 + n = omega arith in
        Continues-weaken T S (append-nil _ ∙ ap (reads_from handle space id0 0) count)
          (λ j g. elim g [ inl x ↦ omega (arith, x) | inr x ↦ omega (arith, x) ])
          (Continues-trans T S v.history go);
    within = omega (arith, v.within);
    open_file = v.open_file;
    queue = refl;
    next_id = omega (arith, v.next_id);
    next_offset = v.next_offset;
    positive = omega arith;
    enough = omega (arith, v.enough);
    small_ids = omega (arith, v.small_ids);
    small_offsets = λ i h. v.small_offsets (suc i) (omega (arith, h));
  }

  -- `rest` is left to deliver: what is buffered, and what the reads in flight bring or, once the end
  -- of the file was met, nothing more.
  pub data Ahead (t : Transfer T) (rest : Bytes) (budget : ℕ) : Type 0 where
    reading :
        (f o n : ℕ)
        → n ≤ 8
        → Queue t f o n budget
        → rest ≡ t.readbuffer ++ drop o content
        → Ahead t rest budget
    ended :
        Up t.fs.link → t.eof ≡ true → t.readqueue ≡ [] → rest ≡ t.readbuffer → Ahead t rest budget

  pub take_next_some :
      (t : Transfer T) (c : ℕ) (b : Bytes) → t.readbuffer ≡ c ∷ b → next_data T t ≡ (ok tt, t)
  unfolding next_data take_next
  take_next_some t c b e = ap (λ x. take_next T x t.readqueue t) e ∙ by_queue t.readqueue
    where
      by_queue : (q : List ℕ) → take_next T (c ∷ b) q t ≡ (ok tt, t)
      by_queue [] = refl
      by_queue (id ∷ q) = refl

  pub take_next_none : (t : Transfer T) → t.readqueue ≡ [] → next_data T t ≡ (ok tt, t)
  unfolding next_data take_next
  take_next_none t e = ap (λ x. take_next T t.readbuffer x t) e ∙ by_buffer t.readbuffer
    where
      by_buffer : (b : Bytes) → take_next T b [] t ≡ (ok tt, t)
      by_buffer [] = refl
      by_buffer (c ∷ b) = refl

  ignore_all_lem : (q : List ℕ) (l : T.State) → Up l → Up (ignore_all T q l)
  unfolding ignore_all
  ignore_all_lem [] l u = u
  ignore_all_lem (id ∷ q) l u = ignore_all_lem q (T.ignore id l) (L.ignores id l u).up

  -- What next_data() leaves: if nothing is buffered, nothing is left at all.
  pub record Next (t : Transfer T) (rest : Bytes) (budget : ℕ) : Type 0 where
    pub after : Transfer T
    pub done : next_data T t ≡ (ok tt, after)
    pub ahead : Ahead after rest budget
    pub at_the_end : after.readbuffer ≡ [] → rest ≡ []

  -- The file once the reply to the first read was awaited.
  abbrev popped : Transfer T → T.State → ℕ → ℕ → Transfer T
  popped t l f n = record t { fs = record t.fs { link = l }; readqueue = ids_from (f + 1) n }

  next_front :
      (t : Transfer T) (f n : ℕ) (type : ℕ) (r : Bytes) (l : T.State)
      → t.readbuffer ≡ []
      → t.readqueue ≡ ids_from f (suc n)
      → T.await f t.fs.link ≡ (ok (type, r), l)
      → next_data T t ≡ take_data T (type, r) (popped t l f n)
  unfolding next_data take_next ids_from on_fs on_link
  next_front t f n type r l empty queue q =
      ap (λ b. take_next T b t.readqueue t) empty
      ∙ ap (λ x. take_next T [] x t) queue
      ∙ ap
          (λ p.
            and_then (p.0, record (popped t p.1 f n) { readqueue = ids_from (f + 1) n })
              (take_data T))
          q

  take_data_some :
      (id c : ℕ) (chunk : Bytes) (t : Transfer T)
      → length (c ∷ chunk) < word_size
      → take_data T (103, data_reply id (c ∷ chunk)) t
        ≡ (ok tt, record t { readbuffer = c ∷ chunk })
  unfolding take_data
  take_data_some id c chunk t small =
      let (i, e) = data_reply-unpack_string id c chunk small in rw e refl

  take_data_none :
      (id : ℕ) (t : Transfer T)
      → id < word_size
      → take_data T (101, data_reply id []) t ≡ (
        ok tt,
        record t {
          fs = record t.fs { link = ignore_all T t.readqueue t.fs.link };
          readqueue = [];
          eof = true;
        },
      )
  unfolding take_data end_reading
  take_data_none id t small = rw (data_reply-check id small) refl

  -- The answer to the first read in flight.
  first_answer :
      (t : Transfer T) (f o n budget : ℕ) (chunk : Bytes)
      → Promised T S L space content handle base id0 total
      → Queue t f o (suc n) (suc budget)
      → take space (drop o content) ≡ chunk
      → Answers t.fs.link f (data_reply f chunk)
  unfolding Promised
  first_answer t f o n budget chunk promise v e =
      let fresh : ¬ (id0 + v.taken < f) = λ x. omega (arith, x, v.first_id) in
      let a =
        promise v.taken (v.taken + suc n) (omega arith) (omega (arith, v.within, v.enough))
          t.fs.link (λ j. j < f) fresh v.history in
      subst (λ b. Answers t.fs.link f (data_reply f b)) e
        (subst (λ k. Answers t.fs.link f (data_reply f (take space (drop k content))))
          (sym v.first_offset)
          (subst
            (λ j.
              Answers t.fs.link j
                (data_reply j (take space (drop (offset_of space 0 v.taken) content))))
            (sym v.first_id) a))

  pub reply_step :
      (t : Transfer T) (f o n budget : ℕ) (chunk : Bytes)
      → 0 < space
      → space < word_size
      → t.readbuffer ≡ []
      → n ≤ 8
      → Promised T S L space content handle base id0 total
      → Queue t f o (suc n) (suc budget)
      → take space (drop o content) ≡ chunk
      → Next t (drop o content) budget
  reply_step t f o n budget [] pos small empty few promise v e =
      let (l, q, go) =
        L.awaits f _ t.fs.link v.history.up (first_answer t f o n budget [] promise v e) in
      let t1 = popped t l f n in
      let nothing : drop o content ≡ [] = take-nil space (drop o content) pos e in
      record {
        after = record t1 {
          fs = record t1.fs { link = ignore_all T t1.readqueue t1.fs.link };
          readqueue = [];
          eof = true;
        };
        done =
            next_front t f n 101 (data_reply f []) l empty v.queue
              (q ∙ ap (λ b. (ok (b, data_reply f []), l)) (data_reply-type_end f))
            ∙ take_data_none f t1 (omega (arith, v.small_ids));
        ahead = ended (ignore_all_lem t1.readqueue l go.up) refl refl (nothing ∙ sym empty);
        at_the_end = λ _. nothing;
      }
  reply_step t f o n budget (c ∷ chunk) pos small empty few promise v e =
      let (l, q, go) =
        L.awaits f _ t.fs.link v.history.up (first_answer t f o n budget (c ∷ chunk) promise v e) in
      let short : length (c ∷ chunk) < word_size =
        omega (arith, ap length e, length-take_le space (drop o content), small) in
      record {
        after = record (popped t l f n) { readbuffer = c ∷ chunk };
        done =
            next_front t f n 103 (data_reply f (c ∷ chunk)) l empty v.queue
              (q ∙ ap (λ b. (ok (b, data_reply f (c ∷ chunk)), l)) (data_reply-type_data f c chunk))
            ∙ take_data_some f c chunk (popped t l f n) short;
        ahead = reading (f + 1) (o + space) n few (rest-IsQueue t f o n budget l (c ∷ chunk) v go) (
            sym (take-append-drop space (drop o content))
            ∙ ap (λ b. b ++ drop space (drop o content)) e
            ∙ ap (λ b. (c ∷ chunk) ++ b) (drop-drop o space content));
        at_the_end = λ z. cc;
      }
