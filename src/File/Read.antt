-- ===== src/File/Read.antt =====
-- What reading delivers: the bytes of the device in order, each once.
use hbackup.Prelude.{
  ℕ, ◌<◌, ◌≤◌, ◌≡◌, ◌≢◌, refl, sym, ap, ◌∙◌, [], ◌∷◌, ◌++◌, true, false, Option, none, some, length,
  Bytes, arith, Bool-cases, inl, inr,
}
use hbackup.Outcome.{ok}
use hbackup.File.{
  Device, Mode, idle, reading, writing, File, new_file, buffer_size, filled, refill, fill,
  next_byte, getch,
}

abbrev pub first : Bytes → Option ℕ
first [] = none
first (c ∷ s) = some c

abbrev pub rest : Bytes → Bytes
rest [] = []
rest (c ∷ s) = s

-- What the readbytes() of a file that can be read is taken to do: it delivers the next bytes of the
-- content, some if there are any, and no more than were asked for.
pub record IsReader (V : Device) : Type 0 where
  pub content : V.State → Bytes
  pub delivers :
      (d : V.State) (n : ℕ)
      → 0 < n
      → (chunk : Bytes) × (d' : V.State) × (V.readbytes d n ≡ (ok chunk, d'))
        × (content d ≡ chunk ++ content d')
        × (length chunk ≤ n)
        × (chunk ≡ [] → content d ≡ [])

module _ (V : Device) (R : IsReader V) where
  open R use {content, delivers}

  -- The bytes that are still to be read.
  abbrev pub stream : File V → Bytes
  stream f = f.buffered ++ content f.device

  -- A file that is being read, or is new.
  pub record IsReadable (f : File V) : Type 0 where
    pub not_writing : f.mode ≢ writing
    pub idle_empty : f.mode ≡ idle → f.buffered ≡ []
    pub eof_empty : f.eof ≡ true → stream f ≡ []

  pub record Filled (f : File V) (n : ℕ) (g : File V) : Type 0 where
    pub readable : IsReadable g
    pub is_reading : g.mode ≡ reading
    pub kept : stream g ≡ content f.device
    pub counted : n ≡ length g.buffered
    pub at_end : n ≡ 0 → content f.device ≡ []

  refill_chunk :
      (f : File V) (chunk : Bytes) (d' : V.State)
      → IsReadable f
      → f.eof ≡ false
      → V.readbytes f.device buffer_size ≡ (ok chunk, d')
      → content f.device ≡ chunk ++ content d'
      → (chunk ≡ [] → content f.device ≡ [])
      → (n : ℕ) × (g : File V) × (refill V f ≡ (ok n, g)) × Filled f n g
  unfolding refill filled
  refill_chunk f [] d' v more q split stop = (
    0,
    record f { mode = reading; buffered = []; eof = true; device = d' },
    ground arith,
    record {
      readable = record {
        not_writing = λ e. cc;
        idle_empty = λ e. refl;
        eof_empty = λ _. sym split ∙ stop refl;
      };
      is_reading = refl;
      kept = sym split;
      counted = refl;
      at_end = λ e. stop refl;
    },
  )
  refill_chunk f (c ∷ chunk) d' v more q split stop = (
    length (c ∷ chunk),
    record f { mode = reading; buffered = c ∷ chunk; device = d' },
    ground arith,
    record {
      readable = record { not_writing = λ e. cc; idle_empty = λ e. cc; eof_empty = λ e. cc };
      is_reading = refl;
      kept = sym split;
      counted = refl;
      at_end = λ e. absurd (omega arith);
    },
  )

  refill-Filled :
      (f : File V)
      → IsReadable f
      → f.buffered ≡ []
      → (n : ℕ) × (g : File V) × (refill V f ≡ (ok n, g)) × Filled f n g
  unfolding refill
  refill-Filled f v empty = elim (Bool-cases f.eof) [
    | inl e ↦ (
      0,
      record f { mode = reading },
      ground arith,
      record {
        readable = record {
          not_writing = λ e. cc;
          idle_empty = λ _. empty;
          eof_empty = v.eof_empty;
        };
        is_reading = refl;
        kept = rw empty;
        counted = rw empty;
        at_end = λ _. ap (λ s. s ++ content f.device) (sym empty) ∙ v.eof_empty e;
      },
    )
    | inr e ↦
        let (chunk, d', q, split, small, stop) = delivers f.device buffer_size (omega arith) in
        refill_chunk f chunk d' v e q split stop
  ]

  fill-refill : (f : File V) → f.mode ≢ writing → fill V f ≡ refill V f
  unfolding fill
  fill-refill f h = go f.mode refl
    where
      go : (m : Mode) → f.mode ≡ m → fill V f ≡ refill V f
      go idle e = rw e
      go reading e = rw e
      go writing e = absurd (h e)

  pub fill-Filled :
      (f : File V)
      → IsReadable f
      → f.buffered ≡ []
      → (n : ℕ) × (g : File V) × (fill V f ≡ (ok n, g)) × Filled f n g
  fill-Filled f v empty =
      let (n, g, e, w) = refill-Filled f v empty in (n, g, fill-refill f v.not_writing ∙ e, w)

  -- What a read of one byte leaves.
  abbrev pub Took : Bytes → File V → Type 0
  Took s g = (stream g ≡ s) × IsReadable g

  taken_IsReadable :
      (g : File V) (c : ℕ) (b : Bytes)
      → IsReadable g
      → g.buffered ≡ c ∷ b
      → g.mode ≡ reading
      → IsReadable (record g { buffered = b })
  taken_IsReadable g c b v e m = record {
    not_writing = v.not_writing;
    idle_empty = λ i. cc;
    eof_empty = λ q. cc (v.eof_empty q, ap (λ s. s ++ content g.device) e);
  }

  next_byte-Took :
      (f g : File V) (n : ℕ)
      → Filled f n g
      → (h : File V) × (next_byte V g g.buffered ≡ (ok (first (content f.device)), h))
        × Took (rest (content f.device)) h
  unfolding next_byte
  next_byte-Took f g n w = go g.buffered refl
    where
      go :
          (b : Bytes)
          → g.buffered ≡ b
          → (h : File V) × (next_byte V g g.buffered ≡ (ok (first (content f.device)), h))
            × Took (rest (content f.device)) h
      go [] e =
          let nothing : content f.device ≡ [] = w.at_end (w.counted ∙ ap length e) in
          (
            g,
            cc (ap (next_byte V g) e, ap first nothing),
            (w.kept ∙ nothing ∙ sym (ap rest nothing), w.readable),
          )
      go (c ∷ b) e =
          let split : content f.device ≡ c ∷ (b ++ content g.device) =
            sym w.kept ∙ ap (λ s. s ++ content g.device) e in
          (
            record g { buffered = b },
            cc (ap (next_byte V g) e, ap first split),
            (sym (ap rest split), taken_IsReadable g c b w.readable e w.is_reading),
          )

  is_reading :
      (f : File V) → IsReadable f → {c : ℕ} {b : Bytes} → f.buffered ≡ c ∷ b → f.mode ≡ reading
  is_reading f v {c} {b} e = go f.mode refl
    where
      go : (m : Mode) → f.mode ≡ m → f.mode ≡ reading
      go idle q = cc (v.idle_empty q)
      go reading q = q
      go writing q = absurd (v.not_writing q)

  -- getch() takes the next byte of the content, and says so at its end.
  pub getch-Took :
      (f : File V)
      → IsReadable f
      → (g : File V) × (getch V f ≡ (ok (first (stream f)), g)) × Took (rest (stream f)) g
  unfolding getch
  getch-Took f v = go f.buffered refl
    where
      go :
          (b : Bytes)
          → f.buffered ≡ b
          → (g : File V) × (getch V f ≡ (ok (first (stream f)), g)) × Took (rest (stream f)) g
      go [] e =
          let (n, g, q, w) = fill-Filled f v e in
          let (h, step, took) = next_byte-Took f g n w in
          let same_stream : stream f ≡ content f.device = ap (λ s. s ++ content f.device) e in
          (h, rw (same_stream, e, getch, q) step, rw same_stream took)
      go (c ∷ b) e =
          let split : stream f ≡ c ∷ (b ++ content f.device) = ap (λ s. s ++ content f.device) e in
          (
            record f { buffered = b },
            rw (split, e, getch) (unfold next_byte in refl),
            rw split (refl, taken_IsReadable f c b v e (is_reading f v e)),
          )

  -- A file that was just opened for reading.
  pub new_file-IsReadable : (d : V.State) → IsReadable (new_file d)
  new_file-IsReadable d = record {
    not_writing = λ e. cc;
    idle_empty = λ _. refl;
    eof_empty = λ e. cc;
  }
