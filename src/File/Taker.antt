-- ===== src/File/Taker.antt =====
-- file.cc: writing to a device that takes so many bytes more, whatever pieces they come in.
use hbackup.Prelude.{
  ℕ, ◌+◌, ◌≤◌, ◌≡◌, ◌≢◌, refl, sym, ap, subst, ◌∙◌, [], ◌∷◌, ◌++◌, append-nil, length, Bytes, arith,
}
use hbackup.Outcome.{ok, and_then}
use hbackup.File.{
  Device, Mode, idle, reading, writing, File, buffer_size, write_out, reset_buffer, flush,
}

-- What the methods of a file that can be written are taken to do: where it is `Able` to take the
-- bytes, and more of them later, writebytes() adds them to what the file holds, and synchronize()
-- adds nothing. A file hands over no empty string, and none that is longer than its buffer.
pub record IsTaker (V : Device) : Type 1 where
  pub Able : V.State → ℕ → Type 0
  pub written : V.State → Bytes
  pub accepts :
      (d : V.State) (c : ℕ) (s : Bytes) (n : ℕ)
      → length (c ∷ s) ≤ buffer_size
      → Able d (length (c ∷ s) + n)
      → (d' : V.State) × (V.writebytes d (c ∷ s) ≡ (ok tt, d'))
        × (written d' ≡ written d ++ c ∷ s)
        × Able d' n
  pub settles :
      (d : V.State) (n : ℕ)
      → Able d n
      → (d' : V.State) × (V.synchronize d ≡ (ok tt, d')) × (written d' ≡ written d) × Able d' n

module _ (V : Device) where
  -- A file that is being written, or is new. The buffer never holds more than its size.
  pub record IsWritable (f : File V) : Type 0 where
    pub not_reading : f.mode ≢ reading
    pub idle_empty : f.mode ≡ idle → f.buffered ≡ []
    pub fits : length f.buffered ≤ buffer_size

  -- A flushed file.
  pub record IsFlushed (g : File V) : Type 0 where
    pub is_writing : g.mode ≡ writing
    pub empty : g.buffered ≡ []

  pub IsFlushed-IsWritable : (g : File V) → IsFlushed g → IsWritable g
  IsFlushed-IsWritable g w = record {
    not_reading = λ e. cc (w.is_writing, e);
    idle_empty = λ _. w.empty;
    fits = rw w.empty (omega arith);
  }

module _ (V : Device) (W : IsTaker V) where
  open W use {Able, written, accepts, settles}

  -- What was put into the file so far.
  abbrev pub text : File V → Bytes
  text f = written f.device ++ f.buffered

  reset_buffer_lem :
      (f : File V) (n : ℕ)
      → Able f.device n
      → (g : File V) × (reset_buffer V f ≡ (ok tt, g))
        × (written g.device ≡ written f.device)
        × IsFlushed V g
        × Able g.device n
  unfolding reset_buffer
  reset_buffer_lem f n a =
      let (d, q, same_text, b) = settles f.device n a in
      (
        record f { mode = writing; buffered = []; device = d },
        rw q,
        same_text,
        record { is_writing = refl; empty = refl },
        b,
      )

  write_out_lem :
      (f : File V) (n : ℕ)
      → length f.buffered ≤ buffer_size
      → Able f.device (length f.buffered + n)
      → (g : File V) × (write_out V f ≡ (ok tt, g)) × (written g.device ≡ text f) × Able g.device n
  unfolding write_out
  write_out_lem f n short a = go f.buffered refl
    where
      go :
          (b : Bytes)
          → f.buffered ≡ b
          → (g : File V) × (write_out V f ≡ (ok tt, g))
            × (written g.device ≡ text f)
            × Able g.device n
      go [] e =
          let none_more : length f.buffered + n ≡ n = omega (arith, ap length e) in
          (
            f,
            ground arith,
            sym (ap (λ s. written f.device ++ s) e ∙ append-nil _),
            subst (λ k. Able f.device k) none_more a,
          )
      go (c ∷ b) e =
          let (d, q, more, left) =
            accepts f.device c b n (subst (λ s. length s ≤ buffer_size) e short)
              (subst (λ s. Able f.device (length s + n)) e a) in
          (
            record f { device = d },
            ground arith,
            more ∙ sym (ap (λ s. written f.device ++ s) e),
            left,
          )

  flush_idle : (f : File V) → f.mode ≡ idle → flush V f ≡ reset_buffer V f
  unfolding flush
  flush_idle f e = ground arith

  flush_writing :
      (f : File V)
      → f.mode ≡ writing
      → flush V f ≡ and_then (write_out V f) (λ _ g. reset_buffer V g)
  unfolding flush
  flush_writing f e = ground arith

  -- flush() hands all that was put to the device.
  pub flush_able :
      (f : File V) (n : ℕ)
      → IsWritable V f
      → Able f.device (length f.buffered + n)
      → (g : File V) × (flush V f ≡ (ok tt, g))
        × (written g.device ≡ text f)
        × IsFlushed V g
        × Able g.device n
  flush_able f n v a = go f.mode refl
    where
      go :
          (m : Mode)
          → f.mode ≡ m
          → (g : File V) × (flush V f ≡ (ok tt, g))
            × (written g.device ≡ text f)
            × IsFlushed V g
            × Able g.device n
      go idle e =
          let none_more : length f.buffered + n ≡ n = omega (arith, ap length (v.idle_empty e)) in
          let (g, q, same_text, w, b) =
            reset_buffer_lem f n (subst (λ k. Able f.device k) none_more a) in
          (
            g,
            flush_idle f e ∙ q,
            same_text ∙ sym (ap (λ s. written f.device ++ s) (v.idle_empty e) ∙ append-nil _),
            w,
            b,
          )
      go reading e = absurd (v.not_reading e)
      go writing e =
          let (g, q, all, b) = write_out_lem f n v.fits a in
          let (h, p, same_text, w, b2) = reset_buffer_lem g n b in
          (h, flush_writing f e ∙ rw q p, same_text ∙ all, w, b2)
