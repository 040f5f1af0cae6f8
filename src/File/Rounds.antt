-- ===== src/File/Rounds.antt =====
-- One round of getbytes(): a chunk from the front of what is left to read.
use hbackup.Prelude.{
  ℕ, zero, suc, ◌<◌, ◌≤◌, ◌≡◌, refl, sym, ap, ◌∙◌, inl, inr, [], ◌∷◌, ◌++◌, append_assoc, true,
  ◌&&◌, not, length, take, drop, take-append-drop, length-take_le, Bytes, arith, ltb, ◌==◌,
  if◌then◌else◌, Bool-cases,
}
use hbackup.Outcome.{ok}
use hbackup.File.{Device, reading, File, Round, break, got, buffer_size, copy_out, getbytes_round}
use hbackup.File.Read.{IsReader, stream, IsReadable, Filled, fill-Filled}

module _ (V : Device) (R : IsReader V) where
  open R use {content, delivers}

  -- A chunk of at most `max` bytes was taken from the front, and none only at the end.
  pub record Delivered (f : File V) (max : ℕ) (chunk : Bytes) (g : File V) : Type 0 where
    pub readable : IsReadable V R g
    pub is_reading : g.mode ≡ reading
    pub split : stream V R f ≡ chunk ++ stream V R g
    pub small : length chunk ≤ max
    pub at_end : chunk ≡ [] → (stream V R f ≡ []) × (g.eof ≡ true)

  copy_out_direct :
      (max : ℕ) (f : File V) (chunk : Bytes) (d' : V.State)
      → IsReadable V R f
      → f.mode ≡ reading
      → f.buffered ≡ []
      → V.readbytes f.device max ≡ (ok chunk, d')
      → content f.device ≡ chunk ++ content d'
      → length chunk ≤ max
      → (chunk ≡ [] → content f.device ≡ [])
      → (g : File V) × (copy_out V max [] f ≡ (ok (got chunk), g)) × Delivered f max chunk g
  unfolding copy_out
  copy_out_direct max f [] d' v m empty q split small stop =
      let nothing : stream V R f ≡ [] = ap (λ s. s ++ content f.device) empty ∙ stop refl in
      let left : f.buffered ++ content d' ≡ [] =
        ap (λ s. s ++ content d') empty ∙ sym split ∙ stop refl in
      (
        record f { device = d'; eof = true },
        rw q,
        record {
          readable = record {
            not_writing = v.not_writing;
            idle_empty = λ _. empty;
            eof_empty = λ _. left;
          };
          is_reading = m;
          split = nothing ∙ sym left;
          small = small;
          at_end = λ _. (nothing, refl);
        },
      )
  copy_out_direct max f (c ∷ chunk) d' v m empty q split small stop = (
    record f { device = d' },
    rw q,
    record {
      readable = record {
        not_writing = v.not_writing;
        idle_empty = λ _. empty;
        eof_empty = λ e. cc (v.eof_empty e, ap (λ s. s ++ content f.device) empty);
      };
      is_reading = m;
      split =
          ap (λ s. s ++ content f.device) empty
          ∙ split
          ∙ sym (ap (λ s. c ∷ chunk ++ (s ++ content d')) empty);
      small = small;
      at_end = λ e. cc;
    },
  )

  copy_out_buffered :
      (max : ℕ) (f : File V) (c : ℕ) (b : Bytes)
      → IsReadable V R f
      → f.mode ≡ reading
      → f.buffered ≡ c ∷ b
      → (g : File V) × (copy_out V (suc max) (c ∷ b) f ≡ (ok (got (take (suc max) (c ∷ b))), g))
        × Delivered f (suc max) (take (suc max) (c ∷ b)) g
  unfolding copy_out
  copy_out_buffered max f c b v m e = (
    record f { buffered = drop max b },
    refl,
    record {
      readable = record {
        not_writing = v.not_writing;
        idle_empty = λ i. cc (m, i);
        eof_empty = λ q. cc (v.eof_empty q, ap (λ s. s ++ content f.device) e);
      };
      is_reading = m;
      split =
          ap (λ s. s ++ content f.device) (e ∙ sym (take-append-drop (suc max) (c ∷ b)))
          ∙ append_assoc (take (suc max) (c ∷ b)) (drop max b) (content f.device);
      small = length-take_le (suc max) (c ∷ b);
      at_end = λ q. cc;
    },
  )

  copy_out-Delivered :
      (max : ℕ) (f : File V)
      → 0 < max
      → IsReadable V R f
      → f.mode ≡ reading
      → (chunk : Bytes) × (g : File V) × (copy_out V max f.buffered f ≡ (ok (got chunk), g))
        × Delivered f max chunk g
  copy_out-Delivered zero f h v m = absurd (omega arith)
  copy_out-Delivered (suc max) f h v m = go f.buffered refl
    where
      go :
          (b : Bytes)
          → f.buffered ≡ b
          → (chunk : Bytes) × (g : File V) × (copy_out V (suc max) f.buffered f
              ≡ (ok (got chunk), g))
            × Delivered f (suc max) chunk g
      go [] e =
          let (chunk, d', q, split, small, stop) = delivers f.device (suc max) h in
          let (g, p, w) = copy_out_direct (suc max) f chunk d' v m e q split small stop in
          (chunk, g, ap (λ s. copy_out V (suc max) s f) e ∙ p, w)
      go (c ∷ b) e =
          let (g, p, w) = copy_out_buffered max f c b v m e in
          (take (suc max) (c ∷ b), g, ap (λ s. copy_out V (suc max) s f) e ∙ p, w)

  -- What a round leaves.
  abbrev pub RoundOf : File V → ℕ → Round → File V → Type 0
  RoundOf f max break g = (stream V R f ≡ []) × (stream V R g ≡ []) × IsReadable V R g
  RoundOf f max (got chunk) g = Delivered f max chunk g

  after_fill :
      (max : ℕ) (f g : File V) (n : ℕ)
      → 0 < max
      → f.buffered ≡ []
      → Filled V R f n g
      → (o : Round) × (h : File V) × ((if n == 0
            then (ok break, g)
            else copy_out V max g.buffered g)
          ≡ (ok o, h))
        × RoundOf f max o h
  after_fill max f g n h empty w = elim (Bool-cases (n == 0)) [
    | inl e ↦
        let nothing : content f.device ≡ [] = w.at_end (ground arith) in
        (break, g, rw e, (same_stream ∙ nothing, w.kept ∙ nothing, w.readable))
    | inr e ↦
        let (chunk, k, q, d) = copy_out-Delivered max g h w.readable w.is_reading in
        (
          got chunk,
          k,
          rw e q,
          record {
            readable = d.readable;
            is_reading = d.is_reading;
            split = same_stream ∙ sym w.kept ∙ d.split;
            small = d.small;
            at_end = λ e. (same_stream ∙ sym w.kept ∙ (d.at_end e).0, (d.at_end e).1);
          },
        )
  ]
    where
      same_stream : stream V R f ≡ content f.device
      same_stream = ap (λ s. s ++ content f.device) empty

  pub getbytes_round-RoundOf :
      (max : ℕ) (f : File V)
      → 0 < max
      → IsReadable V R f
      → f.mode ≡ reading
      → (o : Round) × (g : File V) × (getbytes_round V max f ≡ (ok o, g)) × RoundOf f max o g
  unfolding getbytes_round
  getbytes_round-RoundOf max f h v m =
      elim (Bool-cases (ltb (length f.buffered) 1 && ltb max buffer_size && not f.eof)) [
        | inl e ↦
            let empty : f.buffered ≡ [] = ground arith in
            let (n, g, q, w) = fill-Filled V R f v empty in
            let (o, k, p, r) = after_fill max f g n h empty w in (o, k, rw (e, q) p, r)
        | inr e ↦ let (chunk, k, q, d) = copy_out-Delivered max f h v m in (got chunk, k, rw e q, d)
      ]
