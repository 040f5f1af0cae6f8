-- ===== src/File/Blocks.antt =====
-- What getbytes() returns: the next bytes, as many as were asked for where `all` is set.
use hbackup.Prelude.{
  ℕ, zero, suc, ◌+◌, ◌-◌, ◌<◌, ◌≤◌, ◌≡◌, ◌≢◌, refl, sym, ap, ◌∙◌, ◌⊎◌, inl, inr, [], ◌++◌,
  append_assoc, append-nil, Bool, true, ◌&&◌, not, length, length-append, length-pos, left_nil,
  Bytes, arith, ltb, ◌==◌, Bool-cases,
}
use hbackup.Outcome.{ok}
use hbackup.File.{
  Device, Mode, idle, reading, writing, File, Round, break, got, fill, getbytes_round,
  getbytes_loop, start_reading, getbytes,
}
use hbackup.File.Read.{IsReader, stream, IsReadable, fill-Filled}
use hbackup.File.Rounds.{RoundOf, getbytes_round-RoundOf}

module _ (V : Device) (R : IsReader V) where
  open R use {content, delivers}

  -- What the whole call leaves: a prefix of what was left to read, and all that was asked for or all
  -- that there was if `all` is set.
  pub record Block (f : File V) (max : ℕ) (all : Bool) (chunk : Bytes) (g : File V) : Type 0 where
    pub readable : IsReadable V R g
    pub split : stream V R f ≡ chunk ++ stream V R g
    pub small : length chunk ≤ max
    pub at_end : chunk ≡ [] → stream V R f ≡ []
    pub full : all ≡ true → (length chunk ≡ max) ⊎ (stream V R g ≡ [])

  Blocks : ℕ → Type 0
  Blocks fuel =
      (max : ℕ) (all : Bool) (out : Bytes) (f : File V)
      → 0 < max
      → max < fuel
      → IsReadable V R f
      → f.mode ≡ reading
      → (chunk : Bytes) × (g : File V) × (getbytes_loop V fuel max all out f
          ≡ (ok (out ++ chunk), g))
        × Block f max all chunk g

  after_round :
      (fuel max : ℕ) (all : Bool) (out : Bytes) (f : File V) (o : Round) (g : File V)
      → Blocks fuel
      → 0 < max
      → max < suc fuel
      → getbytes_round V max f ≡ (ok o, g)
      → RoundOf V R f max o g
      → (chunk : Bytes) × (h : File V) × (getbytes_loop V (suc fuel) max all out f
          ≡ (ok (out ++ chunk), h))
        × Block f max all chunk h
  unfolding getbytes_loop Blocks
  after_round fuel max all out f break g ih pos small q (nothing, left, v) = (
    [],
    g,
    rw (q, append-nil),
    record {
      readable = v;
      split = nothing ∙ sym left;
      small = omega arith;
      at_end = λ _. nothing;
      full = λ _. inr left;
    },
  )
  after_round fuel max all out f (got c) g ih pos small q d =
      elim (Bool-cases (all && not g.eof && ltb 0 (max - length c))) [
        | inl e ↦
            let some_read : c ≢ [] = λ n. absurd (ground (arith, (d.at_end n).1)) in
            let shorter : 0 < length c = length-pos c some_read in
            let (c2, h, p, b) =
              ih (max - length c) all (out ++ c) g (ground arith) (omega arith) d.readable
                d.is_reading in
            (
              c ++ c2,
              h,
              rw (q, e) (p ∙ rw append_assoc),
              record {
                readable = b.readable;
                split = d.split ∙ ap (λ s. c ++ s) b.split ∙ sym (append_assoc c c2 _);
                small = omega (arith, length-append c c2, b.small, d.small);
                at_end = λ n. (d.at_end (left_nil c c2 n)).0;
                full = λ a. elim (b.full a) [
                  | inl k ↦ inl (omega (arith, length-append c c2, d.small))
                  | inr k ↦ inr k
                ];
              },
            )
        | inr e ↦ (
          c,
          g,
          rw (q, e),
          record {
            readable = d.readable;
            split = d.split;
            small = d.small;
            at_end = λ n. (d.at_end n).0;
            full = λ a. elim (Bool-cases g.eof) [
              | inl t ↦ inr (d.readable.eof_empty t)
              | inr t ↦ inl (ground (arith, d.small))
            ];
          },
        )
      ]

  getbytes_loop-Block : (fuel : ℕ) → Blocks fuel
  unfolding Blocks
  getbytes_loop-Block zero max all out f pos small v m = absurd (omega arith)
  getbytes_loop-Block (suc fuel) max all out f pos small v m =
      let (o, g, q, r) = getbytes_round-RoundOf V R max f pos v m in
      after_round fuel max all out f o g (getbytes_loop-Block fuel) pos small q r

  -- What the start of a call leaves.
  record Started (f : File V) (n : ℕ) (g : File V) : Type 0 where
    readable : IsReadable V R g
    is_reading : g.mode ≡ reading
    kept : stream V R g ≡ stream V R f
    at_end : n ≡ 0 → stream V R f ≡ []

  start_idle :
      (f : File V)
      → IsReadable V R f
      → f.mode ≡ idle
      → (n : ℕ) × (g : File V) × (fill V f ≡ (ok n, g)) × Started f n g
  start_idle f v e =
      let (n, g, q, w) = fill-Filled V R f v (v.idle_empty e) in
      let same_stream : stream V R f ≡ content f.device =
        ap (λ s. s ++ content f.device) (v.idle_empty e) in
      (
        n,
        g,
        q,
        record {
          readable = w.readable;
          is_reading = w.is_reading;
          kept = w.kept ∙ sym same_stream;
          at_end = λ z. same_stream ∙ w.at_end z;
        },
      )

  start_reading-Started :
      (f : File V)
      → IsReadable V R f
      → (n : ℕ) × (g : File V) × (start_reading V f ≡ (ok n, g)) × Started f n g
  start_reading-Started f v = go f.mode refl
    where
      go :
          (m : Mode)
          → f.mode ≡ m
          → (n : ℕ) × (g : File V) × (start_reading V f ≡ (ok n, g)) × Started f n g
      go idle e =
          let (n, g, q, w) = start_idle f v e in
          (n, g, unfold start_reading in ground (arith, q), w)
      go reading e = (
        1,
        f,
        unfold start_reading in ground arith,
        record { readable = v; is_reading = e; kept = refl; at_end = λ z. absurd (omega arith) },
      )
      go writing e = absurd (v.not_writing e)

  -- A positive getbytes() succeeds. It returns the next bytes, at most `max` of them, and none only
  -- at the end; with `all` it returns `max` bytes unless the end comes first.
  pub getbytes-Block :
      (max : ℕ) (all : Bool) (f : File V)
      → 0 < max
      → IsReadable V R f
      → (chunk : Bytes) × (g : File V) × (getbytes V max all f ≡ (ok chunk, g))
        × Block f max all chunk g
  unfolding getbytes Blocks
  getbytes-Block max all f pos v =
      let (n, g, q, w) = start_reading-Started f v in
      elim (Bool-cases (n == 0)) [
        | inl e ↦
            let nothing = w.at_end (ground arith) in
            (
              [],
              g,
              rw (q, e),
              record {
                readable = w.readable;
                split = sym w.kept;
                small = omega arith;
                at_end = λ _. nothing;
                full = λ _. inr (w.kept ∙ nothing);
              },
            )
        | inr e ↦
            let (chunk, h, p, b) =
              getbytes_loop-Block (max + 1) max all [] g pos (omega arith) w.readable
                w.is_reading in
            (
              chunk,
              h,
              rw (q, e) p,
              record {
                readable = b.readable;
                split = sym w.kept ∙ b.split;
                small = b.small;
                at_end = λ z. sym w.kept ∙ b.at_end z;
                full = b.full;
              },
            )
      ]
