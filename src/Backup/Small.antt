-- ===== src/Backup/Small.antt =====
-- How a backup reads a file that it stores by content.
use hbackup.Prelude.{
  ℕ, zero, suc, ◌+◌, ◌-◌, ◌<◌, ◌≤◌, ◌≡◌, refl, sym, ap, ◌∙◌, [], ◌∷◌, ◌++◌, append_assoc, take,
  take-append, if◌then◌else◌, length, length-append, true, false, Bytes, ltb, Bool-cases, inl, inr,
  arith,
}
use hbackup.Outcome.{Result, ok, fatal}
use hbackup.File.{File, getbytes}
use hbackup.File.Read.{IsReader, IsReadable, stream}
use hbackup.File.Blocks.{Block, getbytes-Block}
use hbackup.Host.{Host}
use hbackup.File.{Device}
use hbackup.Users.{Database}
use hbackup.Backup.{Tree, reader_of, Options}
use hbackup.Backup.Objects.{read_small}

-- The first bytes of a file, which is to have that many.
abbrev pub first_bytes : ℕ → Bytes → Result Bytes
first_bytes size s = if ltb (length s) size then fatal else ok (take size s)

module _ (T : Tree) (R : Host) (V N : Device) (opts : Options) (passwd group : Database)
    (word : Bytes → ℕ) (D : IsReader (reader_of T)) where
  abbrev Reads : ℕ → Type 0
  Reads fuel =
      (size : ℕ) (buffer : Bytes) (f : File (reader_of T))
      → length buffer ≤ size
      → size - length buffer < fuel
      → IsReadable (reader_of T) D f
      → (read_small T R V N opts passwd group word fuel size buffer f).0
        ≡ first_bytes size (buffer ++ stream (reader_of T) D f)

  round :
      (fuel size : ℕ) (buffer : Bytes) (f : File (reader_of T)) (chunk : Bytes)
      (g : File (reader_of T))
      → Reads fuel
      → size - length buffer < suc fuel
      → length buffer < size
      → getbytes (reader_of T) (size - length buffer) false f ≡ (ok chunk, g)
      → Block (reader_of T) D f (size - length buffer) false chunk g
      → (read_small T R V N opts passwd group word (suc fuel) size buffer f).0
        ≡ first_bytes size (buffer ++ stream (reader_of T) D f)
  unfolding read_small
  round fuel size buffer f [] g again short less q b =
      let e : ltb (length buffer) size ≡ true = ground arith in
      let none_left = b.at_end refl in
      let over : ltb (length (buffer ++ stream (reader_of T) D f)) size ≡ true =
        ground (arith, length-append buffer (stream (reader_of T) D f), ap length none_left) in
      rw (e, q, over) refl
  round fuel size buffer f (c ∷ s) g again short less q b =
      let e : ltb (length buffer) size ≡ true = ground arith in
      rw (e, q)
        (again size (buffer ++ c ∷ s) g (omega (arith, length-append buffer (c ∷ s), b.small))
            (omega (arith, length-append buffer (c ∷ s))) b.readable
          ∙ ap (first_bytes size) (
              append_assoc buffer (c ∷ s) (stream (reader_of T) D g)
              ∙ ap (λ t. buffer ++ t) (sym b.split)))

  read_small-Reads : (fuel : ℕ) → Reads fuel
  unfolding read_small
  read_small-Reads zero size buffer f fits short v = absurd (omega arith)
  read_small-Reads (suc fuel) size buffer f fits short v =
      elim (Bool-cases (ltb (length buffer) size)) [
        | inl e ↦
            let less : length buffer < size = ground arith in
            let (chunk, g, q, b) =
              getbytes-Block (reader_of T) D (size - length buffer) false f (omega arith) v in
            round fuel size buffer f chunk g (read_small-Reads fuel) short less q b
        | inr e ↦
            let full : length buffer ≡ size = ground arith in
            let over : ltb (length (buffer ++ stream (reader_of T) D f)) size ≡ false =
              ground (arith, length-append buffer (stream (reader_of T) D f)) in
            rw (e, over)
              (ap (λ t. ok t)
                (sym (take-append buffer (stream (reader_of T) D f))
                  ∙ ap (λ n. take n (buffer ++ stream (reader_of T) D f)) full))
      ]

  -- With the fuel that put_small gives it, the loop that reads a small file comes to an end. It
  -- returns the bytes that lstat() promised, however large the pieces are in which they come, and
  -- ends the process exactly if there are fewer.
  pub read_small-first_bytes :
      (size : ℕ) (f : File (reader_of T))
      → IsReadable (reader_of T) D f
      → (read_small T R V N opts passwd group word (size + 1) size [] f).0
        ≡ first_bytes size (stream (reader_of T) D f)
  read_small-first_bytes size f v =
      read_small-Reads (size + 1) size [] f (omega arith) (omega arith) v
