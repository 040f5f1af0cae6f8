-- ===== src/Hashing.antt =====
-- hash.cc: hashfile(), which reads a file in blocks or maps it in chunks. SHA-1 is a parameter.
pub mod Laws
use hbackup.Prelude.{
  ℕ, zero, suc, ◌+◌, ◌-◌, [], ◌∷◌, Bool, true, false, Bytes, length, take, drop, ltb, ◌==◌,
  if◌then◌else◌,
}
use hbackup.Outcome.{Result, ok, err, fatal, ◌>>=◌, and_then}
use hbackup.File.{Device, File, getbytes, buffer_size}

-- MAXMAP
abbrev pub maxmap : ℕ
maxmap = 268435456

-- SHA1Reset(), SHA1Input() and SHA1Result(); an error code is thrown as a HashError.
pub record Sha1 : Type 1 where
  pub Context : Type 0
  pub reset : Result Context
  pub input : Context → Bytes → Result Context
  pub result : Context → Result Bytes

module _ (S : Sha1) where
  open S use {Context, reset, input, result}

  -- `while(n < sb.st_size)`, over the bytes of the file that are mapped. A round maps a byte at
  -- least, so fuel beyond their number is never used up.
  unfoldable pub map_loop : ℕ → Bytes → ℕ → Context → Result Context
  map_loop zero bytes n c = fatal
  map_loop (suc fuel) bytes n c =
      let left = length bytes - n in
      let size = if ltb maxmap left then maxmap else left in
      elim (ltb n (length bytes)) [
        | true ↦ do c1 ← input c (take size (drop n bytes)); map_loop fuel bytes (n + size) c1
        | false ↦ ok c
      ]

  -- hashfile() with `mmap_hint` on the local file system, for a file that can be mapped.
  unfoldable pub hash_mapped : Bytes → Result Bytes
  unfolding map_loop
  hash_mapped bytes = do c ← reset; c1 ← map_loop (length bytes + 1) bytes 0 c; result c1

  module _ (V : Device) where
    -- `while((n = f->getbytes(buffer, sizeof buffer, false)))`; the fuel bounds the blocks.
    unfoldable pub read_loop : ℕ → Context → File V → Result Context × File V
    unfolding getbytes
    read_loop zero c f = (fatal, f)
    read_loop (suc fuel) c f = and_then (getbytes V buffer_size false f) λ block g. elim block [
      | [] ↦ (ok c, g)
      | b ∷ bs ↦ and_then (input c (b ∷ bs), g) (λ c1 g1. read_loop fuel c1 g1)
    ]

    -- hashfile() on an open file.
    unfoldable pub hash_read : ℕ → File V → Result Bytes × File V
    unfolding read_loop
    hash_read fuel f =
        and_then (reset, f) λ c f1. and_then (read_loop fuel c f1) (λ c1 f2. (result c1, f2))
