-- ===== src/Hashing/Laws.antt =====
-- Both ways of hashfile() hash the whole content of the file.
use Prim.Native.Nat.{◌<◌, ◌≤◌}
use hbackup.Prelude.{
  ℕ, zero, suc, ◌+◌, ◌-◌, ◌≡◌, refl, sym, ap, ◌∙◌, [], ◌∷◌, ◌++◌, append_assoc, append-nil, false,
  Bytes, length, length-append, length-drop, take, drop, take-append-drop, drop-drop, nil_of_length,
  ltb, ltb→lt, if◌then◌else◌, arith, Bool-cases, inl, inr,
}
use hbackup.Outcome.{ok}
use hbackup.File.{Device, File, getbytes, buffer_size}
use hbackup.File.Read.{IsReader, stream, IsReadable}
use hbackup.File.Blocks.{Block, getbytes-Block}
use hbackup.Hashing.{Sha1, maxmap, map_loop, hash_mapped, read_loop, hash_read}

-- What SHA-1 is taken to do: a context holds the bytes it was given, in any number of pieces, and
-- the result is a function of them. There is a limit to their number.
pub record IsSha1 (S : Sha1) : Type 0 where
  pub digest : Bytes → Bytes
  pub limit : ℕ
  pub held : S.Context → Bytes
  pub starts : (c : S.Context) × (S.reset ≡ ok c) × (held c ≡ [])
  pub absorbs :
      (c : S.Context) (s : Bytes)
      → length (held c ++ s) < limit
      → (c' : S.Context) × (S.input c s ≡ ok c') × (held c' ≡ held c ++ s)
  pub ends : (c : S.Context) → S.result c ≡ ok (digest (held c))

module _ (S : Sha1) (H : IsSha1 S) (V : Device) (R : IsReader V) where
  -- What the loop leaves: a context that has taken in what was left to read.
  Absorbed : ℕ → S.Context → File V → Type 0
  Absorbed fuel c f =
      (c' : S.Context) × (g : File V) × (read_loop S V fuel c f ≡ (ok c', g))
      × (H.held c' ≡ H.held c ++ stream V R f)

  Absorbs : ℕ → Type 0
  Absorbs fuel =
      (c : S.Context) (f : File V)
      → length (stream V R f) < fuel
      → length (H.held c ++ stream V R f) < H.limit
      → IsReadable V R f
      → Absorbed fuel c f

  absorb_step :
      (fuel : ℕ) (c : S.Context) (f : File V) (chunk : Bytes) (g : File V)
      → Absorbs fuel
      → length (stream V R f) < suc fuel
      → length (H.held c ++ stream V R f) < H.limit
      → getbytes V buffer_size false f ≡ (ok chunk, g)
      → Block V R f buffer_size false chunk g
      → Absorbed (suc fuel) c f
  unfolding read_loop Absorbs Absorbed
  absorb_step fuel c f [] g again more short q b =
      (c, g, rw q refl, sym (ap (λ s. H.held c ++ s) (b.at_end refl) ∙ append-nil (H.held c)))
  absorb_step fuel c f (x ∷ xs) g again more short q b =
      let parts : H.held c ++ stream V R f ≡ (H.held c ++ (x ∷ xs)) ++ stream V R g =
        ap (λ s. H.held c ++ s) b.split ∙ sym (append_assoc (H.held c) (x ∷ xs) (stream V R g)) in
      let (c1, p, same_bytes) =
        H.absorbs c (x ∷ xs)
          (omega (arith, ap length parts, length-append (H.held c ++ (x ∷ xs)) (stream V R g))) in
      let joined : H.held c1 ++ stream V R g ≡ H.held c ++ stream V R f =
        ap (λ s. s ++ stream V R g) same_bytes ∙ sym parts in
      let (c2, h, r, all) =
        again c1 g (omega (arith, ap length b.split, length-append (x ∷ xs) (stream V R g)))
          (omega (arith, ap length joined)) b.readable in
      (c2, h, rw (q, p) r, all ∙ joined)

  read_loop-Absorbs : (fuel : ℕ) → Absorbs fuel
  unfolding Absorbs
  read_loop-Absorbs zero c f more short v = absurd (omega arith)
  read_loop-Absorbs (suc fuel) c f more short v =
      let (chunk, g, q, b) = getbytes-Block V R buffer_size false f (omega arith) v in
      absorb_step fuel c f chunk g (read_loop-Absorbs fuel) more short q b

  -- Reading a file in blocks, however large the pieces are that its device delivers, gives the
  -- digest of all that was left to read, if that is less than the fuel and than the limit of SHA-1.
  pub hash_read-digest :
      (fuel : ℕ) (f : File V)
      → length (stream V R f) < fuel
      → length (stream V R f) < H.limit
      → IsReadable V R f
      → (g : File V) × (hash_read S V fuel f ≡ (ok (H.digest (stream V R f)), g))
  unfolding hash_read Absorbed Absorbs
  hash_read-digest fuel f more short v =
      let (c, q, none_held) = H.starts in
      let whole : H.held c ++ stream V R f ≡ stream V R f = ap (λ s. s ++ stream V R f) none_held in
      let (c1, g, r, all) = read_loop-Absorbs fuel c f more (omega (arith, ap length whole)) v in
      (g, rw (q, r, H.ends c1) (ap (λ s. (ok (H.digest s), g)) (all ∙ whole)))

chunk_size : ℕ → ℕ
chunk_size left = if ltb maxmap left then maxmap else left

chunk_size-pos : (left : ℕ) → 0 < left → (0 < chunk_size left) × (chunk_size left ≤ left)
unfolding chunk_size
chunk_size-pos left h = ground arith

module _ (S : Sha1) (H : IsSha1 S) where
  map_loop_lem :
      (fuel : ℕ) (bytes : Bytes) (n : ℕ) (c : S.Context)
      → length bytes - n < fuel
      → length (H.held c ++ drop n bytes) < H.limit
      → (c' : S.Context) × (map_loop S fuel bytes n c ≡ ok c')
        × (H.held c' ≡ H.held c ++ drop n bytes)
  unfolding map_loop chunk_size
  map_loop_lem zero bytes n c more short = absurd (omega arith)
  map_loop_lem (suc fuel) bytes n c more short = elim (Bool-cases (ltb n (length bytes))) [
    | inr e ↦
        let past : length bytes - n ≡ 0 = ground arith in
        let nothing : drop n bytes ≡ [] =
          nil_of_length (drop n bytes) (length-drop n bytes ∙ past) in
        (c, rw (e, map_loop) refl, sym (ap (λ s. H.held c ++ s) nothing ∙ append-nil (H.held c)))
    | inl e ↦
        let size = chunk_size (length bytes - n) in
        let inside : n < length bytes = ltb→lt n (length bytes) e in
        let bounds = chunk_size-pos (length bytes - n) (omega (arith, inside)) in
        let chunk = take size (drop n bytes) in
        let parts : H.held c ++ drop n bytes ≡ (H.held c ++ chunk) ++ drop (n + size) bytes =
          ap (λ s. H.held c ++ s)
            (sym (take-append-drop size (drop n bytes))
              ∙ ap (λ s. chunk ++ s) (drop-drop n size bytes))
          ∙ sym (append_assoc (H.held c) chunk (drop (n + size) bytes)) in
        let (c1, p, same_bytes) = H.absorbs c chunk (
          omega
            (arith, ap length parts, length-append (H.held c ++ chunk) (drop (n + size) bytes))) in
        let joined : H.held c1 ++ drop (n + size) bytes ≡ H.held c ++ drop n bytes =
          ap (λ s. s ++ drop (n + size) bytes) same_bytes ∙ sym parts in
        let (c2, r, all) =
          map_loop_lem fuel bytes (n + size) c1 (omega (arith, bounds, inside))
            (omega (arith, ap length joined)) in
        (c2, rw (e, map_loop, p) r, all ∙ joined)
  ]

  -- Mapping a file in chunks gives the digest of its content, if that is below the limit of SHA-1.
  pub hash_mapped-digest :
      (bytes : Bytes) → length bytes < H.limit → hash_mapped S bytes ≡ ok (H.digest bytes)
  unfolding hash_mapped
  hash_mapped-digest bytes short =
      let (c, q, none_held) = H.starts in
      let whole : H.held c ++ drop 0 bytes ≡ bytes = ap (λ s. s ++ bytes) none_held in
      let (c1, r, all) =
        map_loop_lem (length bytes + 1) bytes 0 c (omega arith) (omega (arith, ap length whole)) in
      rw (q, r, H.ends c1) (ap (λ s. ok (H.digest s)) (all ∙ whole))
