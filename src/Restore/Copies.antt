-- ===== src/Restore/Copies.antt =====
-- A file that was saved by its hash is copied out of the repository as a whole.
use hbackup.Prelude.{
  ℕ, zero, suc, ◌<◌, ◌≡◌, refl, sym, ap, ◌∙◌, [], ◌∷◌, ◌++◌, append_assoc, append-nil, false,
  length, length-append, Bytes, arith,
}
use hbackup.Outcome.{ok}
use hbackup.Users.{Database}
use hbackup.File.{File, getbytes, buffer_size}
use hbackup.File.Read.{IsReader, IsReadable, stream}
use hbackup.File.Blocks.{Block, getbytes-Block}
use hbackup.File.Taker.{IsWritable}
use hbackup.File.Write.{IsWriter, text, put_all_lem, flush_lem}
use hbackup.Host.{Host, file_of}
use hbackup.Restore.{Options, copy_block, copy_loop}

module _ (H R : Host) (opts : Options) (passwd group : Database) (D : IsReader (file_of R))
    (W : IsWriter (file_of H)) where
  -- The loop ends, and what was left to read stands behind what had been put.
  abbrev Copied : ℕ → File (file_of R) → File (file_of H) → Type 0
  Copied fuel src dst =
      (src1 : File (file_of R)) × (dst1 : File (file_of H)) × (copy_loop H R opts passwd group fuel
          src dst
        ≡ (ok tt, (src1, dst1)))
      × (W.written dst1.device ≡ text (file_of H) W dst ++ stream (file_of R) D src)

  abbrev Copies : ℕ → Type 0
  Copies fuel =
      (src : File (file_of R)) (dst : File (file_of H))
      → length (stream (file_of R) D src) < fuel
      → IsReadable (file_of R) D src
      → IsWritable (file_of H) dst
      → Copied fuel src dst

  round :
      (fuel : ℕ) (src : File (file_of R)) (dst : File (file_of H)) (chunk : Bytes)
      (src1 : File (file_of R))
      → Copies fuel
      → length (stream (file_of R) D src) < suc fuel
      → IsWritable (file_of H) dst
      → getbytes (file_of R) buffer_size false src ≡ (ok chunk, src1)
      → Block (file_of R) D src buffer_size false chunk src1
      → Copied (suc fuel) src dst
  unfolding copy_loop copy_block
  round fuel src dst [] src1 again short v q b =
      let (dst1, p, all, w) = flush_lem (file_of H) W dst v in
      (
        src1,
        dst1,
        rw (q, p) refl,
        all
            ∙ sym (
                ap (λ s. text (file_of H) W dst ++ s) (b.at_end refl)
                ∙ append-nil (text (file_of H) W dst)),
      )
  round fuel src dst (c ∷ s) src1 again short v q b =
      let (dst1, p, t, u) = put_all_lem (file_of H) W (c ∷ s) dst v in
      let (src2, dst2, r, all) =
        again src1 dst1
          (omega (arith, ap length b.split, length-append (c ∷ s) (stream (file_of R) D src1)))
          b.readable u in
      (
        src2,
        dst2,
        rw (q, p) r,
        all
            ∙ ap (λ x. x ++ stream (file_of R) D src1) t
            ∙ append_assoc (text (file_of H) W dst) (c ∷ s) (stream (file_of R) D src1)
            ∙ ap (λ x. text (file_of H) W dst ++ x) (sym b.split),
      )

  -- With more fuel than bytes left to read, the copying of a file out of the repository comes to an
  -- end, and every byte that was left stands on the device behind what had been put there, however
  -- large the pieces are in which the repository delivers them; the source can be read, and the
  -- target written.
  pub copy_loop-whole :
      (fuel : ℕ) (src : File (file_of R)) (dst : File (file_of H))
      → length (stream (file_of R) D src) < fuel
      → IsReadable (file_of R) D src
      → IsWritable (file_of H) dst
      → (src1 : File (file_of R)) × (dst1 : File (file_of H)) × (copy_loop H R opts passwd group
            fuel src dst
          ≡ (ok tt, (src1, dst1)))
        × (W.written dst1.device ≡ text (file_of H) W dst ++ stream (file_of R) D src)
  copy_loop-whole zero src dst short v w = absurd (omega arith)
  copy_loop-whole (suc fuel) src dst short v w =
      let (chunk, src1, q, b) =
        getbytes-Block (file_of R) D buffer_size false src (omega arith) v in
      round fuel src dst chunk src1 (copy_loop-whole fuel) short w q b
