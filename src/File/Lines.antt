-- ===== src/File/Lines.antt =====
-- What getline() returns: the text up to the next newline, or what is left before the end.
use hbackup.Prelude.{
  ℕ, zero, suc, ◌<◌, ◌≡◌, ap, [], ◌∷◌, ◌++◌, append_assoc, append-nil, Option, none, some, length,
  Bytes, arith, ltb, ◌==◌, if◌then◌else◌, Bool-cases, inl, inr, Lacks,
}
use hbackup.Outcome.{ok}
use hbackup.File.{Device, File, getch, getline_loop, getline}
use hbackup.File.Read.{IsReader, stream, IsReadable, Took, getch-Took, first, rest}

-- The line that begins a text, and the text behind it.
unfoldable pub line_from : Bytes → Bytes → Option Bytes × Bytes
line_from r [] = (if ltb 0 (length r) then some r else none, [])
line_from r (c ∷ s) =
    let more = line_from (r ++ c ∷ []) s in if c == b'\n' then (some r, s) else more

pub line_from_newline :
    (line r s : Bytes) → Lacks b'\n' line → line_from r (line ++ b'\n' ∷ s) ≡ (some (r ++ line), s)
unfolding line_from
line_from_newline [] r s _ = rw append-nil
line_from_newline (c ∷ line) r s (hc, h) =
    ground (arith, line_from_newline line (r ++ c ∷ []) s h, append_assoc r (c ∷ []) line)

module _ (V : Device) (R : IsReader V) where
  -- What a call with so much fuel does, on every file with less left to read.
  Reads : ℕ → Type 0
  Reads fuel =
      (r : Bytes) (f : File V)
      → IsReadable V R f
      → length (stream V R f) < fuel
      → (g : File V) × (getline_loop V fuel r f ≡ (ok (line_from r (stream V R f)).0, g))
        × Took V R (line_from r (stream V R f)).1 g

  getline_step :
      (fuel : ℕ) (r s : Bytes) (f g : File V)
      → Reads fuel
      → length s < suc fuel
      → getch V f ≡ (ok (first s), g)
      → Took V R (rest s) g
      → (h : File V) × (getline_loop V (suc fuel) r f ≡ (ok (line_from r s).0, h))
        × Took V R (line_from r s).1 h
  unfolding Reads line_from getline_loop
  getline_step fuel r [] f g ih n q took = (g, rw (q, getline_loop), took)
  getline_step fuel r (c ∷ s) f g ih n q (same_stream, v) = elim (Bool-cases (c == b'\n')) [
    | inl e ↦ (g, rw (q, getline_loop, e), rw e (same_stream, v))
    | inr e ↦
        let (h, step, took) = ih (r ++ c ∷ []) g v (omega (arith, ap length same_stream)) in
        (h, rw (q, getline_loop, e, step, same_stream), rw e (rw same_stream at took))
  ]

  getline_loop-line_from : (fuel : ℕ) → Reads fuel
  unfolding Reads
  getline_loop-line_from zero r f v h = absurd (omega arith)
  getline_loop-line_from (suc fuel) r f v h =
      let (g, q, took) = getch-Took V R f v in
      getline_step fuel r (stream V R f) f g (getline_loop-line_from fuel) h q took

  -- With more fuel than bytes left, getline() returns the first line of what is left to read and
  -- leaves the text behind it; it returns 0 at the end alone.
  pub getline-line_from :
      (fuel : ℕ) (f : File V)
      → IsReadable V R f
      → length (stream V R f) < fuel
      → (g : File V) × (getline V fuel f ≡ (ok (line_from [] (stream V R f)).0, g))
        × Took V R (line_from [] (stream V R f)).1 g
  unfolding getline Reads
  getline-line_from fuel f v h = getline_loop-line_from fuel [] f v h
