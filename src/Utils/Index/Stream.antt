-- ===== src/Utils/Index/Stream.antt =====
-- An index file that is written line by line is read back line by line, up to its end mark.
use hbackup.Prelude.{
  ℕ, ◌<◌, ◌≡◌, refl, ap, ◌∙◌, inl, inr, [], ◌∷◌, ◌++◌, List, append_assoc, Option, none, some,
  false, length, Bytes, AreBytes, Lacks, All, All-append, codes, arith, find, find_behind, bytes_eq,
  same, same-false,
}
use hbackup.Outcome.{ok, err, bad_index_file, Log}
use hbackup.File.{Device}
use hbackup.File.Read.{IsReader, stream, IsReadable, Took}
use hbackup.File.Lines.{getline-line_from, line_from, line_from_newline}
use hbackup.Utils.Url.{urlencode}
use hbackup.Utils.Url.Laws.{urlencode-Lacks}
use hbackup.Utils.Index.{Details, read_index_line, Reader, read_details}
use hbackup.Utils.Index.Laws.{
  render, render_field, assign_all, FieldIsBytes, parse_index_line-render,
}

render_field-Lacks : (k v : Bytes) → AreBytes k → AreBytes v → Lacks b'\n' (render_field (k, v))
unfolding render_field
render_field-Lacks k v bk bv =
    All-append _ (urlencode k) (b'=' ∷ urlencode v) (urlencode-Lacks b'\n' k (inr (inr refl)) bk)
      (omega arith, urlencode-Lacks b'\n' v (inr (inr refl)) bv)

-- A written line holds no newline.
pub render-Lacks :
    (f : Bytes × Bytes) (fs : List (Bytes × Bytes))
    → All FieldIsBytes (f ∷ fs)
    → Lacks b'\n' (render f fs)
unfolding render
render-Lacks (k, v) [] ((bk, bv), _) = render_field-Lacks k v bk bv
render-Lacks (k, v) (f ∷ fs) ((bk, bv), bs) =
    All-append _ (render_field (k, v)) (b'&' ∷ render f fs) (render_field-Lacks k v bk bv)
      (omega arith, render-Lacks f fs bs)

render_shape :
    (f : Bytes × Bytes) (fs : List (Bytes × Bytes))
    → All FieldIsBytes (f ∷ fs)
    → (n : ℕ) × (find b'=' (render f fs) ≡ some n)
unfolding render render_field
render_shape (k, v) [] ((bk, bv), _) = (
  length (urlencode k),
  find_behind b'=' (urlencode k) (urlencode v) (urlencode-Lacks b'=' k (inl refl) bk),
)
render_shape (k, v) (f ∷ fs) ((bk, bv), _) = (
  length (urlencode k),
  rw append_assoc (
      find_behind b'=' (urlencode k) (urlencode v ++ b'&' ∷ render f fs)
        (urlencode-Lacks b'=' k (inl refl) bk)),
)

-- A written line has an `=`, which the end mark has not.
render-ne-end :
    (f : Bytes × Bytes) (fs : List (Bytes × Bytes))
    → All FieldIsBytes (f ∷ fs)
    → same (render f fs) (codes "[end]") ≡ false
render-ne-end f fs b =
    same-false (render f fs) (codes "[end]")
      λ e. absurd (ground (arith, (render_shape f fs b).1, ap (find b'=') e, no_eq))
  where
    no_eq : find b'=' (codes "[end]") ≡ none
    no_eq = unfold find in refl

read_index_line-render :
    (f : Bytes × Bytes) (fs : List (Bytes × Bytes)) (g : Log)
    → All FieldIsBytes (f ∷ fs)
    → read_index_line (some (render f fs)) g ≡ (ok (some (assign_all (f ∷ fs) [])), g)
unfolding read_index_line
read_index_line-render f fs g b = rw (render-ne-end f fs b, parse_index_line-render f fs g b)

module _ (V : Device) (R : IsReader V) where
  -- What a call of readIndexLine() leaves to read.
  abbrev pub Left : Bytes → Log → Reader V → Type 0
  Left s g r = Took V R s r.file × (r.log ≡ g)

  read_details_line :
      (fuel : ℕ) (r : Reader V) (line s : Bytes) (d : Option Details)
      → IsReadable V R r.file
      → length (stream V R r.file) < fuel
      → stream V R r.file ≡ line ++ b'\n' ∷ s
      → Lacks b'\n' line
      → read_index_line (some line) r.log ≡ (ok d, r.log)
      → (r' : Reader V) × (read_details V fuel r ≡ (ok d, r')) × Left s r.log r'
  unfolding read_details
  read_details_line fuel r line s d v n split plain parsed =
      let (f, q, took) = getline-line_from V R fuel r.file v n in
      let first_line : line_from [] (stream V R r.file) ≡ (some line, s) =
        ap (line_from []) split ∙ line_from_newline line [] s plain in
      (
        record r { file = f },
        rw (q, first_line, parsed),
        ((took.0 ∙ ap (λ p. p.1) first_line, took.1), refl),
      )

  -- With more fuel than bytes left, a written line is read as the map of its fields.
  pub read_details-render :
      (fuel : ℕ) (r : Reader V) (f : Bytes × Bytes) (fs : List (Bytes × Bytes)) (s : Bytes)
      → IsReadable V R r.file
      → length (stream V R r.file) < fuel
      → stream V R r.file ≡ render f fs ++ b'\n' ∷ s
      → All FieldIsBytes (f ∷ fs)
      → (r' : Reader V) × (read_details V fuel r ≡ (ok (some (assign_all (f ∷ fs) [])), r'))
        × Left s r.log r'
  read_details-render fuel r f fs s v n split b =
      read_details_line fuel r (render f fs) s (some (assign_all (f ∷ fs) [])) v n split
        (render-Lacks f fs b) (read_index_line-render f fs r.log b)

  -- The end mark ends the reading, whatever stands behind it.
  pub read_details_end :
      (fuel : ℕ) (r : Reader V) (s : Bytes)
      → IsReadable V R r.file
      → length (stream V R r.file) < fuel
      → stream V R r.file ≡ codes "[end]" ++ b'\n' ∷ s
      → (r' : Reader V) × (read_details V fuel r ≡ (ok none, r')) × Left s r.log r'
  read_details_end fuel r s v n split =
      read_details_line fuel r (codes "[end]") s none v n split (omega arith) mark
    where
      mark : read_index_line (some (codes "[end]")) r.log ≡ (ok none, r.log)
      mark = unfold read_index_line in refl

  -- A file that stops before its end mark is refused.
  pub read_details_eof :
      (fuel : ℕ) (r : Reader V)
      → IsReadable V R r.file
      → 0 < fuel
      → stream V R r.file ≡ []
      → (r' : Reader V) × (read_details V fuel r
          ≡ (err (bad_index_file (codes "unexpected end of file")), r'))
        × Left [] r.log r'
  unfolding read_details
  read_details_eof fuel r v n nothing =
      let (f, q, took) = getline-line_from V R fuel r.file v (omega (arith, ap length nothing)) in
      let at_end : line_from [] (stream V R r.file) ≡ (none, []) =
        ap (line_from []) nothing ∙ no_line in
      (
        record r { file = f },
        rw (q, at_end) (unfold read_index_line in refl),
        ((took.0 ∙ ap (λ p. p.1) at_end, took.1), refl),
      )
    where
      no_line : line_from [] [] ≡ (none, [])
      no_line = unfold line_from in refl
