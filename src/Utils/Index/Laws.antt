-- ===== src/Utils/Index/Laws.antt =====
-- A line that is written from fields is parsed to those fields.
use hbackup.Prelude.{
  ℕ, zero, suc, ◌+◌, ◌<◌, ◌≡◌, refl, ◌∙◌, [], ◌∷◌, ◌++◌, List, append_assoc, none, some, length,
  length-append, drop-append_cons, Bytes, AreBytes, Lacks, codes, arith, find, find_behind,
  find_of_Lacks, find_after, All, All-append, inl, inr, bytes_eq,
}
use hbackup.Prelude.Dict
use hbackup.Prelude.Dict.{Dict}
use hbackup.Outcome.{ok, err, Log, no_log, bad_index_file}
use hbackup.Utils.Url.{urlencode, urldecode}
use hbackup.Utils.Url.Laws.{urldecode_at, urldecode_from, urlencode-Lacks}
use hbackup.Utils.Index.{Details, last_field, field, cut, assign, parse_loop, parse_index_line}

parse_test :
    parse_index_line (codes "name=a%3d&sha1=0") no_log
    ≡ (ok ((codes "name", codes "a=") ∷ (codes "sha1", codes "0") ∷ []), no_log)
unfolding parse_index_line
parse_test = refl

parse_test_malformed :
    parse_index_line (codes "name&sha1=0") no_log
    ≡ (err (bad_index_file (codes "name&sha1=0")), no_log)
unfolding parse_index_line
parse_test_malformed = refl

-- A line as do_backup() writes it: `key=value` with both sides encoded, joined by `&`.
unfoldable pub render_field : Bytes × Bytes → Bytes
render_field (k, v) = urlencode k ++ b'=' ∷ urlencode v

unfoldable pub render : Bytes × Bytes → List (Bytes × Bytes) → Bytes
render f [] = render_field f
render f (f' ∷ fs) = render_field f ++ b'&' ∷ render f' fs

-- The map that a line of fields stands for: a later field replaces an earlier one of its name.
unfoldable pub assign_all : List (Bytes × Bytes) → Details → Details
assign_all [] l = l
assign_all ((k, v) ∷ fs) l = assign_all fs (Dict.insert k v l)

abbrev pub FieldIsBytes : Bytes × Bytes → Type 0
FieldIsBytes (k, v) = AreBytes k × AreBytes v

cut_last :
    (k v : Bytes)
    → Lacks b'=' k
    → Lacks b'&' k
    → Lacks b'&' v
    → cut (k ++ b'=' ∷ v) ≡ last_field (length k)
unfolding cut
cut_last k v ek ak av =
    let no_eq : Lacks b'&' (b'=' ∷ v) = (omega arith, av) in
    rw (
      find_behind b'=' k v ek,
      find_after b'&' k (b'=' ∷ v) ak (find_of_Lacks b'&' (b'=' ∷ v) no_eq),
    )

cut_field :
    (k v rest : Bytes)
    → Lacks b'=' k
    → Lacks b'&' k
    → Lacks b'&' v
    → cut (k ++ b'=' ∷ (v ++ b'&' ∷ rest)) ≡ field (length k) (length (k ++ b'=' ∷ v))
unfolding cut
cut_field k v rest ek ak av =
    let no_amp : Lacks b'&' (k ++ b'=' ∷ v) = All-append _ k (b'=' ∷ v) ak (omega arith, av) in
    let amp : find b'&' (k ++ b'=' ∷ (v ++ b'&' ∷ rest)) ≡ some (length (k ++ b'=' ∷ v)) =
      rw (← append_assoc k (b'=' ∷ v) (b'&' ∷ rest))
        (find_behind b'&' (k ++ b'=' ∷ v) rest no_amp) in
    rw (find_behind b'=' k (v ++ b'&' ∷ rest) ek, amp) (ground (arith, length-append k (b'=' ∷ v)))

assign_last :
    (k v : Bytes) (l : Details) (g : Log)
    → AreBytes k
    → AreBytes v
    → assign (render_field (k, v)) (length (urlencode k)) none l g ≡ (ok (Dict.insert k v l), g)
unfolding assign render_field
assign_last k v l g bk bv =
    let key : urldecode (urlencode k ++ b'=' ∷ urlencode v) 0 (some (length (urlencode k))) g
        ≡ (ok k, g) =
      urldecode_at _ [] k (b'=' ∷ urlencode v) 0 _ g refl refl (omega arith) bk in
    let value : urldecode (urlencode k ++ b'=' ∷ urlencode v) (length (urlencode k) + 1) none g
        ≡ (ok v, g) =
      urldecode_from _ (urlencode k ++ b'=' ∷ []) v _ g (rw append_assoc)
        (omega (arith, length-append (urlencode k) (b'=' ∷ []))) bv in
    rw (key, value)

assign_between :
    (k v rest : Bytes) (l : Details) (g : Log)
    → AreBytes k
    → AreBytes v
    → assign
        (render_field (k, v) ++ b'&' ∷ rest)
        (length (urlencode k))
        (some (length (render_field (k, v))))
        l
        g
      ≡ (ok (Dict.insert k v l), g)
unfolding assign render_field
assign_between k v rest l g bk bv =
    let line = (urlencode k ++ b'=' ∷ urlencode v) ++ b'&' ∷ rest in
    let n = length (urlencode k ++ b'=' ∷ urlencode v) in
    let key : urldecode line 0 (some (length (urlencode k))) g ≡ (ok k, g) =
      urldecode_at line [] k (b'=' ∷ (urlencode v ++ b'&' ∷ rest)) 0 _ g (rw append_assoc) refl
        (omega arith) bk in
    let value : urldecode line (length (urlencode k) + 1) (some n) g ≡ (ok v, g) =
      urldecode_at line (urlencode k ++ b'=' ∷ []) v (b'&' ∷ rest) _ n g (simp append_assoc)
        (omega (arith, length-append (urlencode k) (b'=' ∷ [])))
        (omega (
          arith,
          length-append (urlencode k) (b'=' ∷ []),
          length-append (urlencode k) (b'=' ∷ urlencode v),
        ))
        bv in
    rw (key, value)

cut-render_field :
    (k v : Bytes)
    → AreBytes k
    → AreBytes v
    → cut (render_field (k, v)) ≡ last_field (length (urlencode k))
unfolding render_field
cut-render_field k v bk bv =
    cut_last (urlencode k) (urlencode v) (urlencode-Lacks b'=' k (inl refl) bk)
      (urlencode-Lacks b'&' k (inr (inl refl)) bk) (urlencode-Lacks b'&' v (inr (inl refl)) bv)

cut-render_field_between :
    (k v rest : Bytes)
    → AreBytes k
    → AreBytes v
    → cut (render_field (k, v) ++ b'&' ∷ rest)
      ≡ field (length (urlencode k)) (length (render_field (k, v)))
unfolding render_field
cut-render_field_between k v rest bk bv = rw append_assoc (
    cut_field (urlencode k) (urlencode v) rest (urlencode-Lacks b'=' k (inl refl) bk)
      (urlencode-Lacks b'&' k (inr (inl refl)) bk) (urlencode-Lacks b'&' v (inr (inl refl)) bv))

parse_loop_last :
    (k v : Bytes) (fuel : ℕ) (line : Bytes) (l : Details) (g : Log)
    → AreBytes k
    → AreBytes v
    → parse_loop (suc fuel) line (render_field (k, v)) l g ≡ (ok (Dict.insert k v l), g)
unfolding parse_loop
parse_loop_last k v fuel line l g bk bv =
    rw (cut-render_field k v bk bv, parse_loop) (assign_last k v l g bk bv)

parse_loop_field :
    (k v rest : Bytes) (fuel : ℕ) (line : Bytes) (l : Details) (g : Log)
    → AreBytes k
    → AreBytes v
    → parse_loop (suc fuel) line (render_field (k, v) ++ b'&' ∷ rest) l g
      ≡ parse_loop fuel line rest (Dict.insert k v l) g
unfolding parse_loop
parse_loop_field k v rest fuel line l g bk bv = rw (
  cut-render_field_between k v rest bk bv,
  parse_loop,
  assign_between k v rest l g bk bv,
  drop-append_cons (render_field (k, v)) b'&' rest,
)

parse_loop-render :
    (f : Bytes × Bytes) (fs : List (Bytes × Bytes)) (fuel : ℕ) (line : Bytes) (l : Details)
    (g : Log)
    → length (render f fs) < fuel
    → All FieldIsBytes (f ∷ fs)
    → parse_loop fuel line (render f fs) l g ≡ (ok (assign_all (f ∷ fs) l), g)
unfolding parse_loop assign_all render
parse_loop-render f fs zero line l g h b = absurd (omega arith)
parse_loop-render (k, v) [] (suc fuel) line l g h ((bk, bv), _) =
    parse_loop_last k v fuel line l g bk bv
parse_loop-render (k, v) (f ∷ fs) (suc fuel) line l g h ((bk, bv), bs) =
    parse_loop_field k v (render f fs) fuel line l g bk bv
    ∙ parse_loop-render f fs fuel line (Dict.insert k v l) g
        (omega (arith, length-append (render_field (k, v)) (b'&' ∷ render f fs))) bs

-- A line written from fields is parsed to the map of those fields, whatever bytes the names and the
-- values hold, and nothing is reported.
pub parse_index_line-render :
    (f : Bytes × Bytes) (fs : List (Bytes × Bytes)) (g : Log)
    → All FieldIsBytes (f ∷ fs)
    → parse_index_line (render f fs) g ≡ (ok (assign_all (f ∷ fs) []), g)
parse_index_line-render f fs g b =
    unfold parse_index_line in
    parse_loop-render f fs (length (render f fs) + 1) (render f fs) [] g (omega arith) b
