-- ===== src/Clean/Live.antt =====
-- Reading a live index marks every hash that it refers to.
use Prim.Native.Nat.{◌<◌}
use hbackup.Prelude.{
  ℕ, zero, suc, ◌≡◌, refl, sym, ap, ◌∙◌, subst, [], ◌∷◌, ◌++◌, List, Option, none, some, Bytes,
  AreBytes, codes, length, length-append, All, arith,
}
use hbackup.Outcome.{ok}
use hbackup.Utils.Hex.{hash_size, hexencode}
use hbackup.Utils.Hex.Laws.{hashdecode-hexencode}
use hbackup.Utils.Index.{Details, Reader, getdetail}
use hbackup.Utils.Index.Laws.{render, assign_all, FieldIsBytes}
use hbackup.Utils.Index.Stream.{read_details-render, read_details_end}
use hbackup.File.{Device}
use hbackup.File.Read.{IsReader, stream, IsReadable}
use hbackup.HashSet
use hbackup.HashSet.{Table}
use hbackup.HashSet.Laws.{insert_all}
use hbackup.Clean.Command.{hash_name, Marking, mark_hash, mark_lines}

-- A line of an index, and the hash that it refers to.
pub record Entry : Type 0 where
  pub first : Bytes × Bytes
  pub more : List (Bytes × Bytes)
  pub hash : Option Bytes

abbrev pub details : Entry → Details
details e = assign_all (e.first ∷ e.more) []

abbrev pub HasHash : Details → Option Bytes → Type 0
HasHash d none = getdetail d hash_name ≡ none
HasHash d (some h) =
    (getdetail d hash_name ≡ some (hexencode h)) × AreBytes h × (length h ≡ hash_size)

pub record IsEntry (e : Entry) : Type 0 where
  pub are_bytes : All FieldIsBytes (e.first ∷ e.more)
  pub has_hash : HasHash (details e) e.hash

-- The text of an index file, as do_backup() writes it.
unfoldable pub index_text : List Entry → Bytes
index_text [] = codes "[end]" ++ b'\n' ∷ []
index_text (e ∷ es) = render e.first e.more ++ b'\n' ∷ index_text es

abbrev pub add_hash : Option Bytes → List Bytes → List Bytes
add_hash none hs = hs
add_hash (some h) hs = h ∷ hs

unfoldable pub hashes : List Entry → List Bytes
hashes [] = []
hashes (e ∷ es) = add_hash e.hash (hashes es)

module _ (V : Device) (word : Bytes → ℕ) where
  mark_hash_lem :
      (d : Details) (o : Option Bytes) (hs : List Bytes) (m : Marking V word)
      → HasHash d o
      → (m' : Marking V word) × (mark_hash V word (getdetail d hash_name) m ≡ (ok tt, m'))
        × (m'.reader ≡ m.reader)
        × (insert_all word hs m'.needed ≡ insert_all word (add_hash o hs) m.needed)
  unfolding mark_hash insert_all
  mark_hash_lem d none hs m e = (m, rw e, refl, refl)
  mark_hash_lem d (some h) hs m (e, b, n) = (
    record m { needed = HashSet.insert word h m.needed },
    rw (e, hashdecode-hexencode h m.reader.log b n),
    refl,
    refl,
  )

module _ (V : Device) (R : IsReader V) (word : Bytes → ℕ) where
  -- The loop reads a well-formed index to its end mark, with more fuel than it has lines and bytes.
  -- It inserts exactly the hashes of the lines, and reports nothing.
  pub mark_lines-index_text :
      (n fuel : ℕ) (es : List Entry) (m : Marking V word)
      → length es < n
      → IsReadable V R m.reader.file
      → length (stream V R m.reader.file) < fuel
      → stream V R m.reader.file ≡ index_text es
      → All IsEntry es
      → (m' : Marking V word) × (mark_lines V word n fuel m ≡ (ok tt, m'))
        × (m'.needed ≡ insert_all word (hashes es) m.needed)
        × (m'.reader.log ≡ m.reader.log)
  unfolding mark_lines index_text hashes
  mark_lines-index_text zero fuel es m few v small split _ = absurd (omega arith)
  mark_lines-index_text (suc n) fuel [] m few v small split _ =
      let (r, q, left) = read_details_end V R fuel m.reader [] v small split in
      (record m { reader = r }, rw q, unfold insert_all in refl, left.1)
  mark_lines-index_text (suc n) fuel (e ∷ es) m few v small split (ie, ies) =
      let (r, q, ((same_text, v1), same_log)) =
        read_details-render V R fuel m.reader e.first e.more (index_text es) v small split
          ie.are_bytes in
      let (m1, p, same_reader, all) =
        mark_hash_lem V word (details e) e.hash (hashes es) (record m { reader = r }) ie.has_hash in
      let text1 : stream V R m1.reader.file ≡ index_text es =
        ap (λ (x : Reader V). stream V R x.file) same_reader ∙ same_text in
      let shorter : length (stream V R m1.reader.file) < fuel = omega (
        arith,
        ap length text1,
        ap length split,
        length-append (render e.first e.more) (b'\n' ∷ index_text es),
      ) in
      let (m2, p2, all2, log2) =
        mark_lines-index_text n fuel es m1 (omega arith)
          (subst (λ (x : Reader V). IsReadable V R x.file) (sym same_reader) v1) shorter text1
          ies in
      (m2, rw (q, p) p2, all2 ∙ all, log2 ∙ ap (λ (x : Reader V). x.log) same_reader ∙ same_log)
