-- ===== src/Clean/Whole.antt =====
-- do_clean() as a whole: the hashes of the live indexes keep their files.
use mathlib.Core.List.{map}
use Prim.Native.Nat.{◌<◌}
use hbackup.Prelude.{
  ℕ, ◌≡◌, refl, sym, ap, subst, ◌∙◌, [], ◌∷◌, ◌++◌, append_assoc, List, Bool, true, false, Option,
  Bytes, AreBytes, length, All, arith, same, bytes_eq, ltb, if◌then◌else◌,
}
use hbackup.Outcome.{Result, ok, fatal, and_then}
use hbackup.Utils.Hex.{hash_size, hexencode, hashpath}
use hbackup.Utils.Hex.Laws.{hashdecode-hexencode}
use hbackup.Utils.Hex.Path.{hexencode-Lacks-slash, hashpath-eq-append}
use hbackup.File.{Device, new_file}
use hbackup.File.Read.{IsReader, new_file-IsReadable}
use hbackup.HashSet.{Table, empty_table}
use hbackup.HashSet.Laws.{insert_all, member, has-insert_all, insert_all-append}
use hbackup.Filesystem.{Repository, IsRepository}
use hbackup.Clean.{Options, World, on_fs}
use hbackup.Clean.Safety.{IsLive, base, base_lem, clean_recurse_safe}
use hbackup.Clean.Command.{hash_name, Marking, mark_end, mark_index, mark_all, sweep, do_clean}
use hbackup.Clean.Live.{Entry, IsEntry, index_text, hashes, mark_lines-index_text}

-- Where the file of a hash stands in a repository.
abbrev pub hash_file : Bytes → Bytes → Bytes
hash_file repo h = repo ++ b'/' ∷ (hash_name ++ b'/' ∷ hashpath h)

pub base-hash_file :
    (repo h : Bytes) → AreBytes h → length h ≡ hash_size → base (hash_file repo h) ≡ hexencode h
base-hash_file repo h b n =
    let (p, e) = hashpath-eq-append h n in
    let split : hash_file repo h ≡ (repo ++ b'/' ∷ (hash_name ++ b'/' ∷ p)) ++ b'/' ∷ hexencode h =
      rw e (simp append_assoc) in
    ap base split
    ∙ base_lem (repo ++ b'/' ∷ (hash_name ++ b'/' ∷ p)) (hexencode h) (hexencode-Lacks-slash h b)

-- The hashes of all the indexes, in the order of reading.
unfoldable pub all_hashes : List (Bytes × List Entry) → List Bytes
all_hashes [] = []
all_hashes ((name, es) ∷ indexes) = hashes es ++ all_hashes indexes

module _ (V : Device) (D : IsReader V) (R : Repository) (L : IsRepository R) (word : Bytes → ℕ)
    (open_read : Bytes → R.State → Result V.State × R.State) (fuel : ℕ) where
  -- An index of the command line: it opens to a well-formed text that the fuel is enough for.
  pub record IsIndex (x : Bytes × List Entry) : Type 0 where
    pub entries : All IsEntry x.1
    pub few : length x.1 < fuel
    pub small : length (index_text x.1) < fuel
    pub opens :
        (s : R.State)
        → (d : V.State) × ((open_read x.0 s).0 ≡ ok d) × (D.content d ≡ index_text x.1)

  module _ (q : Bytes)
      (open_keeps : (p : Bytes) (s : R.State)
        → ◌≡◌ {A = Option L.Content} (L.file (open_read p s).1 q) (L.file s q)) where
    mark_index_lem :
        (x : Bytes × List Entry) (needed : Table) (w : World R.State)
        → IsIndex x
        → (w' : World R.State) × (mark_index V word R open_read fuel x.0 needed w
            ≡ (ok (insert_all word (hashes x.1) needed, false), w'))
          × ◌≡◌ {A = Option L.Content} (L.file w'.fs q) (L.file w.fs q)
    unfolding mark_index on_fs
    mark_index_lem x needed w i =
        let (d, opened, text) = i.opens w.fs in
        let s1 = (open_read x.0 w.fs).1 in
        let start : Marking V word = record {
          reader = record { file = new_file d; log = w.log };
          needed = needed;
        } in
        let (m, q1, all, same_log) =
          mark_lines-index_text V D word fuel fuel x.1 start i.few (new_file-IsReadable V D d)
            (omega (arith, ap length text, i.small)) text i.entries in
        (
          record w { fs = s1; log = m.reader.log },
          rw (opened, q1)
              (unfold mark_end in
                ap (λ t. (ok (t, false), record w { fs = s1; log = m.reader.log })) all),
          open_keeps x.0 w.fs,
        )

    mark_all_lem :
        (xs : List (Bytes × List Entry)) (needed : Table) (w : World R.State)
        → All IsIndex xs
        → (w' : World R.State) × (mark_all V word R open_read fuel (map (λ x. x.0) xs) needed 0 w
            ≡ (ok (insert_all word (all_hashes xs) needed, 0), w'))
          × ◌≡◌ {A = Option L.Content} (L.file w'.fs q) (L.file w.fs q)
    unfolding mark_all all_hashes
    mark_all_lem [] needed w _ = (w, unfold insert_all in refl, refl)
    mark_all_lem (x ∷ xs) needed w (i, is) =
        let (w1, q1, k1) = mark_index_lem x needed w i in
        let (w2, q2, k2) = mark_all_lem xs (insert_all word (hashes x.1) needed) w1 is in
        (
          w2,
          rw q1 (
              q2
              ∙ ap (λ t. (ok (t, 0), w2))
                  (sym (insert_all-append word (hashes x.1) (all_hashes xs) needed))),
          k2 ∙ k1,
        )

  -- A clean-up over readable, well-formed indexes leaves the file of every hash that one of them
  -- refers to as it was, however it ends and with and without --delete. Where --detect-bogus is
  -- given, the file is read and found to have that hash whenever its content is what it was at
  -- the start.
  pub do_clean_safe :
      (opts : Options) (repo : Bytes) (xs : List (Bytes × List Entry)) (h : Bytes)
      (w : World R.State)
      → ((p q : Bytes) (s : R.State)
          → ◌≡◌ {A = Option L.Content} (L.file (open_read p s).1 q) (L.file s q))
      → All IsIndex xs
      → member word h (all_hashes xs) ≡ true
      → AreBytes h
      → length h ≡ hash_size
      → (opts.detectbogus ≡ true
          → (s : R.State)
          → ◌≡◌ {A = Option L.Content}
              (L.file s (hash_file repo h))
              (L.file w.fs (hash_file repo h))
          → (R.hashfile (hash_file repo h) s).0 ≡ ok h)
      → ◌≡◌ {A = Option L.Content}
          (L.file
            (do_clean V word R open_read fuel opts repo (map (λ x. x.0) xs) w).1.fs
            (hash_file repo h))
          (L.file w.fs (hash_file repo h))
  unfolding do_clean
  do_clean_safe opts repo xs h w open_keeps is known b n intact =
      guarded (same repo []) (ltb (length (map (λ (x : Bytes × List Entry). x.0) xs)) 1)
        (and_then (mark_all V word R open_read fuel (map (λ x. x.0) xs) empty_table 0 w)
          (sweep V word R open_read fuel opts repo))
        swept
    where
      q : Bytes
      q = hash_file repo h

      guarded :
          (a c : Bool) (m : Result ℕ × World R.State)
          → ◌≡◌ {A = Option L.Content} (L.file m.1.fs q) (L.file w.fs q)
          → ◌≡◌ {A = Option L.Content}
              (L.file (if a then (fatal, w) else if c then (fatal, w) else m).1.fs q)
              (L.file w.fs q)
      guarded true c m e = refl
      guarded false true m e = refl
      guarded false false m e = e

      live : IsLive R L word opts (insert_all word (all_hashes xs) empty_table) q (L.file w.fs q)
      live = record {
        h = h;
        decodes = λ l. rw (base-hash_file repo h b n) (hashdecode-hexencode h l b n);
        known = has-insert_all word (all_hashes xs) h ∙ known;
        intact = intact;
      }

      swept :
          ◌≡◌ {A = Option L.Content}
            (L.file
              (and_then
                (mark_all V word R open_read fuel (map (λ x. x.0) xs) empty_table 0 w)
                (sweep V word R open_read fuel opts repo)).1.fs
              q)
            (L.file w.fs q)
      swept =
          let (w1, q1, k1) = mark_all_lem q (λ p s. open_keeps p q s) xs empty_table w is in
          rw q1 (
            unfold sweep in
            (clean_recurse_safe R L word opts (insert_all word (all_hashes xs) empty_table) fuel
                (repo ++ b'/' ∷ hash_name) q w1
                (subst (IsLive R L word opts (insert_all word (all_hashes xs) empty_table) q)
                  (sym k1) live)
              ∙ k1))
