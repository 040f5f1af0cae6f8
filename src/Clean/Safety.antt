-- ===== src/Clean/Safety.antt =====
-- What clean_recurse() never touches: the files that a live index refers to.
use hbackup.Prelude.{
  ℕ, zero, suc, ◌+◌, ◌≡◌, ◌≢◌, refl, sym, ap, ◌∙◌, subst, [], ◌∷◌, ◌++◌, List, Bool, true, false,
  Option, none, some, Bytes, bytes_eq, drop, drop-append_cons, rfind, rfind_behind, Lacks, All,
  arith,
}
use hbackup.Outcome.{Result, ok, err, fatal, Exception, Log, and_then}
use hbackup.Utils.Hex.{hashdecode}
use hbackup.HashSet
use hbackup.HashSet.{Table}
use hbackup.Filesystem.{
  Filetype, regular_file, directory, symbolic_link, unknown_file_type, Repository, IsRepository,
}
use hbackup.Clean.{
  Options, World, on_fs, decode_name, keep_if_same, check_content, judge, judge_or_drop, tolerate,
  discard, dispose, clean_file, clean_typed, clean_entry, clean_entries, clean_recurse,
}

-- The last component of a path.
unfoldable pub base : Bytes → Bytes
base q = elim (rfind b'/' q) [ some n ↦ drop (n + 1) q | none ↦ q ]

pub base_lem : (path name : Bytes) → Lacks b'/' name → base (path ++ b'/' ∷ name) ≡ name
unfolding base
base_lem path name h = rw (rfind_behind b'/' path name h, base) (drop-append_cons path b'/' name)

module _ (R : Repository) (L : IsRepository R) (word : Bytes → ℕ) (opts : Options)
    (needed : Table) where
  open L use {file, contents_keeps, type_keeps, hashfile_keeps, remove_keeps, names}

  -- A file with the content `c`, whose name is a hash of the set, in hexadecimal; where --detect-bogus
  -- is given, the file is read and found to have that hash whenever it has this content.
  pub record IsLive (q : Bytes) (c : Option L.Content) : Type 0 where
    pub h : Bytes
    pub decodes : (l : Log) → hashdecode (base q) l ≡ (ok h, l)
    pub known : HashSet.has word h needed ≡ true
    pub intact :
        opts.detectbogus ≡ true
        → (s : R.State) → ◌≡◌ {A = Option L.Content} (file s q) c
        → (R.hashfile q s).0 ≡ ok h

  module _ (q : Bytes) (c : Option L.Content) where
    -- The file at `q` has its content.
    abbrev Here : World R.State → Type 0
    Here w = ◌≡◌ {A = Option L.Content} (file w.fs q) c

    -- The file at `q` is as it was.
    abbrev Same : World R.State → World R.State → Type 0
    Same w w' = ◌≡◌ {A = Option L.Content} (file w'.fs q) (file w.fs q)

    and_then-Same :
        {A B : Type 0} (w : World R.State) (m : Result A × World R.State)
        (f : A → World R.State → Result B × World R.State)
        → Same w m.1
        → ((a : A) (w1 : World R.State) → Same w1 (f a w1).1)
        → Same w (and_then m f).1
    and_then-Same w (ok a, w1) f h k = k a w1 ∙ h
    and_then-Same w (err e, w1) f h k = h
    and_then-Same w (fatal, w1) f h k = h

    -- The second step starts with the file as it was, too.
    and_then-Here :
        {A B : Type 0} (w : World R.State) (m : Result A × World R.State)
        (f : A → World R.State → Result B × World R.State)
        → Here w
        → Same w m.1
        → ((a : A) (w1 : World R.State) → Here w1 → Same w1 (f a w1).1)
        → Same w (and_then m f).1
    and_then-Here w (ok a, w1) f here h k = k a w1 (h ∙ here) ∙ h
    and_then-Here w (err e, w1) f here h k = h
    and_then-Here w (fatal, w1) f here h k = h

    judge_or_drop-Same :
        (w : World R.State) (m : Result Bool × World R.State)
        → Same w m.1
        → Same w (judge_or_drop m).1
    unfolding judge_or_drop
    judge_or_drop-Same w (ok b, w1) h = h
    judge_or_drop-Same w (err e, w1) h = h
    judge_or_drop-Same w (fatal, w1) h = h

    tolerate-Same :
        (w : World R.State) (m : Result (Unit {0}) × World R.State)
        → Same w m.1
        → Same w (tolerate m).1
    unfolding tolerate
    tolerate-Same w (ok u, w1) h = h
    tolerate-Same w (err (Exception.file_error n), w1) h = h
    tolerate-Same w (err (Exception.sftp_file_error n k), w1) h = h
    tolerate-Same w (err _, w1) h = h
    tolerate-Same w (fatal, w1) h = h

    check_content-Same :
        (checks : Bool) (p h : Bytes) (keep : Bool) (w : World R.State)
        → Same w (check_content R word opts needed checks p h keep w).1
    unfolding check_content on_fs
    check_content-Same true p h keep w =
        and_then-Same w (on_fs (R.hashfile p) w) _ (hashfile_keeps p q w.fs) (λ a w1. refl)
    check_content-Same false p h keep w = refl

    judge-Same : (p name : Bytes) (w : World R.State) → Same w (judge R word opts needed p name w).1
    unfolding judge decode_name
    judge-Same p name w =
        and_then-Same w (decode_name name w) _ refl
          λ h w1. check_content-Same opts.detectbogus p h (HashSet.has word h needed) w1

    discard-Same :
        (deletes : Bool) (p : Bytes) (w : World R.State)
        → p ≢ q
        → Same w (discard R word opts needed deletes p w).1
    unfolding discard on_fs
    discard-Same true p w other =
        and_then-Same w (tolerate (on_fs (R.remove p) w)) _
          (tolerate-Same w (on_fs (R.remove p) w) (remove_keeps p q w.fs other)) (λ a w1. refl)
    discard-Same false p w other = refl

    dispose-Same :
        (p : Bytes) (keep : Bool) (w : World R.State)
        → p ≢ q
        → Same w (dispose R word opts needed p keep w).1
    unfolding dispose
    dispose-Same p true w other = refl
    dispose-Same p false w other = discard-Same opts.deleteclean p w other

    clean_file-Same_other :
        (p name : Bytes) (w : World R.State)
        → p ≢ q
        → Same w (clean_file R word opts needed p name w).1
    unfolding clean_file
    clean_file-Same_other p name w other =
        and_then-Same w (judge_or_drop (judge R word opts needed p name w)) _
          (judge_or_drop-Same w _ (judge-Same p name w)) (λ keep w1. dispose-Same p keep w1 other)

    keep_same : (h : Bytes) → keep_if_same h h true ≡ true
    unfolding keep_if_same
    keep_same h = ground arith

    check_content_live :
        (checks : Bool) (w : World R.State) (v : IsLive q c)
        → Here w
        → opts.detectbogus ≡ checks
        → (check_content R word opts needed checks q v.h true w).0 ≡ ok true
    unfolding check_content on_fs
    check_content_live true w v here e = rw (v.intact e w.fs here) (ap ok (keep_same v.h))
    check_content_live false w v here e = refl

    -- The file itself is judged worth keeping.
    judge_live :
        (w : World R.State)
        → IsLive q c
        → Here w
        → (judge R word opts needed q (base q) w).0 ≡ ok true
    unfolding judge decode_name
    judge_live w v here =
        rw (v.decodes w.log, v.known) (check_content_live opts.detectbogus w v here refl)

    disposed_live :
        (w : World R.State) (m : Result Bool × World R.State)
        → m.0 ≡ ok true
        → Same w m.1
        → Same w (and_then (judge_or_drop m) (dispose R word opts needed q)).1
    unfolding judge_or_drop dispose
    disposed_live w (ok true, w1) e h = h
    disposed_live w (ok false, w1) e h = cc
    disposed_live w (err x, w1) e h = cc
    disposed_live w (fatal, w1) e h = cc

    clean_file-Same_self :
        (w : World R.State)
        → IsLive q c
        → Here w
        → Same w (clean_file R word opts needed q (base q) w).1
    unfolding clean_file
    clean_file-Same_self w v here =
        disposed_live w (judge R word opts needed q (base q) w) (judge_live w v here)
          (judge-Same q (base q) w)

    clean_file-Same :
        (path name : Bytes) (w : World R.State)
        → IsLive q c
        → Here w
        → Lacks b'/' name
        → Same w (clean_file R word opts needed (path ++ b'/' ∷ name) name w).1
    clean_file-Same path name w v here plain = elim (bytes_eq.dec (path ++ b'/' ∷ name) q) [
      | yes e ↦
          let same_name : base q ≡ name = ap base (sym e) ∙ base_lem path name plain in
          subst (λ p. Same w (clean_file R word opts needed p name w).1) (sym e)
            (subst (λ n. Same w (clean_file R word opts needed q n w).1) same_name
              (clean_file-Same_self w v here))
      | no other ↦ clean_file-Same_other (path ++ b'/' ∷ name) name w other
    ]

    -- A call that leaves the file at `q` as it was.
    abbrev Keeps : (Bytes → World R.State → Result ℕ × World R.State) → Type 0
    Keeps f = (p : Bytes) (w : World R.State) → Here w → Same w (f p w).1

    module _ (recurse : Bytes → World R.State → Result ℕ × World R.State) (k : Keeps recurse)
        (v : IsLive q c) where
      clean_typed-Same :
          (path name : Bytes) (t : Filetype) (w : World R.State)
          → Here w
          → Lacks b'/' name
          → Same w (clean_typed R word opts needed recurse (path ++ b'/' ∷ name) name t w).1
      unfolding clean_typed
      clean_typed-Same path name regular_file w here plain =
          clean_file-Same path name w v here plain
      clean_typed-Same path name directory w here plain = k (path ++ b'/' ∷ name) w here
      clean_typed-Same path name symbolic_link w here plain = refl
      clean_typed-Same path name unknown_file_type w here plain = refl

      clean_entry-Same :
          (path name : Bytes) (w : World R.State)
          → Here w
          → Lacks b'/' name
          → Same w (clean_entry R word opts needed recurse path name w).1
      unfolding clean_entry on_fs
      clean_entry-Same path name w here plain =
          and_then-Here w (on_fs (R.type (path ++ b'/' ∷ name)) w) _ here
            (type_keeps (path ++ b'/' ∷ name) q w.fs)
            (λ t w1 here1. clean_typed-Same path name t w1 here1 plain)

      clean_entries-Same :
          (path : Bytes) (files : List Bytes) (deleted : ℕ) (w : World R.State)
          → Here w
          → All (Lacks b'/') files
          → Same w (clean_entries R word opts needed recurse path files deleted w).1
      unfolding clean_entries
      clean_entries-Same path [] deleted w here _ = refl
      clean_entries-Same path (name ∷ files) deleted w here (plain, more) =
          and_then-Here w (clean_entry R word opts needed recurse path name w) _ here
            (clean_entry-Same path name w here plain)
            (λ n w1 here1. clean_entries-Same path files (deleted + n) w1 here1 more)

    listed-Same :
        (w : World R.State) (m : Result (List Bytes) × World R.State)
        (f : List Bytes → World R.State → Result ℕ × World R.State)
        → Same w m.1
        → ((c : List Bytes) → m.0 ≡ ok c → Same m.1 (f c m.1).1)
        → Same w (and_then m f).1
    listed-Same w (ok c, w1) f h k = k c refl ∙ h
    listed-Same w (err e, w1) f h k = h
    listed-Same w (fatal, w1) f h k = h

    clean_recurse-Keeps : (fuel : ℕ) → IsLive q c → Keeps (clean_recurse R word opts needed fuel)
    unfolding clean_recurse
    clean_recurse-Keeps zero v path w here = refl
    clean_recurse-Keeps (suc fuel) v path w here =
        listed-Same w (on_fs (R.contents path) w) _ (contents_keeps path q w.fs) λ files e.
          clean_entries-Same (clean_recurse R word opts needed fuel) (clean_recurse-Keeps fuel v) v
            path files 0 (on_fs (R.contents path) w).1 (contents_keeps path q w.fs ∙ here)
            (names path w.fs e)

  -- However the clean-up ends, by success, an exception or `fatal`, it leaves every live file as it
  -- was, with and without --delete. With --detect-bogus a live file is one that is read without an
  -- error and found to have its hash, as long as its content is what it was at the start.
  pub clean_recurse_safe :
      (fuel : ℕ) (path q : Bytes) (w : World R.State)
      → IsLive q (file w.fs q)
      → ◌≡◌ {A = Option L.Content}
          (file (clean_recurse R word opts needed fuel path w).1.fs q)
          (file w.fs q)
  clean_recurse_safe fuel path q w v = clean_recurse-Keeps q (file w.fs q) fuel v path w refl
