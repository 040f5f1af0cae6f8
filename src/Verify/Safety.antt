-- ===== src/Verify/Safety.antt =====
-- do_verify() removes no file that is whole.
use hbackup.Prelude.{
  ℕ, zero, suc, ◌+◌, ◌≡◌, ◌≢◌, refl, sym, ap, ◌∙◌, inl, inr, [], ◌∷◌, ◌++◌, Bool, true, false, not,
  Option, none, some, Bytes, AreBytes, bytes_eq, same, same_self, codes, length, arith, drop,
  drop-append_cons, if◌then◌else◌, Bool-cases, Option-cases,
}
use hbackup.Outcome.{Result, ok, err, fatal, Exception, and_then}
use hbackup.Utils.Hex.{hash_size, hashpath}
use hbackup.Utils.Hex.Laws.{hashdecode_sound}
use hbackup.Utils.Hex.Path.{hashpath_injective}
use hbackup.Utils.Index.{Details, getdetail, read_details}
use hbackup.File.{Device, File, new_file}
use hbackup.Filesystem.{Repository, IsRepository}
use hbackup.Clean.{World, on_fs, decode_name}
use hbackup.Clean.Command.{hash_name}
use hbackup.Verify.{
  stored_at, report, report_missing, mismatch, compare, verify_file, verify_hash, verify_regular,
  verify_line, verify_lines, do_verify,
}

stored_at_injective :
    (repo h k : Bytes)
    → AreBytes h
    → AreBytes k
    → length h ≡ hash_size
    → length k ≡ hash_size
    → stored_at repo h ≡ stored_at repo k
    → h ≡ k
unfolding stored_at
stored_at_injective repo h k bh bk nh nk e =
    let cut = length (repo ++ b'/' ∷ hash_name) + 1 in
    hashpath_injective h k bh bk nh nk (
      sym (drop-append_cons (repo ++ b'/' ∷ hash_name) b'/' (hashpath h))
      ∙ ap (drop cut) e
      ∙ drop-append_cons (repo ++ b'/' ∷ hash_name) b'/' (hashpath k))

module _ (R : Repository) (L : IsRepository R) (detectbogus : Bool) (repo : Bytes) where
  -- The stored file of `h` has the content `c`, and whenever it has, its hash is found to be `h`.
  pub record IsWhole (h : Bytes) (c : Option L.Content) : Type 0 where
    pub are_bytes : AreBytes h
    pub size : length h ≡ hash_size
    pub hashes :
        (s : R.State)
        → ◌≡◌ {A = Option L.Content} (L.file s (stored_at repo h)) c
        → (R.hashfile (stored_at repo h) s).0 ≡ ok h

  module _ (h : Bytes) (c : Option L.Content) (whole : IsWhole h c) where
    abbrev Keeps : World R.State → Type 0
    Keeps w = ◌≡◌ {A = Option L.Content} (L.file w.fs (stored_at repo h)) c

    and_then-Keeps :
        {A B : Type 0} (m : Result A × World R.State)
        (f : A → World R.State → Result B × World R.State)
        → Keeps m.1
        → ((a : A) (w1 : World R.State) → m ≡ (ok a, w1) → Keeps w1 → Keeps (f a w1).1)
        → Keeps (and_then m f).1
    and_then-Keeps (ok a, w1) f v k = k a w1 refl v
    and_then-Keeps (err e, w1) f v k = v
    and_then-Keeps (fatal, w1) f v k = v

    report_missing-Keeps :
        (m : Result (Unit {0}) × World R.State) → Keeps m.1 → Keeps (report_missing m).1
    unfolding report_missing report
    report_missing-Keeps (ok u, w) v = v
    report_missing-Keeps (err (Exception.file_error n), w) v = ground (arith, v)
    report_missing-Keeps (err (Exception.sftp_file_error n k), w) v = ground (arith, v)
    report_missing-Keeps (err _, w) v = v
    report_missing-Keeps (fatal, w) v = v

    mismatch-Keeps :
        (hp : Bytes) (w : World R.State)
        → hp ≢ stored_at repo h
        → Keeps w
        → Keeps (mismatch R detectbogus repo hp w).1
    unfolding mismatch report on_fs
    mismatch-Keeps hp w other v = elim (Bool-cases detectbogus) [
      | inl e ↦ rw e (L.remove_keeps hp (stored_at repo h) w.fs other ∙ v)
      | inr e ↦ rw e v
    ]

    -- A mismatch is not found in the file of `h`.
    not_whole :
        (hp k actual : Bytes) (w : World R.State)
        → (hp ≡ stored_at repo h → k ≡ h)
        → Keeps w
        → (R.hashfile hp w.fs).0 ≡ ok actual
        → same k actual ≡ false
        → hp ≢ stored_at repo h
    not_whole hp k actual w own v e differ at =
        let found : ◌≡◌ {A = Result Bytes} (ok actual) (ok h) =
          sym e ∙ ap (λ p. (R.hashfile p w.fs).0) at ∙ whole.hashes w.fs v in
        let same_bytes : actual ≡ h = cc (found) in cc (differ, own at, same_bytes, same_self h)

    verify_file-Keeps :
        (hp k : Bytes) (w : World R.State)
        → (hp ≡ stored_at repo h → k ≡ h)
        → Keeps w
        → Keeps (verify_file R detectbogus repo hp k w).1
    unfolding verify_file on_fs
    verify_file-Keeps hp k w own v =
        report_missing-Keeps (and_then (on_fs (R.hashfile hp) w) (compare R detectbogus repo hp k))
          (and_then-Keeps (on_fs (R.hashfile hp) w) (compare R detectbogus repo hp k)
            (L.hashfile_keeps hp (stored_at repo h) w.fs ∙ v)
            (λ actual w1 e v1. compared actual w1 (ap (λ m. m.0) e) v1))
      where
        compared :
            (actual : Bytes) (w1 : World R.State)
            → (R.hashfile hp w.fs).0 ≡ ok actual
            → Keeps w1
            → Keeps (compare R detectbogus repo hp k actual w1).1
        compared actual w1 e v1 =
            unfold compare in
            elim (Bool-cases (same k actual)) [
              | inl q ↦ rw q v1
              | inr q ↦ rw q (mismatch-Keeps hp w1 (not_whole hp k actual w own v e q) v1)
            ]

    verify_hash-Keeps :
        (hex : Bytes) (w : World R.State) → Keeps w → Keeps (verify_hash R detectbogus repo hex w).1
    unfolding verify_hash decode_name
    verify_hash-Keeps hex w v = and_then-Keeps (decode_name hex w) _ v λ k w1 e v1.
        let (size, are_bytes, _, _) = hashdecode_sound hex k w.log _ (ap (λ m. (m.0, m.1.log)) e) in
        verify_file-Keeps (stored_at repo k) k w1
          (stored_at_injective repo k h are_bytes whole.are_bytes size whole.size) v1

    verify_regular-Keeps :
        (bytes hash : Option Bytes) (w : World R.State)
        → Keeps w
        → Keeps (verify_regular R detectbogus repo bytes hash w).1
    unfolding verify_regular report
    verify_regular-Keeps (some b) hash w v = v
    verify_regular-Keeps none (some hex) w v = verify_hash-Keeps hex w v
    verify_regular-Keeps none none w v = v

    verify_line-Keeps :
        (details : Details) (w : World R.State)
        → Keeps w
        → Keeps (verify_line R detectbogus repo details w).1
    unfolding verify_line
    verify_line-Keeps details w v = elim (Option-cases (getdetail details (codes "type"))) [
      | inl e ↦ rw (e, verify_line) (verify_regular-Keeps _ _ w v)
      | inr (t, e) ↦ rw (e, verify_line) v
    ]

    after_line-Keeps :
        (rest : World R.State → Result (Unit {0}) × World R.State) (r : Result (Option Details))
        (w : World R.State)
        → ((w1 : World R.State) → Keeps w1 → Keeps (rest w1).1)
        → Keeps w
        → Keeps
            (and_then {B = Unit {0}}
              (r, w)
              λ o w1. elim o [
                | none ↦ (ok tt, w1)
                | some details ↦
                    and_then (verify_line R detectbogus repo details w1) (λ _ w2. rest w2)
              ]).1
    after_line-Keeps rest fatal w k v = v
    after_line-Keeps rest (err e) w k v = v
    after_line-Keeps rest (ok none) w k v = v
    after_line-Keeps rest (ok (some details)) w k v =
        and_then-Keeps (verify_line R detectbogus repo details w) (λ _ w2. rest w2)
          (verify_line-Keeps details w v) (λ _ w1 _ v1. k w1 v1)

    module _ (V : Device) where
      verify_lines-Keeps :
          (n fuel : ℕ) (f : File V) (w : World R.State)
          → Keeps w
          → Keeps (verify_lines R detectbogus repo V n fuel f w).1
      unfolding verify_lines
      verify_lines-Keeps zero fuel f w v = v
      verify_lines-Keeps (suc n) fuel f w v =
          let (r, rd) = read_details V fuel (record { file = f; log = w.log }) in
          after_line-Keeps (verify_lines R detectbogus repo V n fuel rd.file) r
            (record w { log = rd.log }) (verify_lines-Keeps n fuel rd.file) v

      guarded-Keeps :
          (b : Bool) (w : World R.State) (m : Result (Unit {0}) × World R.State)
          → Keeps w
          → Keeps m.1
          → Keeps (if b then (fatal, w) else m).1
      guarded-Keeps true w m v k = v
      guarded-Keeps false w m v k = k

      -- Whatever index do_verify() is given, well formed or not, and however it ends, the stored
      -- file of a hash is as it was if the hash of its content is found to be that hash.
      -- Opening a file is taken to leave the stored file as it is.
      pub do_verify_safe :
          (open_read : Bytes → R.State → Result V.State × R.State) (fuel : ℕ)
          (root indexfile : Bytes) (w : World R.State)
          → ((p : Bytes) (s : R.State)
              → ◌≡◌ {A = Option L.Content}
                  (L.file (open_read p s).1 (stored_at repo h))
                  (L.file s (stored_at repo h)))
          → Keeps w
          → Keeps (do_verify R detectbogus repo V open_read fuel root indexfile w).1
      unfolding do_verify on_fs
      do_verify_safe open_read fuel root indexfile w opens v = guarded-Keeps (same repo []) w _ v (
          guarded-Keeps (not (same root [])) w _ v (
            guarded-Keeps (same indexfile []) w _ v (
              and_then-Keeps (on_fs (open_read indexfile) w)
                (λ d w1. verify_lines R detectbogus repo V fuel fuel (new_file d) w1)
                (opens indexfile w.fs ∙ v)
                (λ d w1 _ v1. verify_lines-Keeps fuel fuel (new_file d) w1 v1))))
