-- ===== src/Backup/Stored.antt =====
-- The repository while a file is stored: backup_dir() writes it under a temporary name.
use hbackup.Prelude.{
  ℕ, zero, suc, ◌≡◌, ◌≢◌, refl, sym, ◌∙◌, [], ◌∷◌, ◌++◌, append_assoc, append-nil, take-append-drop,
  take, drop, Bool, true, false, Option, Bytes, bytes_eq, if◌then◌else◌, ◌==◌,
}
use hbackup.Outcome.{Result, ok, err, fatal, and_then, and_then_keeps}
use hbackup.File.{Device, File, new_file, getbytes, put_all, buffer_size}
use hbackup.File.Keeps.{IsKept, put_all_keeps, flush_keeps}
use hbackup.Hashing.{Sha1}
use hbackup.Host.{Host, IsHost, file_of, make_missing, makedirs_loop, makedirs}
use hbackup.Backup.{Tree, reader_of, World, Options}
use hbackup.Backup.Store.{
  is_enoent, parent_of, on_repository, open_temporary, store_block, store_loop, recheck,
  fill_temporary,
}

-- The directories above a path and the path itself are made, and nothing else is touched.
module _ (R : Host) (L : IsHost R) (q : Bytes) where
  make_missing_keeps :
      (prefix : Bytes) (s : R.State)
      → prefix ≢ q
      → L.file (make_missing R prefix s).1 q ≡ L.file s q
  unfolding make_missing
  make_missing_keeps prefix s h =
      and_then_keeps (λ s1. L.file s1 q ≡ L.file s q) (R.exists prefix s) _
        (L.exists_keeps prefix q s) by_there
    where
      by_there :
          (there : Bool) (s1 : R.State)
          → L.file s1 q ≡ L.file s q
          → L.file (if there then (ok tt, s1) else R.mkdir prefix 511 s1).1 q ≡ L.file s q
      by_there true s1 e = e
      by_there false s1 e = L.mkdir_keeps prefix q 511 s1 h ∙ e

  makedirs_loop_keeps :
      (path prefix rest : Bytes) (s : R.State)
      → ((p r : Bytes) → p ++ r ≡ path → p ≢ q)
      → prefix ++ rest ≡ path
      → L.file (makedirs_loop R prefix rest s).1 q ≡ L.file s q
  unfolding makedirs_loop
  makedirs_loop_keeps path prefix [] s above e = refl
  makedirs_loop_keeps path prefix (c ∷ rest) s above e =
      and_then_keeps (λ s1. L.file s1 q ≡ L.file s q)
        (if c == b'/' then make_missing R prefix s else (ok tt, s)) _ (by_slash (c == b'/'))
        (λ _ s1 k.
          makedirs_loop_keeps path (prefix ++ c ∷ []) rest s1 above
            (append_assoc prefix (c ∷ []) rest ∙ e)
          ∙ k)
    where
      by_slash :
          (b : Bool) → L.file (if b then make_missing R prefix s else (ok tt, s)).1 q ≡ L.file s q
      by_slash true = make_missing_keeps prefix s (above prefix (c ∷ rest) e)
      by_slash false = refl

  pub makedirs_keeps :
      (path : Bytes) (s : R.State)
      → ((p r : Bytes) → p ++ r ≡ path → p ≢ q)
      → L.file (makedirs R path s).1 q ≡ L.file s q
  unfolding makedirs
  makedirs_keeps path s above =
      and_then_keeps (λ s1. L.file s1 q ≡ L.file s q) (R.exists path s) _ (L.exists_keeps path q s)
        by_there
    where
      by_there :
          (there : Bool) (s1 : R.State)
          → L.file s1 q ≡ L.file s q
          → L.file
              (if there
                then (ok tt, s1)
                else and_then
                    (makedirs_loop R (take 1 path) (drop 1 path) s1)
                    (λ _ s2. R.mkdir path 511 s2)).1
              q
            ≡ L.file s q
      by_there true s1 e = e
      by_there false s1 e =
          and_then_keeps (λ s2. L.file s2 q ≡ L.file s q) _ _
            (makedirs_loop_keeps path (take 1 path) (drop 1 path) s1 above (take-append-drop 1 path)
              ∙ e)
            (λ _ s2 k. L.mkdir_keeps path q 511 s2 (above path [] (append-nil path)) ∙ k)

module _ (T : Tree) (R : Host) (L : IsHost R) (V N : Device) (S : Sha1) (opts : Options)
    (q tmpname hp : Bytes) (c : Option L.Content) (other : tmpname ≢ q)
    (above : (p r : Bytes) → p ++ r ≡ parent_of hp → p ≢ q) where
  abbrev pub Now : Type 0
  Now = World T.State R.State V.State N.State

  abbrev pub Keeps : Now → Type 0
  Keeps w = ◌≡◌ {A = Option L.Content} (L.file w.repository q) c

  -- A file that is opened is opened under the temporary name.
  abbrev pub Opens : Result R.Handle × Now → Type 0
  Opens m = Keeps m.1 × ((h : R.Handle) → m.0 ≡ ok h → L.opened_at h ≡ tmpname)

  open_write-Opens :
      (w : Now) → Keeps w → Opens (on_repository T R V N S opts (R.open_write tmpname) w)
  unfolding on_repository
  open_write-Opens w v = (
    L.open_write_keeps tmpname q w.repository other ∙ v,
    λ h e. L.open_write_at tmpname w.repository h e,
  )

  and_then-Opens :
      {A : Type 0} (m : Result A × Now) (f : A → Now → Result R.Handle × Now)
      → Keeps m.1
      → ((a : A) (w : Now) → Keeps w → Opens (f a w))
      → Opens (and_then m f)
  and_then-Opens (ok a, w) f v k = k a w v
  and_then-Opens (err e, w) f v k = (v, λ h d. absurd (cc))
  and_then-Opens (fatal, w) f v k = (v, λ h d. absurd (cc))

  if-Opens :
      (b : Bool) (m n : Result R.Handle × Now) → Opens m → Opens n → Opens (if b then m else n)
  if-Opens true m n u v = u
  if-Opens false m n u v = v

  pub open_temporary-Opens :
      (w : Now) → Keeps w → Opens (open_temporary T R V N S opts tmpname hp w)
  unfolding open_temporary on_repository
  open_temporary-Opens w v = by_result (R.open_write tmpname w.repository).0 refl
    where
      first : Opens (on_repository T R V N S opts (R.open_write tmpname) w)
      first = open_write-Opens w v

      by_result :
          (r : Result R.Handle)
          → (R.open_write tmpname w.repository).0 ≡ r
          → Opens (open_temporary T R V N S opts tmpname hp w)
      by_result (ok h) e =
          rw (e, open_temporary) (first.0, λ k d. L.open_write_at tmpname w.repository k (e ∙ d))
      by_result fatal e = rw (e, open_temporary) (first.0, λ h d. absurd (cc))
      by_result (err x) e =
          rw (e, open_temporary)
            (if-Opens (is_enoent x) _ _
              (and_then-Opens
                (on_repository T R V N S opts (makedirs R (parent_of hp))
                  (record w { repository = (R.open_write tmpname w.repository).1 }))
                _ (makedirs_keeps R L q (parent_of hp) _ above ∙ first.0)
                (λ _ w2 u. open_write-Opens w2 u))
              (first.0, λ h d. absurd (cc)))

  -- The file that is written stands at the temporary name, and `q` is as it was.
  abbrev IsApart : R.Handle × R.State → Type 0
  IsApart d = (L.opened_at d.0 ≡ tmpname) × ◌≡◌ {A = Option L.Content} (L.file d.1 q) c

  away : (h : R.Handle) → L.opened_at h ≡ tmpname → L.opened_at h ≢ q
  away h e f = other (sym e ∙ f)

  device-IsKept : IsKept (file_of R) IsApart
  device-IsKept = record {
    write = λ d s v. (v.0, L.writebytes_keeps d.0 s q d.1 (away d.0 v.0) ∙ v.1);
    sync = λ d v. (v.0, L.synchronize_keeps d.0 q d.1 (away d.0 v.0) ∙ v.1);
  }

  abbrev Files : Type 0
  Files = File (reader_of T) × File (file_of R)

  store_block-IsApart :
      (next_block : S.Context → File (reader_of T) → File (file_of R) → Result S.Context × Files)
      → ((ctx : S.Context) (f : File (reader_of T)) (dst : File (file_of R))
          → IsApart dst.device
          → IsApart (next_block ctx f dst).1.1.device)
      → (ctx : S.Context) (block : Bytes) (f : File (reader_of T)) (dst : File (file_of R))
      → IsApart dst.device
      → IsApart (store_block T R V N S opts next_block ctx block f dst).1.1.device
  unfolding store_block
  store_block-IsApart next_block k ctx [] f dst v = v
  store_block-IsApart next_block k ctx (x ∷ s) f dst v =
      and_then_keeps {S = Files} (λ p. IsApart p.1.device)
        ((put_all (file_of R) (x ∷ s) dst).0, (f, (put_all (file_of R) (x ∷ s) dst).1)) _
        (put_all_keeps (file_of R) IsApart device-IsKept (x ∷ s) dst v)
        λ _ p u.
          and_then_keeps {S = Files} (λ p1. IsApart p1.1.device)
            (if opts.recheckhash then S.input ctx (x ∷ s) else ok ctx, p) _ u
            (λ ctx1 p1 u1. k ctx1 p1.0 p1.1 u1)

  store_loop-IsApart :
      (fuel : ℕ) (ctx : S.Context) (f : File (reader_of T)) (dst : File (file_of R))
      → IsApart dst.device
      → IsApart (store_loop T R V N S opts fuel ctx f dst).1.1.device
  unfolding store_loop
  store_loop-IsApart zero ctx f dst v = v
  store_loop-IsApart (suc fuel) ctx f dst v =
      and_then_keeps {S = Files} (λ p. IsApart p.1.device)
        (
          (getbytes (reader_of T) buffer_size false f).0,
          ((getbytes (reader_of T) buffer_size false f).1, dst),
        )
        _ v
        (λ block p u.
          store_block-IsApart (store_loop T R V N S opts fuel)
            (λ ctx1 f1 dst1 u1. store_loop-IsApart fuel ctx1 f1 dst1 u1) ctx block p.0 p.1 u)

  pub fill_temporary-Keeps :
      (fuel : ℕ) (hash : Bytes) (ctx : S.Context) (g : T.Handle) (h : R.Handle) (w : Now)
      → L.opened_at h ≡ tmpname
      → Keeps w
      → Keeps (fill_temporary T R V N S opts fuel hash ctx g h w).1
  unfolding fill_temporary
  fill_temporary-Keeps fuel hash ctx g h w at v =
      (and_then_keeps {S = Files} (λ p. IsApart p.1.device)
        (store_loop T R V N S opts fuel ctx (new_file (g, w.tree)) (new_file (h, w.repository))) _
        (store_loop-IsApart fuel ctx (new_file (g, w.tree)) (new_file (h, w.repository)) (at, v))
        λ ctx1 p u.
          and_then_keeps {S = Files} (λ p1. IsApart p1.1.device)
            (recheck T R V N S opts hash ctx1, p) _ u
            (λ _ p1 u1. flush_keeps (file_of R) IsApart device-IsKept p1.1 u1)).1
