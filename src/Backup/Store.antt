-- ===== src/Backup/Store.antt =====
-- backup.cc: the last loop but one of backup_dir(), which stores the files whose hashes are not in the
-- repository.
use hbackup.Prelude.{
  ℕ, zero, suc, ◌+◌, [], ◌∷◌, ◌++◌, List, Bool, true, false, none, some, Bytes, codes, bytes_eq,
  same, rfind, take, if◌then◌else◌, ◌==◌,
}
use hbackup.Outcome.{Result, ok, err, fatal, Exception, file_error, sftp_file_error, and_then}
use hbackup.File.{Device, File, new_file, getbytes, put_all, flush, buffer_size}
use hbackup.Hashing.{Sha1}
use hbackup.Host.{Host, file_of, makedirs}
use hbackup.Backup.{Hashable, Tree, reader_of, World, Options, on_tree}

-- `catch(FileError &e) { if(e.error() != ENOENT) throw; ... }`, where ENOENT is 2.
unfoldable pub is_enoent : Exception → Bool
is_enoent (file_error e) = e == 2
is_enoent (sftp_file_error e status) = e == 2
is_enoent _ = false

-- `string(hp, 0, hp.rfind('/'))`, which is all of it if there is no slash.
unfoldable pub parent_of : Bytes → Bytes
unfolding rfind
parent_of hp = elim (rfind b'/' hp) [ some n ↦ take n hp | none ↦ hp ]

-- `it->hp + ".tmp"`
unfoldable pub temporary_for : Bytes → Bytes
temporary_for hp = hp ++ codes ".tmp"

module _ (T : Tree) (R : Host) (V N : Device) (S : Sha1) (opts : Options) where
  abbrev pub Now : Type 0
  Now = World T.State R.State V.State N.State

  -- A call on backupfs.
  unfoldable pub on_repository :
      {A : Type 0} → (R.State → Result A × R.State) → Now → Result A × Now
  on_repository f w = let (r, s) = f w.repository in (r, record w { repository = s })

  -- The file is opened, once more if the directories had to be made first.
  unfoldable pub open_temporary : Bytes → Bytes → Now → Result R.Handle × Now
  unfolding on_repository makedirs parent_of is_enoent
  open_temporary tmpname hp w =
      let (r, w1) = on_repository (R.open_write tmpname) w in
      elim r [
        | ok h ↦ (ok h, w1)
        | fatal ↦ (fatal, w1)
        | err e ↦
            if is_enoent e
            then and_then (on_repository (makedirs R (parent_of hp)) w1)
                (λ _ w2. on_repository (R.open_write tmpname) w2)
            else (err e, w1)
      ]

  -- What is done with a block, where `next_block` is what follows.
  unfoldable pub store_block :
      (S.Context
        → File (reader_of T)
        → File (file_of R)
        → Result S.Context × (File (reader_of T) × File (file_of R)))
      → S.Context
      → Bytes
      → File (reader_of T)
      → File (file_of R)
      → Result S.Context × (File (reader_of T) × File (file_of R))
  unfolding put_all
  store_block next_block ctx [] f dst = (ok ctx, (f, dst))
  store_block next_block ctx (c ∷ s) f dst =
      let (q, dst1) = put_all (file_of R) (c ∷ s) dst in
      and_then (q, (f, dst1))
        λ _ p.
          and_then (if opts.recheckhash then S.input ctx (c ∷ s) else ok ctx, p)
            (λ ctx1 p1. next_block ctx1 p1.0 p1.1)

  -- `while((n = f->getbytes(...)))`, with fuel for the blocks.
  unfoldable pub store_loop :
      ℕ
      → S.Context
      → File (reader_of T)
      → File (file_of R)
      → Result S.Context × (File (reader_of T) × File (file_of R))
  unfolding getbytes store_block
  store_loop zero ctx f dst = (fatal, (f, dst))
  store_loop (suc fuel) ctx f dst =
      let (r, f1) = getbytes (reader_of T) buffer_size false f in
      and_then (r, (f1, dst)) (λ block p. store_block (store_loop fuel) ctx block p.0 p.1)

  -- A file that has changed since it was hashed ends the process.
  unfoldable pub recheck : Bytes → S.Context → Result (Unit {0})
  unfolding bytes_eq
  recheck hash ctx = elim opts.recheckhash [
    | false ↦ ok tt
    | true ↦ elim (S.result ctx) [
      | ok actual ↦ if same actual hash then ok tt else fatal
      | err e ↦ err e
      | fatal ↦ fatal
    ]
  ]

  -- The content of the file, and its end.
  unfoldable pub fill_temporary :
      ℕ → Bytes → S.Context → T.Handle → R.Handle → Now → Result (Unit {0}) × Now
  unfolding store_loop recheck flush
  fill_temporary fuel hash ctx g h w =
      let (r, p) = store_loop fuel ctx (new_file (g, w.tree)) (new_file (h, w.repository)) in
      let (q, p1) =
        and_then (r, p)
          λ ctx1 p2.
            and_then (recheck hash ctx1, p2)
              λ _ p3. let (u, dst) = flush (file_of R) p3.1 in (u, (p3.0, dst)) in
      (q, record w { tree = p1.0.device.1; repository = p1.1.device.1 })

  -- The body of the loop.
  unfoldable pub store_file : ℕ → Hashable → Now → Result (Unit {0}) × Now
  unfolding on_repository on_tree open_temporary fill_temporary temporary_for
  store_file fuel it w =
      let tmpname = temporary_for it.hp in
      and_then (on_repository (R.exists it.hp) w) λ there w1.
        if there
        then (ok tt, w1)
        else and_then (on_tree (T.open_read it.path) w1) λ g w2.
          and_then (S.reset, w2)
            λ ctx w3. and_then (open_temporary tmpname it.hp w3) λ h w4.
              and_then (fill_temporary fuel it.hash ctx g h w4) λ _ w5.
                and_then (on_repository (R.rename tmpname it.hp) w5) λ _ w6. (
                  ok tt,
                  record w6 { counts = record w6.counts { new_hashes = w6.counts.new_hashes + 1 } },
                )

  -- The loop.
  unfoldable pub store_files : ℕ → List Hashable → Now → Result (Unit {0}) × Now
  unfolding store_file
  store_files fuel [] w = (ok tt, w)
  store_files fuel (it ∷ hashables) w =
      and_then (store_file fuel it w) (λ _ w1. store_files fuel hashables w1)
