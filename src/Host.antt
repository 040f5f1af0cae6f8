-- ===== src/Host.antt =====
-- class Filesystem of nhbackup.h: the operations by which a backup stores files and a restore makes
-- them, and makedirs() of file.cc, which is written over them.

use hbackup.Prelude.{
  ℕ, [], ◌∷◌, ◌++◌, Bool, Option, Bytes, ◌≡◌, ◌≢◌, take, drop, ◌==◌, if◌then◌else◌,
}
use hbackup.Outcome.{Result, ok, and_then}
use hbackup.File.{Device}

-- A file that is open has a handle, and reading and writing act on the state of the file system.
-- socket(), bind() and close() on a path are one operation, which returns whether bind() did it.
pub record Host : Type 1 where
  pub State : Type 0
  pub Handle : Type 0
  pub exists : Bytes → State → Result Bool × State
  pub remove : Bytes → State → Result (Unit {0}) × State
  pub rename : Bytes → Bytes → State → Result (Unit {0}) × State
  pub link : Bytes → Bytes → State → Result (Unit {0}) × State
  pub symlink : Bytes → Bytes → State → Result (Unit {0}) × State
  pub mkdir : Bytes → ℕ → State → Result (Unit {0}) × State
  pub mknod : Bytes → ℕ → ℕ → State → Result (Unit {0}) × State
  pub lchown : Bytes → ℕ → ℕ → State → Result (Unit {0}) × State
  pub chmod : Bytes → ℕ → State → Result (Unit {0}) × State
  pub utimes : Bytes → ℕ → ℕ → State → Result (Unit {0}) × State
  pub make_socket : Bytes → State → Result Bool × State
  pub open_read : Bytes → State → Result Handle × State
  pub open_write : Bytes → State → Result Handle × State
  pub readbytes : Handle → ℕ → State → Result Bytes × State
  pub writebytes : Handle → Bytes → State → Result (Unit {0}) × State
  pub synchronize : Handle → State → Result (Unit {0}) × State

-- The methods of an open file, with the file system that it is in.
abbrev pub file_of : (H : Host) → Device
file_of H = record {
  State = H.Handle × H.State;
  readbytes = λ d n. let (r, s) = H.readbytes d.0 n d.1 in (r, (d.0, s));
  writebytes = λ d b. let (r, s) = H.writebytes d.0 b d.1 in (r, (d.0, s));
  synchronize = λ d. let (r, s) = H.synchronize d.0 d.1 in (r, (d.0, s));
}

-- Filesystem::makedirs(): the loop over the slashes behind the first byte, with the path before them.
module _ (H : Host) where
  -- `if(!exists(prefix)) mkdir(prefix);`
  unfoldable pub make_missing : Bytes → H.State → Result (Unit {0}) × H.State
  make_missing prefix s =
      and_then (H.exists prefix s)
        (λ there s1. if there then (ok tt, s1) else H.mkdir prefix 511 s1)

  unfoldable pub makedirs_loop : Bytes → Bytes → H.State → Result (Unit {0}) × H.State
  unfolding make_missing
  makedirs_loop prefix [] s = (ok tt, s)
  makedirs_loop prefix (c ∷ rest) s =
      and_then (if c == b'/' then make_missing prefix s else (ok tt, s))
        (λ _ s1. makedirs_loop (prefix ++ c ∷ []) rest s1)

  unfoldable pub makedirs : Bytes → H.State → Result (Unit {0}) × H.State
  unfolding makedirs_loop
  makedirs path s = and_then (H.exists path s) λ there s1.
      if there
      then (ok tt, s1)
      else and_then (makedirs_loop (take 1 path) (drop 1 path) s1) (λ _ s2. H.mkdir path 511 s2)

-- What the operations are taken to do to the files, `file s p` being what stands at the path `p`:
-- each changes at most what stands at the path that it makes, removes or changes, and an open file
-- is changed at the path at which it was opened for writing. A rename that fails leaves its target.
pub record IsHost (H : Host) : Type 1 where
  pub Content : Type 0
  pub file : H.State → Bytes → Option Content
  pub opened_at : H.Handle → Bytes
  pub exists_keeps : (p q : Bytes) (s : H.State) → file (H.exists p s).1 q ≡ file s q
  pub remove_keeps : (p q : Bytes) (s : H.State) → p ≢ q → file (H.remove p s).1 q ≡ file s q
  pub rename_keeps :
      (p t q : Bytes) (s : H.State) → p ≢ q → t ≢ q → file (H.rename p t s).1 q ≡ file s q
  pub rename_fails :
      (p t : Bytes) (s : H.State)
      → p ≢ t
      → (H.rename p t s).0 ≢ ok tt
      → file (H.rename p t s).1 t ≡ file s t
  pub link_keeps : (p t q : Bytes) (s : H.State) → t ≢ q → file (H.link p t s).1 q ≡ file s q
  pub symlink_keeps : (p t q : Bytes) (s : H.State) → t ≢ q → file (H.symlink p t s).1 q ≡ file s q
  pub mkdir_keeps :
      (p q : Bytes) (m : ℕ) (s : H.State) → p ≢ q → file (H.mkdir p m s).1 q ≡ file s q
  pub mknod_keeps :
      (p q : Bytes) (m d : ℕ) (s : H.State) → p ≢ q → file (H.mknod p m d s).1 q ≡ file s q
  pub lchown_keeps :
      (p q : Bytes) (u g : ℕ) (s : H.State) → p ≢ q → file (H.lchown p u g s).1 q ≡ file s q
  pub chmod_keeps :
      (p q : Bytes) (m : ℕ) (s : H.State) → p ≢ q → file (H.chmod p m s).1 q ≡ file s q
  pub utimes_keeps :
      (p q : Bytes) (a m : ℕ) (s : H.State) → p ≢ q → file (H.utimes p a m s).1 q ≡ file s q
  pub make_socket_keeps :
      (p q : Bytes) (s : H.State) → p ≢ q → file (H.make_socket p s).1 q ≡ file s q
  pub open_read_keeps : (p q : Bytes) (s : H.State) → file (H.open_read p s).1 q ≡ file s q
  pub open_write_keeps :
      (p q : Bytes) (s : H.State) → p ≢ q → file (H.open_write p s).1 q ≡ file s q
  pub open_write_at :
      (p : Bytes) (s : H.State) (h : H.Handle) → (H.open_write p s).0 ≡ ok h → opened_at h ≡ p
  pub readbytes_keeps :
      (h : H.Handle) (n : ℕ) (q : Bytes) (s : H.State) → file (H.readbytes h n s).1 q ≡ file s q
  pub writebytes_keeps :
      (h : H.Handle) (b q : Bytes) (s : H.State)
      → opened_at h ≢ q
      → file (H.writebytes h b s).1 q ≡ file s q
  pub synchronize_keeps :
      (h : H.Handle) (q : Bytes) (s : H.State)
      → opened_at h ≢ q
      → file (H.synchronize h s).1 q ≡ file s q
