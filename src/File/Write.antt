-- ===== src/File/Write.antt =====
-- file.cc: writing to a device that takes all: every byte that was put, in order, once it is flushed.
use hbackup.Prelude.{◌≡◌, [], ◌∷◌, ◌++◌, Bytes}
use hbackup.Outcome.{ok, and_then}
use hbackup.File.{Device, File, flush, put_all}
use hbackup.File.Taker.{IsTaker, IsWritable, IsFlushed, flush_able}
use hbackup.File.Puts.{put_all-able, flush-put_all_able}

-- What the methods of a file that can be written are taken to do: writebytes() adds the bytes to
-- what the file holds, and synchronize() adds nothing.
pub record IsWriter (V : Device) : Type 0 where
  pub written : V.State → Bytes
  pub accepts :
      (d : V.State) (s : Bytes)
      → (d' : V.State) × (V.writebytes d s ≡ (ok tt, d')) × (written d' ≡ written d ++ s)
  pub settles :
      (d : V.State) → (d' : V.State) × (V.synchronize d ≡ (ok tt, d')) × (written d' ≡ written d)

module _ (V : Device) (W : IsWriter V) where
  open W use {written, accepts, settles}

  -- It takes any number of bytes.
  abbrev taker : IsTaker V
  taker = record {
    Able = λ _ _. Unit;
    written = written;
    accepts = λ d c s n short a. let (d', q, more) = accepts d (c ∷ s) in (d', q, more, tt);
    settles = λ d n a. let (d', q, same_text) = settles d in (d', q, same_text, tt);
  }

  -- What was put into the file so far.
  abbrev pub text : File V → Bytes
  text f = written f.device ++ f.buffered

  -- flush() hands all that was put to the device.
  pub flush_lem :
      (f : File V)
      → IsWritable V f
      → (g : File V) × (flush V f ≡ (ok tt, g)) × (written g.device ≡ text f) × IsFlushed V g
  flush_lem f v = let (g, q, all, w, a) = flush_able V taker f 0 v tt in (g, q, all, w)

  -- A string is put byte by byte, through as many flushes as it takes.
  pub put_all_lem :
      (s : Bytes) (f : File V)
      → IsWritable V f
      → (g : File V) × (put_all V s f ≡ (ok tt, g)) × (text g ≡ text f ++ s) × IsWritable V g
  put_all_lem s f v = let (g, q, t, w, a) = put_all-able V taker s f 0 v tt in (g, q, t, w)

  -- After a string is put and the file is flushed, the device holds what was put before and then
  -- the string, and the buffer is empty.
  pub flush-put_all :
      (s : Bytes) (f : File V)
      → IsWritable V f
      → (g : File V) × (and_then (put_all V s f) (λ _ h. flush V h) ≡ (ok tt, g))
        × (written g.device ≡ text f ++ s)
        × (g.buffered ≡ [])
  flush-put_all s f v =
      let (g, q, all, empty, a) = flush-put_all_able V taker s f 0 v tt in (g, q, all, empty)
