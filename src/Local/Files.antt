-- ===== src/Local/Files.antt =====
-- local.cc: LocalFile, the device of a buffered local file, by its descriptor.
use hbackup.Prelude.{
  ℕ, zero, suc, ◌+◌, ◌++◌, Bool, length, take, drop, Bytes, ltb, ◌==◌, if◌then◌else◌,
}
use hbackup.Outcome.{Result, ok, fatal, and_then}
use hbackup.File.{Device}
use hbackup.Local.{failed, returned, System, or_throw}

module _ (S : System) where
  -- LocalFile::readbytes()
  unfoldable pub readbytes : ℕ → ℕ → S.State → Result Bytes × S.State
  unfolding or_throw
  readbytes fd space s = or_throw (S.read fd space s)

  -- The loop of LocalFile::writebytes(). Each call is for `nbytes` again, wherever it starts, so that
  -- one behind a short write runs into `behind`, what stands in memory behind the buffer. The fuel
  -- bounds the calls.
  unfoldable pub write_loop : ℕ → ℕ → ℕ → Bytes → Bytes → S.State → Result (Unit {0}) × S.State
  unfolding or_throw
  write_loop zero fd written buf behind s = (fatal, s)
  write_loop (suc fuel) fd written buf behind s =
      let call = S.write fd (take (length buf) (drop written (buf ++ behind))) s in
      let rest = and_then (or_throw call) λ n s1. write_loop fuel fd (written + n) buf behind s1 in
      if ltb written (length buf) then rest else (ok tt, s)

  -- LocalFile::writebytes()
  unfoldable pub writebytes : ℕ → ℕ → Bytes → Bytes → S.State → Result (Unit {0}) × S.State
  unfolding write_loop
  writebytes fuel fd buf behind s = write_loop fuel fd 0 buf behind s

  -- What `readable` makes of select(): EINTR is 4, and the fuel bounds the calls.
  unfoldable pub select_loop : ℕ → ℕ → S.State → Result Bool × S.State
  select_loop zero fd s = (fatal, s)
  select_loop (suc fuel) fd s =
      let (r, s1) = S.select fd s in
      let again = select_loop fuel fd s1 in
      elim r [ returned b ↦ (ok b, s1) | failed e ↦ if e == 4 then again else (fatal, s1) ]

  -- LocalFile as a device. It does not override synchronize(), which does nothing.
  unfoldable pub local_device : ℕ → ℕ → Bytes → Device
  unfolding readbytes writebytes
  local_device fuel fd behind = record {
    State = S.State;
    readbytes = λ s n. readbytes fd n s;
    writebytes = λ s b. writebytes fuel fd b behind s;
    synchronize = λ s. (ok tt, s);
  }
