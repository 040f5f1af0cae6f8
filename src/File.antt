-- ===== src/File.antt =====
-- file.cc and class File of nhbackup.h: buffered reading and writing over the virtual methods
-- readbytes(), writebytes() and synchronize() of a derived class.
pub mod Read
pub mod Lines
pub mod Rounds
pub mod Blocks
pub mod Taker
pub mod Puts
pub mod Write
pub mod Keeps
use hbackup.Prelude.{
  ℕ, zero, suc, ◌+◌, ◌-◌, [], ◌∷◌, ◌++◌, Bool, true, false, ◌&&◌, not, Option, none, some, length,
  take, drop, Bytes, ltb, leb, ◌==◌, if◌then◌else◌,
}
use hbackup.Outcome.{Result, ok, err, fatal, and_then}

-- The three methods that a derived class gives, over its own state.
pub record Device : Type 1 where
  pub State : Type 0
  pub readbytes : State → ℕ → Result Bytes × State
  pub writebytes : State → Bytes → Result (Unit {0}) × State
  pub synchronize : State → Result (Unit {0}) × State

pub data Mode : Type 0 where
  idle reading writing : Mode

-- `sizeof buffer`
abbrev pub buffer_size : ℕ
buffer_size = 4096

-- `buffered` is what stands from `next` up to `top` where the mode is `reading`, and from `buffer` up
-- to `next` where it is `writing`. It is empty where the mode is `idle`, the source's `none`.
pub record FileOf (D : Type 0) : Type 0 where
  pub mode : Mode
  pub buffered : Bytes
  pub eof : Bool
  pub device : D

abbrev pub new_file : {D : Type 0} → D → FileOf D
new_file d = record { mode = idle; buffered = []; eof = false; device = d }

-- What a round of File::getbytes() found: the end of the file, at which it breaks, or bytes.
pub data Round : Type 0 where
  break : Round
  got : Bytes → Round

module _ (V : Device) where
  open V use {State, readbytes, writebytes, synchronize}

  abbrev pub File : Type 0
  File = FileOf State

  -- What readbytes() delivered is the new buffer, and nothing delivered is the end of the file.
  unfoldable pub filled : Bytes → File → Result ℕ × File
  filled [] f = (ok 0, record f { buffered = []; eof = true })
  filled (c ∷ chunk) f = (ok (length (c ∷ chunk)), record f { buffered = c ∷ chunk })

  -- File::fill() in the modes `idle` and `reading`. An exception leaves the mode `reading`.
  unfoldable pub refill : File → Result ℕ × File
  unfolding filled
  refill f =
      let (r, d) = readbytes f.device buffer_size in
      if f.eof
      then (ok 0, record f { mode = reading })
      else and_then (r, record f { mode = reading; device = d }) filled

  -- File::fill(): the assertion fails on a file that is being written.
  unfoldable pub fill : File → Result ℕ × File
  unfolding refill
  fill f = elim f.mode [ writing ↦ (fatal, f) | _ ↦ refill f ]

  -- `*next++`
  unfoldable pub next_byte : File → Bytes → Result (Option ℕ) × File
  next_byte f [] = (ok none, f)
  next_byte f (c ∷ rest) = (ok (some c), record f { buffered = rest })

  -- File::getch(), `none` at the end of the file. It is meant for a file that is not being written.
  unfoldable pub getch : File → Result (Option ℕ) × File
  unfolding fill next_byte
  getch f = elim f.buffered [
    | [] ↦ and_then (fill f) (λ n g. next_byte g g.buffered)
    | c ∷ rest ↦ next_byte f (c ∷ rest)
  ]

  -- The loop of File::getline(); `r` is the line so far. The result is `none` where the source
  -- returns 0. Each round takes a character, so fuel beyond what is left to read is never used up.
  unfoldable pub getline_loop : ℕ → Bytes → File → Result (Option Bytes) × File
  getline_loop zero r f = (fatal, f)
  getline_loop (suc fuel) r f = and_then (getch f) λ o g. elim o [
    | none ↦ (ok (if ltb 0 (length r) then some r else none), g)
    | some c ↦
        let more = getline_loop fuel (r ++ c ∷ []) g in
        if c == b'\n' then (ok (some r), g) else more
  ]

  unfoldable pub getline : ℕ → File → Result (Option Bytes) × File
  unfolding getline_loop getch
  getline fuel f = getline_loop fuel [] f

  -- `if(!n) eof = 1;`
  unfoldable pub mark_eof : Bytes → File → File
  mark_eof [] f = record f { eof = true }
  mark_eof (c ∷ chunk) f = f

  -- From the buffer, or past it by readbytes() where the buffer is empty.
  unfoldable pub copy_out : ℕ → Bytes → File → Result Round × File
  unfolding mark_eof
  copy_out max [] f =
      let (r, d) = readbytes f.device max in
      and_then (r, record f { device = d }) (λ chunk g. (ok (got chunk), mark_eof chunk g))
  copy_out max (c ∷ b) f =
      let n = take max (c ∷ b) in
      (ok (got n), mark_eof n (record f { buffered = drop max (c ∷ b) }))

  -- The body of the loop: a small read fills an empty buffer first.
  unfoldable pub getbytes_round : ℕ → File → Result Round × File
  unfolding copy_out fill
  getbytes_round max f =
      if ltb (length f.buffered) 1 && ltb max buffer_size && not f.eof
      then and_then (fill f) (λ n g. if n == 0 then (ok break, g) else copy_out max g.buffered g)
      else copy_out max f.buffered f

  -- The loop. A round takes a byte or sets `eof`, so fuel beyond `max` is never used up.
  unfoldable pub getbytes_loop : ℕ → ℕ → Bool → Bytes → File → Result Bytes × File
  getbytes_loop zero max all out f = (fatal, f)
  getbytes_loop (suc fuel) max all out f = and_then (getbytes_round max f) λ o g. elim o [
    | break ↦ (ok out, g)
    | got chunk ↦
        let left = max - length chunk in
        let more = getbytes_loop fuel left all (out ++ chunk) g in
        if all && not g.eof && ltb 0 left then more else (ok (out ++ chunk), g)
  ]

  -- `if(mode != reading) if(!fill()) return 0;`, for a file that is not being written.
  unfoldable pub start_reading : File → Result ℕ × File
  unfolding fill
  start_reading f = elim f.mode [ reading ↦ (ok 1, f) | _ ↦ fill f ]

  -- File::getbytes()
  unfoldable pub getbytes : ℕ → Bool → File → Result Bytes × File
  unfolding getbytes_loop getbytes_round start_reading
  getbytes max all f =
      and_then (start_reading f)
        λ n g. if n == 0 then (ok [], g) else getbytes_loop (max + 1) max all [] g

  -- `if(next != buffer) writebytes(buffer, next - buffer);`
  unfoldable pub write_out : File → Result (Unit {0}) × File
  write_out f = elim f.buffered [
    | [] ↦ (ok tt, f)
    | c ∷ b ↦ let (r, d) = writebytes f.device (c ∷ b) in (r, record f { device = d })
  ]

  -- The end of File::flush(): an empty buffer, and synchronize().
  unfoldable pub reset_buffer : File → Result (Unit {0}) × File
  reset_buffer f =
      let (r, d) = synchronize f.device in
      (r, record f { mode = writing; buffered = []; device = d })

  -- File::flush(): the assertion fails on a file that is being read.
  unfoldable pub flush : File → Result (Unit {0}) × File
  unfolding write_out reset_buffer
  flush f = elim f.mode [
    | reading ↦ (fatal, f)
    | writing ↦ and_then (write_out f) (λ _ g. reset_buffer g)
    | idle ↦ reset_buffer f
  ]

  -- `next == top`
  unfoldable pub is_full : File → Bool
  is_full f = elim f.mode [
    | writing ↦ leb buffer_size (length f.buffered)
    | _ ↦ ltb (length f.buffered) 1
  ]

  -- `*next++ = c;`, which overwrites what was read if the file is being read.
  unfoldable pub store_byte : ℕ → File → File
  store_byte c f = elim f.mode [
    | writing ↦ record f { buffered = f.buffered ++ c ∷ [] }
    | _ ↦ record f { buffered = drop 1 f.buffered }
  ]

  -- File::put(int)
  unfoldable pub put : ℕ → File → Result (Unit {0}) × File
  unfolding is_full flush store_byte
  put c f =
      if is_full f
      then and_then (flush f) (λ _ g. (ok tt, store_byte c g))
      else (ok tt, store_byte c f)

  -- File::put(const char *, size_t), which the other forms of put() and putf() end in.
  unfoldable pub put_all : Bytes → File → Result (Unit {0}) × File
  unfolding put
  put_all [] f = (ok tt, f)
  put_all (c ∷ s) f = and_then (put c f) (λ _ g. put_all s g)
