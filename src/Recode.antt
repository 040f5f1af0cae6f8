-- ===== src/Recode.antt =====
-- recode.cc: the conversion of names from one encoding to another, over the C library's iconv().
pub mod Whole
use hbackup.Prelude.{ℕ, zero, suc, ◌+◌, [], ◌∷◌, ◌++◌, List, Option, none, some, drop, Bytes}
use hbackup.Outcome.{Result, ok, fatal, ◌>>=◌}

-- How a call of iconv() ends: with all its input converted, or with EILSEQ or EINVAL, E2BIG, or
-- another errno.
pub data Ending : Type 0 where
  complete invalid full undocumented : Ending

-- What it has done: how many bytes it has taken, what it has written, and its state behind that.
pub record Answer (D : Type 0) : Type 0 where
  pub taken : ℕ
  pub written : Bytes
  pub state : D
  pub ending : Ending

-- `open_cd to from` is iconv_open(), where `none` is the null pointer; `reset` is a call without
-- input, and `run` one with the 1024 bytes of `buffer` to write to.
pub record Iconv : Type 1 where
  pub Descriptor : Type 0
  pub open_cd : Bytes → Bytes → Option Descriptor
  pub reset : Descriptor → Descriptor
  pub run : Descriptor → Bytes → Answer Descriptor

module _ (I : Iconv) where
  open I use {Descriptor, open_cd, reset, run}

  -- The constructor. Its parameters are named the other way round than they are given, and then
  -- exchanged again: the first encoding is what is converted from.
  unfoldable pub make_recoder : Option Bytes → Option Bytes → Result (Option Descriptor)
  make_recoder none none = ok none
  make_recoder none (some t) = fatal
  make_recoder (some f) none = fatal
  make_recoder (some f) (some t) = elim (open_cd t f) [ some cd ↦ ok (some cd) | none ↦ fatal ]

  -- `while(inbytesleft)`; `r` is what has been converted. A byte that begins nothing becomes a
  -- question mark.
  unfoldable pub convert_loop : ℕ → Descriptor → Bytes → Bytes → Result Bytes
  convert_loop zero cd inbuf r = fatal
  convert_loop (suc fuel) cd [] r = ok r
  convert_loop (suc fuel) cd (c ∷ s) r =
      let a = run cd (c ∷ s) in
      let rest = drop a.taken (c ∷ s) in
      let r1 = r ++ a.written in
      elim a.ending [
        | complete ↦ convert_loop fuel a.state rest r1
        | invalid ↦ convert_loop fuel a.state (drop 1 rest) (r1 ++ b'?' ∷ [])
        | full ↦ convert_loop fuel a.state rest r1
        | undocumented ↦ fatal
      ]

  -- Recode::convert()
  unfoldable pub convert : ℕ → Option Descriptor → Bytes → Result Bytes
  unfolding convert_loop
  convert fuel none s = ok s
  convert fuel (some cd) s = convert_loop fuel (reset cd) s []
