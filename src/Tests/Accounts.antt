-- ===== src/Tests/Accounts.antt =====
-- The names of users and the conversion of names, at concrete data.
use hbackup.Prelude.{
  ℕ, zero, suc, ◌≡◌, refl, ap, subst, [], ◌∷◌, true, false, Option, none, some, Bytes, bytes_eq,
  nat_eq, same, codes, if◌then◌else◌, ltb, Bool-cases, inl, inr, arith,
}
use hbackup.Prelude.Dict
use hbackup.Prelude.Dict.{Dict}
use hbackup.Outcome.{ok, no_log}
use hbackup.Users.{Database, Names, alldigits, uid2string, string2uid, gid2string, string2gid}
use hbackup.Users.Caches.{IsCached, IsConsistent, string2uid-uid2string}
use hbackup.Recode.{Iconv, Answer, Ending, complete, invalid, full, convert}
use hbackup.Recode.Whole.{IsIconv, Continues, convert-meaning}

-- One user, `root`.
abbrev root_name : ℕ → Option Bytes
root_name zero = some (codes "root")
root_name (suc n) = none

abbrev root_only : Database
root_only = record {
  name_of = root_name;
  id_of = λ s. if same s (codes "root") then some 0 else none;
}

root_found : (id : ℕ) (n : Bytes) → root_name id ≡ some n → root_only.id_of n ≡ some id
unfolding bytes_eq
root_found zero n e =
    let q : codes "root" ≡ n = cc in subst (λ m. root_only.id_of m ≡ some 0) q refl
root_found (suc id) n e = cc

root_named : (id : ℕ) (n : Bytes) → root_name id ≡ some n → alldigits n ≡ false
unfolding alldigits
root_named zero n e = let q : codes "root" ≡ n = cc in subst (λ m. alldigits m ≡ false) q refl
root_named (suc id) n e = cc

root_only-IsConsistent : IsConsistent root_only
root_only-IsConsistent = record { found = root_found; named = root_named }

abbrev no_names : Names
no_names = record { uid2names = []; gid2names = []; names2uid = []; names2gid = []; log = no_log }

no_names-IsCached : IsCached root_only root_only no_names
unfolding Dict.lookup
no_names-IsCached = record {
  uids = λ k n e. cc;
  gids = λ k n e. cc;
  uid_names = λ s k e. cc;
  gid_names = λ s k e. cc;
}

string2uid-uid2string_example :
    ((string2uid root_only (uid2string root_only 1000 no_names).0 no_names).0 ≡ ok 1000)
    × ((string2gid root_only (gid2string root_only 1000 no_names).0 no_names).0 ≡ ok 1000)
string2uid-uid2string_example =
    string2uid-uid2string root_only root_only 1000 no_names no_names root_only-IsConsistent
      root_only-IsConsistent (omega arith) no_names-IsCached no_names-IsCached

root_text : (uid2string root_only 0 no_names).0 ≡ codes "root"
unfolding uid2string
root_text = refl

-- ASCII to ASCII, a character at a time. A byte above 127 begins nothing.
abbrev as_ascii : ℕ → ℕ
as_ascii c = if ltb c 128 then c else b'?'

abbrev ascii_text : Bytes → Bytes
ascii_text [] = []
ascii_text (c ∷ s) = as_ascii c ∷ ascii_text s

abbrev ascii_ending : Bytes → Ending
ascii_ending [] = complete
ascii_ending (c ∷ s) = full

abbrev ascii_run : Bytes → Answer (Unit {0})
ascii_run [] = record { taken = 0; written = []; state = tt; ending = complete }
ascii_run (c ∷ s) =
    if ltb c 128
    then record { taken = 1; written = c ∷ []; state = tt; ending = ascii_ending s }
    else record { taken = 0; written = []; state = tt; ending = invalid }

abbrev ascii : Iconv
ascii = record {
  Descriptor = Unit {0};
  open_cd = λ t f. some tt;
  reset = λ cd. cd;
  run = λ cd s. ascii_run s;
}

as_ascii_small : (c : ℕ) → ltb c 128 ≡ true → as_ascii c ≡ c
as_ascii_small c e = rw e refl

as_ascii_large : (c : ℕ) → ltb c 128 ≡ false → as_ascii c ≡ b'?'
as_ascii_large c e = rw e refl

ascii_run-Continues :
    (c : ℕ) (s : Bytes)
    → Continues ascii
        (λ cd t. ascii_text t)
        tt
        (c ∷ s)
        (ascii_run (c ∷ s))
        (ascii_run (c ∷ s)).ending
ascii_run-Continues c [] = elim (Bool-cases (ltb c 128)) [
  | inl e ↦ rw e (refl, ap (λ b. b ∷ []) (as_ascii_small c e))
  | inr e ↦ rw e (omega arith, ap (λ b. b ∷ []) (as_ascii_large c e))
]
ascii_run-Continues c (d ∷ s) = elim (Bool-cases (ltb c 128)) [
  | inl e ↦ rw e (omega arith, ap (λ b. b ∷ ascii_text (d ∷ s)) (as_ascii_small c e))
  | inr e ↦ rw e (omega arith, ap (λ b. b ∷ ascii_text (d ∷ s)) (as_ascii_large c e))
]

ascii-IsIconv : IsIconv ascii
ascii-IsIconv = record {
  meaning = λ cd s. ascii_text s;
  nothing = λ cd. refl;
  continues = λ cd c s. ascii_run-Continues c s;
}

convert-meaning_example : convert ascii 9 (some tt) (b'a' ∷ 0xe9 ∷ b'b' ∷ []) ≡ ok (codes "a?b")
unfolding ascii-IsIconv
convert-meaning_example =
    convert-meaning ascii ascii-IsIconv 9 tt (b'a' ∷ 0xe9 ∷ b'b' ∷ []) (omega arith)
