-- ===== src/Tests/Memory.antt =====
-- A file in memory, and a repository in memory: instances of the interfaces.
use hbackup.Prelude.{
  ℕ, zero, suc, ◌<◌, ◌≡◌, ◌≢◌, refl, sym, subst, [], ◌∷◌, ◌++◌, List, Option, none, some, Bytes,
  bytes_eq, same, codes, take, drop, take-append-drop, length-take_le, if◌then◌else◌, Bool-cases,
  inl, inr, All, Lacks, arith,
}
use hbackup.Prelude.Dict
use hbackup.Prelude.Dict.{Dict}
use hbackup.Outcome.{Result, ok, err, file_error}
use hbackup.File.{Device}
use hbackup.File.Read.{IsReader}
use hbackup.File.Write.{IsWriter}
use hbackup.Filesystem.{Filetype, regular_file, directory, Repository, IsRepository}

-- What is left to read, and what was written.
abbrev pub memory_file : Device
memory_file = record {
  State = Bytes × Bytes;
  readbytes = λ d n. (ok (take n d.0), (drop n d.0, d.1));
  writebytes = λ d s. (ok tt, (d.0, d.1 ++ s));
  synchronize = λ d. (ok tt, d);
}

pub nothing_taken : (n : ℕ) (s : Bytes) → 0 < n → take n s ≡ [] → s ≡ []
nothing_taken zero s h e = absurd (omega arith)
nothing_taken (suc n) [] h e = refl
nothing_taken (suc n) (c ∷ s) h e = cc

abbrev pub memory_file-IsReader : IsReader memory_file
memory_file-IsReader = record {
  content = λ d. d.0;
  delivers = λ d n h. (
    take n d.0,
    (drop n d.0, d.1),
    refl,
    sym (take-append-drop n d.0),
    length-take_le n d.0,
    nothing_taken n d.0 h,
  );
}

abbrev pub memory_file-IsWriter : IsWriter memory_file
memory_file-IsWriter = record {
  written = λ d. d.1;
  accepts = λ d s. ((d.0, d.1 ++ s), refl, refl);
  settles = λ d. (d, refl, refl);
}

abbrev pub live_name : Bytes
live_name = codes "0102030405060708090a0b0c0d0e0f1011121314"

abbrev pub live_hash : Bytes
live_hash =
    0x01 ∷ 0x02 ∷ 0x03 ∷ 0x04 ∷ 0x05 ∷ 0x06 ∷ 0x07 ∷ 0x08 ∷ 0x09 ∷ 0x0a ∷ 0x0b ∷ 0x0c ∷ 0x0d ∷ 0x0e
    ∷ 0x0f ∷ 0x10 ∷ 0x11 ∷ 0x12 ∷ 0x13 ∷ 0x14 ∷ []

-- The directories of a repository with one hash and one stray file.
abbrev pub listing : Bytes → List Bytes
listing p =
    if same p (codes "r/sha1")
    then codes "01" ∷ codes "stray" ∷ []
    else if same p (codes "r/sha1/01")
    then codes "02" ∷ []
    else if same p (codes "r/sha1/01/02")
    then live_name ∷ []
    else []

listing-Lacks : (p : Bytes) → All (Lacks b'/') (listing p)
listing-Lacks p = elim (Bool-cases (same p (codes "r/sha1"))) [
  | inl e ↦ rw e (omega arith)
  | inr e ↦ elim (Bool-cases (same p (codes "r/sha1/01"))) [
    | inl f ↦ rw (e, f) (omega arith)
    | inr f ↦ elim (Bool-cases (same p (codes "r/sha1/01/02"))) [
      | inl g ↦ rw (e, f, g) (omega arith)
      | inr g ↦ rw (e, f, g) tt
    ]
  ]
]

abbrev type_of : Option Bytes → Filetype
type_of none = directory
type_of (some c) = regular_file

-- The files by path, under fixed directories. A file's content stands for its hash.
abbrev pub memory_repository : Repository
memory_repository = record {
  State = Dict Bytes Bytes;
  contents = λ p s. (ok (listing p), s);
  type = λ p s. (ok (type_of (Dict.lookup p s)), s);
  remove = λ p s. (ok tt, Dict.erase p s);
  hashfile = λ p s. (elim (Dict.lookup p s) [ none ↦ err (file_error 2) | some c ↦ ok c ], s);
}

pub erase_keeps :
    (p q : Bytes) (s : Dict Bytes Bytes) → p ≢ q → Dict.lookup q (Dict.erase p s) ≡ Dict.lookup q s
erase_keeps p q s h = rw Dict.lookup-erase (ground arith)

pub listed-Lacks :
    (p : Bytes) (c : List Bytes)
    → ◌≡◌ {A = Result (List Bytes)} (ok (listing p)) (ok c)
    → All (Lacks b'/') c
listed-Lacks p c e = let q : listing p ≡ c = cc in subst (All (Lacks b'/')) q (listing-Lacks p)

abbrev pub memory_repository-IsRepository : IsRepository memory_repository
memory_repository-IsRepository = record {
  Content = Bytes;
  file = λ s p. Dict.lookup p s;
  contents_keeps = λ p q s. refl;
  type_keeps = λ p q s. refl;
  hashfile_keeps = λ p q s. refl;
  remove_keeps = λ p q s h. erase_keeps p q s h;
  names = λ p s {c} e. listed-Lacks p c e;
}
