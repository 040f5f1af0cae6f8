-- ===== src/Local/Laws.antt =====
-- local.cc: what reading a directory and writing a file come to, where the system calls do what is
-- documented of them.
use Prim.Native.Nat.{◌<◌}
use hbackup.Prelude.{
  ℕ, zero, suc, ◌+◌, ◌≤◌, ◌≡◌, inl, inr, refl, sym, ap, ◌∙◌, [], ◌∷◌, ◌++◌, append_assoc,
  append-nil, List, true, false, none, some, length, take-append, Bytes, bytes_eq, codes, same,
  arith, ltb, if◌then◌else◌, Bool-cases,
}
use hbackup.Outcome.{ok}
use hbackup.File.Read.{IsReader}
use hbackup.File.Write.{IsWriter}
use hbackup.Sftp.Requests.Contents.{is_listed}
use hbackup.Local.{returned, System, or_throw}
use hbackup.Local.Files.{write_loop, writebytes, readbytes, local_device}
use hbackup.Local.Directories.{push_name, read_entries, end_contents, contents}

-- A directory that can be read: opendir() gives it an identity under which readdir() returns the
-- entries one by one and then the end, and closedir() succeeds.
pub record IsDirectory (S : System) (path : Bytes) (entries : List Bytes) (s : S.State)
    : Type 0 where
  pub dp : ℕ
  pub left : S.State → List Bytes
  pub opened : S.State
  pub opens : S.opendir path s ≡ (returned dp, opened)
  pub all_left : left opened ≡ entries
  pub reads :
      (s1 : S.State) (name : Bytes) (names : List Bytes)
      → left s1 ≡ name ∷ names
      → (s2 : S.State) × (S.readdir dp s1 ≡ (returned (some name), s2)) × (left s2 ≡ names)
  pub ends :
      (s1 : S.State) → left s1 ≡ [] → (s2 : S.State) × (S.readdir dp s1 ≡ (returned none, s2))
  pub closes : (s1 : S.State) → (s2 : S.State) × (S.closedir dp s1 ≡ (returned tt, s2))

-- The entries but for `.` and `..`.
unfoldable pub listed : List Bytes → List Bytes
listed [] = []
listed (name ∷ names) =
    if same name (codes ".")
    then listed names
    else if same name (codes "..")
    then listed names
    else name ∷ listed names

push_name-listed :
    (name : Bytes) (names c : List Bytes)
    → push_name name c ++ listed names ≡ c ++ listed (name ∷ names)
unfolding push_name listed is_listed
push_name-listed name names c = elim (Bool-cases (same name (codes "."))) [
  | inl e ↦ rw e refl
  | inr e ↦ elim (Bool-cases (same name (codes ".."))) [
    | inl d ↦ rw (e, d) refl
    | inr d ↦ rw (e, d) (append_assoc c (name ∷ []) (listed names))
  ]
]

module _ (S : System) where
  read_entries_lem :
      (path : Bytes) (entries : List Bytes) (s0 : S.State) (D : IsDirectory S path entries s0)
      (fuel : ℕ) (names c : List Bytes) (s : S.State)
      → length names < fuel
      → D.left s ≡ names
      → (s' : S.State) × (read_entries S fuel D.dp c s ≡ (ok (c ++ listed names), s'))
  unfolding read_entries or_throw listed push_name
  read_entries_lem path entries s0 D zero names c s few e = absurd (omega arith)
  read_entries_lem path entries s0 D (suc fuel) [] c s few e =
      let (s1, q) = D.ends s e in (s1, rw (q, append-nil) refl)
  read_entries_lem path entries s0 D (suc fuel) (name ∷ names) c s few e =
      let (s1, q, left) = D.reads s name names e in
      let (s2, r) =
        read_entries_lem path entries s0 D fuel names (push_name name c) s1 (omega arith) left in
      (s2, rw q (r ∙ ap (λ x. (ok x, s2)) (push_name-listed name names c)))

  -- With more fuel than entries, contents() returns the names in a directory that can be read, in
  -- their order, but for `.` and `..`.
  pub contents-listed :
      (fuel : ℕ) (path : Bytes) (entries : List Bytes) (s : S.State)
      → length entries < fuel
      → IsDirectory S path entries s
      → (s' : S.State) × (contents S fuel path s ≡ (ok (listed entries), s'))
  unfolding contents end_contents or_throw
  contents-listed fuel path entries s few D =
      let (s1, q) = read_entries_lem path entries s D fuel entries [] D.opened few D.all_left in
      let (s2, r) = D.closes s1 in (s2, rw (D.opens, q, r) refl)

  -- An open file: read() delivers the next bytes, some if there are any, and write() takes all that
  -- it is given.
  pub record IsOpenFile (fd : ℕ) : Type 0 where
    pub content : S.State → Bytes
    pub written : S.State → Bytes
    pub reads :
        (s : S.State) (n : ℕ)
        → 0 < n
        → (chunk : Bytes) × (s' : S.State) × (S.read fd n s ≡ (returned chunk, s'))
          × (content s ≡ chunk ++ content s')
          × (length chunk ≤ n)
          × (chunk ≡ [] → content s ≡ [])
    pub writes :
        (s : S.State) (b : Bytes)
        → (s' : S.State) × (S.write fd b s ≡ (returned (length b), s'))
          × (written s' ≡ written s ++ b)

  module _ (fd : ℕ) (F : IsOpenFile fd) where
    open F use {content, written, reads, writes}

    write_none :
        (fuel : ℕ) (buf behind : Bytes) (n : ℕ) (s : S.State)
        → ltb n (length buf) ≡ false
        → write_loop S (suc fuel) fd n buf behind s ≡ (ok tt, s)
    unfolding write_loop
    write_none fuel buf behind n s e = rw e refl

    -- One call writes the buffer.
    write_once :
        (fuel : ℕ) (buf behind : Bytes) (s s1 : S.State)
        → ltb 0 (length buf) ≡ true
        → S.write fd buf s ≡ (returned (length buf), s1)
        → write_loop S (suc fuel) fd 0 buf behind s
          ≡ write_loop S fuel fd (0 + length buf) buf behind s1
    unfolding write_loop or_throw
    write_once fuel buf behind s s1 e q = rw (write_loop, e, take-append buf behind, q) refl

    write_whole :
        (fuel : ℕ) (buf behind : Bytes) (s : S.State)
        → (s' : S.State) × (writebytes S (suc (suc fuel)) fd buf behind s ≡ (ok tt, s'))
          × (written s' ≡ written s ++ buf)
    unfolding writebytes
    write_whole fuel [] behind s = (s, write_none (suc fuel) [] behind 0 s refl, sym (append-nil _))
    write_whole fuel (b ∷ buf) behind s =
        let (s1, q, w) = writes s (b ∷ buf) in
        (
          s1,
          write_once (suc fuel) (b ∷ buf) behind s s1 (ground arith) q
              ∙ write_none fuel (b ∷ buf) behind (0 + length (b ∷ buf)) s1 (ground arith),
          w,
        )

    -- A file on which write() takes what it is given is a writer: what is written is the bytes given
    -- to writebytes(), once and in order. A fuel of 2 is enough.
    pub local_device-IsWriter :
        (fuel : ℕ) (behind : Bytes) → IsWriter (local_device S (suc (suc fuel)) fd behind)
    unfolding local_device
    local_device-IsWriter fuel behind = record {
      written = written;
      accepts = λ s b. write_whole fuel b behind s;
      settles = λ s. (s, refl, refl);
    }

    pub local_device-IsReader :
        (fuel : ℕ) (behind : Bytes) → IsReader (local_device S fuel fd behind)
    unfolding local_device readbytes or_throw
    local_device-IsReader fuel behind = record {
      content = content;
      delivers = λ s n pos.
          let (chunk, s1, q, split, small, at_end) = reads s n pos in
          (chunk, s1, rw q refl, split, small, at_end);
    }
