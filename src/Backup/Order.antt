-- ===== src/Backup/Order.antt =====
-- backup.cc: sort(), and the order in which backup_dir() takes the files of a directory.
use hbackup.Prelude.{
  ◌≡◌, refl, sym, ap, subst, ◌∙◌, [], ◌∷◌, List, true, false, Bytes, if◌then◌else◌, Bool-cases, inl,
  inr, arith, ℕ, ◌++◌, codes, same, bytes_eq,
}
use mathlib.Core.List.{Permᴰ}
use mathlib.Core.List.Permᴰ
use hbackup.Outcome.{Result, ok, and_then}
use hbackup.Users.{Database}
use hbackup.File.{Device}
use hbackup.Exclude.{Pcre}
use hbackup.Hashing.{Sha1}
use hbackup.Host.{Host}
use hbackup.Backup.{Tree, World, Options, on_tree}
use hbackup.Backup.Listing.{Kept, before, insert_name, sort, collect}
use hbackup.Backup.Objects.{put_files}
use hbackup.Backup.Store.{store_files}
use hbackup.Backup.Command.{Opening, backup_here}

before_asym : (a b : Bytes) → before a b ≡ true → before b a ≡ false
unfolding before
before_asym [] [] h = refl
before_asym [] (d ∷ t) h = refl
before_asym (c ∷ s) [] h = cc
before_asym (c ∷ s) (d ∷ t) h = ground (arith, before_asym s t)

before_connected : (a b : Bytes) → before a b ≡ false → before b a ≡ false → a ≡ b
unfolding before
before_connected [] [] h k = refl
before_connected [] (d ∷ t) h k = cc
before_connected (c ∷ s) [] h k = cc
before_connected (c ∷ s) (d ∷ t) h k = ground (arith, before_connected s t)

before_trans : (a b c : Bytes) → before a b ≡ true → before b c ≡ true → before a c ≡ true
unfolding before
before_trans a [] [] h k = cc
before_trans a (y ∷ t) [] h k = cc
before_trans [] b (z ∷ u) h k = refl
before_trans (x ∷ s) [] (z ∷ u) h k = cc
before_trans (x ∷ s) (y ∷ t) (z ∷ u) h k = ground (arith, before_trans s t u)

-- What is not before `x`, which is before `a`, is before `a`.
before_between : (a b x : Bytes) → before x b ≡ false → before x a ≡ true → before b a ≡ true
before_between a b x h k = elim (Bool-cases (before b x)) [
  | inl e ↦ before_trans b x a e k
  | inr e ↦ subst (λ y. before y a ≡ true) (before_connected x b h e) k
]

-- Two names are put in front of a list in their order.
front :
    (a b : Bytes) (l : List Bytes)
    → (if before b a then b ∷ a ∷ l else a ∷ b ∷ l) ≡ (if before a b then a ∷ b ∷ l else b ∷ a ∷ l)
front a b l = elim (Bool-cases (before b a)) [
  | inl e ↦ rw (e, before_asym b a e) refl
  | inr e ↦ elim (Bool-cases (before a b)) [
    | inl f ↦ rw (e, f) refl
    | inr f ↦
        let same_name : a ≡ b = before_connected a b f e in
        rw (e, f) (ap (λ c. a ∷ c ∷ l) (sym same_name) ∙ ap (λ c. c ∷ a ∷ l) same_name)
  ]
]

insert_name_comm :
    (a b : Bytes) (l : List Bytes)
    → insert_name a (insert_name b l) ≡ insert_name b (insert_name a l)
unfolding insert_name
insert_name_comm a b [] = front a b []
insert_name_comm a b (x ∷ l) = elim (Bool-cases (before x a)) [
  | inl e ↦ elim (Bool-cases (before x b)) [
    | inl f ↦ rw (e, f, e) (ap (λ t. x ∷ t) (insert_name_comm a b l))
    | inr f ↦ rw (e, f, before_between a b x f e, e) refl
  ]
  | inr e ↦ elim (Bool-cases (before x b)) [
    | inl f ↦ rw (e, f, before_between b a x e f, e) refl
    | inr f ↦ rw (e, f, e) (front a b (x ∷ l))
  ]
]

insert_name-perm : (name : Bytes) (l : List Bytes) → Permᴰ (insert_name name l) (name ∷ l)
unfolding insert_name
insert_name-perm name [] = Permᴰ.refl (name ∷ [])
insert_name-perm name (x ∷ l) = elim (Bool-cases (before x name)) [
  | inl e ↦ rw e (Permᴰ.trans (Permᴰ.cons refl (insert_name-perm name l)) (Permᴰ.swap refl refl))
  | inr e ↦ rw e (Permᴰ.refl (name ∷ x ∷ l))
]

sort-perm : (names : List Bytes) → Permᴰ (sort names) names
unfolding sort
sort-perm [] = Permᴰ.nil
sort-perm (name ∷ names) =
    Permᴰ.trans (insert_name-perm name (sort names)) (Permᴰ.cons refl (sort-perm names))

sort_of_perm : {xs ys : List Bytes} → Permᴰ xs ys → sort xs ≡ sort ys
unfolding sort
sort_of_perm Permᴰ.nil = refl
sort_of_perm (Permᴰ.cons {a} {b} {l₁} {l₂} e d) =
    ap (λ n. insert_name n (sort l₁)) e ∙ ap (insert_name b) (sort_of_perm d)
sort_of_perm (Permᴰ.swap {a} {b} {a'} {b'} {l} e f) =
    ap (λ n. insert_name n (insert_name b (sort l))) e
    ∙ ap (λ n. insert_name b' (insert_name n (sort l))) f
    ∙ insert_name_comm b' a' (sort l)
sort_of_perm (Permᴰ.trans d e) = sort_of_perm d ∙ sort_of_perm e

module _ (T : Tree) (R : Host) (V N O : Device) (S : Sha1) (P : Pcre) (exclusions : List P.Regex)
    (opts : Options) (passwd group : Database) (word : Bytes → ℕ)
    (opening : Opening T.State R.State V N O) where
  abbrev pub Here : Type 0
  Here = World T.State R.State V.State N.State

  -- The directory `folder` is read from `w`: `kept` of its files are considered, at `w2`.
  pub record Reads (folder : Bytes) (w : Here) (kept : Kept) (w2 : Here) : Type 0 where
    pub c : List Bytes
    pub w1 : Here
    pub lists :
        on_tree
          (T.contents (opts.root ++ (if same folder (codes ".") then [] else b'/' ∷ folder)))
          (record w { first = true; dirs = []; hashables = [] })
        ≡ (ok c, w1)
    pub considers :
        collect T R V N P exclusions opts folder c (record { ci = []; s = [] }) w1 ≡ (ok kept, w2)

  -- What is done once the files of a directory are in their order: their lines are put, and their
  -- contents are stored.
  unfoldable pub taken : ℕ → Bytes → Kept → List Bytes → Here → Result (List Bytes) × Here
  unfolding put_files store_files
  taken fuel folder kept names w2 =
      and_then (put_files T R V N opts passwd group word folder kept names w2) λ _ w3.
        and_then (store_files T R V N S opts fuel w3.hashables w3) (λ _ w4. (ok w4.dirs, w4))

  backup_here-Reads :
      (fuel : ℕ) (folder : Bytes) (w w2 : Here) (kept : Kept)
      → Reads folder w kept w2
      → backup_here T R V N O S P exclusions opts passwd group word opening fuel folder w
        ≡ taken fuel folder kept (sort kept.ci) w2
  unfolding backup_here taken
  backup_here-Reads fuel folder w w2 kept v = rw (v.lists, v.considers) refl

  -- In whichever order a directory lists its files, backup_dir() puts their lines in the same one:
  -- if two readings of it consider the same names, in any orders, there is one list of these names
  -- in whose order both put the lines, and then store the contents.
  pub backup_here-canonical :
      (fuel : ℕ) (folder : Bytes) (w v w2 v2 : Here) (kept others : Kept)
      → Reads folder w kept w2
      → Reads folder v others v2
      → Permᴰ kept.ci others.ci
      → (names : List Bytes) × Permᴰ names kept.ci
        × (backup_here T R V N O S P exclusions opts passwd group word opening fuel folder w
            ≡ taken fuel folder kept names w2)
        × (backup_here T R V N O S P exclusions opts passwd group word opening fuel folder v
            ≡ taken fuel folder others names v2)
  backup_here-canonical fuel folder w v w2 v2 kept others r q d = (
    sort kept.ci,
    sort-perm kept.ci,
    backup_here-Reads fuel folder w w2 kept r,
    backup_here-Reads fuel folder v v2 others q
        ∙ ap (λ names. taken fuel folder others names v2) (sym (sort_of_perm d)),
  )
