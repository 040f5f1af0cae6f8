-- ===== src/Names/RoundTrip.antt =====
-- The names that a backup writes are those that a restore reads.
use mathlib.Core.List.{map}
use hbackup.Prelude.{
  ◌≡◌, ◌≢◌, ◌⊎◌, inl, inr, refl, ap, [], ◌∷◌, ◌++◌, List, All, Lacks, Bool, true, false, Option,
  some, Bytes, bytes_eq, same-false, codes, take-append, drop-append_cons, rfind_behind,
  rfind_of_Lacks, arith,
}
use hbackup.Names.{local_name, rel_name, written_names, is_relative, dir_part, resolve, resolve_all}

-- A directory of the tree below the root: a path that does not begin with `./`.
pub record IsBelow (dir : Bytes) : Type 0 where
  pub not_root : dir ≢ codes "."
  pub not_empty : dir ≢ []
  pub not_relative : is_relative dir ≡ false

-- The directories that backup_dir() is called on.
abbrev pub IsDir : Bytes → Type 0
IsDir dir = (dir ≡ codes ".") ⊎ IsBelow dir

local_name_below : (dir name : Bytes) → IsBelow dir → local_name dir name ≡ dir ++ b'/' ∷ name
unfolding local_name
local_name_below dir name v = rw (same-false dir (codes ".") v.not_root) refl

local_name_root : (name : Bytes) → local_name (codes ".") name ≡ name
unfolding local_name
local_name_root name = refl

-- What resolve() makes of an absolute name.
resolve_absolute :
    (dir name : Bytes) → is_relative name ≡ false → resolve dir name ≡ (some name, dir_part name)
unfolding resolve
resolve_absolute dir name e = rw e refl

resolve_relative :
    (dir name : Bytes)
    → dir ≢ []
    → resolve dir (codes "./" ++ name) ≡ (some (dir ++ b'/' ∷ name), dir)
unfolding resolve is_relative
resolve_relative [] name h = absurd (h refl)
resolve_relative (c ∷ dir) name h = ground arith

is_relative_plain : (name : Bytes) → Lacks b'/' name → is_relative name ≡ false
unfolding is_relative
is_relative_plain [] h = refl
is_relative_plain (c ∷ []) h = ground arith
is_relative_plain (c ∷ d ∷ name) (hc, more) = ground (arith, more.0)

is_relative_below : (dir name : Bytes) → IsBelow dir → is_relative (dir ++ b'/' ∷ name) ≡ false
unfolding is_relative
is_relative_below [] name v = absurd (v.not_empty refl)
is_relative_below (c ∷ []) name v =
    let ne : c ≢ b'.' = λ e. v.not_root (ap (λ x. x ∷ []) e) in ground arith
is_relative_below (c ∷ d ∷ dir) name v = v.not_relative

dir_part_below : (dir name : Bytes) → Lacks b'/' name → dir_part (dir ++ b'/' ∷ name) ≡ dir
unfolding dir_part
dir_part_below dir name h =
    rw (rfind_behind b'/' dir name h, dir_part) (take-append dir (b'/' ∷ name))

dir_part_plain : (name : Bytes) → Lacks b'/' name → dir_part name ≡ []
unfolding dir_part
dir_part_plain name h = rw (rfind_of_Lacks b'/' name h, dir_part) refl

rel_name_below :
    (dir name : Bytes) → Lacks b'/' name → rel_name false (dir ++ b'/' ∷ name) ≡ codes "./" ++ name
unfolding rel_name
rel_name_below dir name h =
    rw (rfind_behind b'/' dir name h, rel_name)
      (ap (λ s. codes "./" ++ s) (drop-append_cons dir b'/' name))

rel_name_plain : (first : Bool) (name : Bytes) → Lacks b'/' name → rel_name first name ≡ name
unfolding rel_name
rel_name_plain true name h = refl
rel_name_plain false name h = rw (rfind_of_Lacks b'/' name h, rel_name) refl

-- The names of a directory's files, as the restore is to see them.
abbrev pub local_names : Bytes → List Bytes → List (Option Bytes)
local_names dir names = map (λ name. some (local_name dir name)) names

rest_below :
    (dir : Bytes) (names rest : List Bytes) (t : List (Option Bytes))
    → IsBelow dir
    → All (Lacks b'/') names
    → ((d : Bytes) → resolve_all d rest ≡ t)
    → resolve_all dir (written_names false dir names ++ rest) ≡ local_names dir names ++ t
unfolding resolve_all written_names
rest_below dir [] rest t v _ h = h dir
rest_below dir (name ∷ names) rest t v (plain, more) h =
    rw
      (
        local_name_below dir name v,
        rel_name_below dir name plain,
        resolve_relative dir name v.not_empty,
      )
      (ap (λ l. some (dir ++ b'/' ∷ name) ∷ l) (rest_below dir names rest t v more h))

written_below :
    (dir d : Bytes) (names rest : List Bytes) (t : List (Option Bytes))
    → IsBelow dir
    → All (Lacks b'/') names
    → ((e : Bytes) → resolve_all e rest ≡ t)
    → resolve_all d (written_names true dir names ++ rest) ≡ local_names dir names ++ t
unfolding resolve_all written_names rel_name
written_below dir d [] rest t v _ h = h d
written_below dir d (name ∷ names) rest t v (plain, more) h =
    rw
      (
        local_name_below dir name v,
        resolve_absolute d (dir ++ b'/' ∷ name) (is_relative_below dir name v),
        dir_part_below dir name plain,
      )
      (ap (λ l. some (dir ++ b'/' ∷ name) ∷ l) (rest_below dir names rest t v more h))

written_root :
    (first : Bool) (d : Bytes) (names rest : List Bytes) (t : List (Option Bytes))
    → All (Lacks b'/') names
    → ((e : Bytes) → resolve_all e rest ≡ t)
    → resolve_all d (written_names first (codes ".") names ++ rest)
      ≡ local_names (codes ".") names ++ t
unfolding resolve_all written_names
written_root first d [] rest t _ h = h d
written_root first d (name ∷ names) rest t (plain, more) h =
    rw
      (
        local_name_root name,
        rel_name_plain first name plain,
        resolve_absolute d name (is_relative_plain name plain),
      )
      (ap (λ l. some name ∷ l) (written_root false (dir_part name) names rest t more h))

-- The names that a backup writes for directories, one after the other, and the names it means.
unfoldable pub index_names : List (Bytes × List Bytes) → List Bytes
index_names [] = []
index_names ((dir, names) ∷ ds) = written_names true dir names ++ index_names ds

unfoldable pub meant_names : List (Bytes × List Bytes) → List (Option Bytes)
meant_names [] = []
meant_names ((dir, names) ∷ ds) = local_names dir names ++ meant_names ds

-- A listing that backup_dir() can make.
abbrev pub IsListing : Bytes × List Bytes → Type 0
IsListing (dir, names) = IsDir dir × All (Lacks b'/') names

-- A restore resolves the names of an index to the paths that the backup meant, in their order and
-- none of them refused, whatever directory it remembers at first. The directories are `.` or paths
-- that are not empty and do not begin with `./`, and no name in them holds a slash.
pub resolve_all-index_names :
    (d : Bytes) (ds : List (Bytes × List Bytes))
    → All IsListing ds
    → resolve_all d (index_names ds) ≡ meant_names ds
unfolding index_names meant_names
resolve_all-index_names d [] _ = unfold resolve_all in refl
resolve_all-index_names d ((dir, names) ∷ ds) ((inl e, plain), more) = rw e (
    written_root true d names (index_names ds) (meant_names ds) plain
      (λ x. resolve_all-index_names x ds more))
resolve_all-index_names d ((dir, names) ∷ ds) ((inr v, plain), more) =
    written_below dir d names (index_names ds) (meant_names ds) v plain
      (λ x. resolve_all-index_names x ds more)
