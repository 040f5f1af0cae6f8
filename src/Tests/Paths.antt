-- ===== src/Tests/Paths.antt =====
-- The theorem on the names of an index, at a root and a directory below it.
use hbackup.Prelude.{◌≡◌, refl, inl, inr, [], ◌∷◌, List, Bytes, codes, arith}
use hbackup.Names.{resolve_all}
use hbackup.Names.RoundTrip.{IsBelow, index_names, meant_names, resolve_all-index_names}

-- `etc` and `motd` at the root, and `hosts` and `rc` in `etc`.
abbrev listings : List (Bytes × List Bytes)
listings =
    (codes ".", codes "etc" ∷ codes "motd" ∷ [])
    ∷ (codes "etc", codes "hosts" ∷ codes "rc" ∷ [])
    ∷ []

etc-IsBelow : IsBelow (codes "etc")
etc-IsBelow = record {
  not_root = cc;
  not_empty = cc;
  not_relative = unfold hbackup.Names.is_relative in refl;
}

resolve_all-index_names_example : resolve_all [] (index_names listings) ≡ meant_names listings
resolve_all-index_names_example =
    resolve_all-index_names [] listings
      ((inl refl, omega arith), ((inr etc-IsBelow, omega arith), tt))
